-- ===== src/Mas/Api.antt =====
-- The interface `MASClient` of services/scim-bridge/internal/bridge/executor.go. A `Client` holds
-- the credentials; the state is that of the server and the network.
use mas_iam_operator.Prelude.{String, Option, List}
use mas_iam_operator.Errors.{Error, Result}
use mas_iam_operator.Mas.Payload.{UserResource, PatchOperation, MasUser}

pub record MasApi : Type 1 where
  pub Client : Type 0
  pub State : Type 0
  pub create_user : Client → String → UserResource → State → Result String × State
  pub update_user : Client → String → String → UserResource → State → Option Error × State
  pub patch_user : Client → String → String → List PatchOperation → State → Option Error × State
  pub search_users : Client → String → String → State → Result (List MasUser) × State
