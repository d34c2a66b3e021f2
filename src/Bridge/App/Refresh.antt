-- ===== src/Bridge/App/Refresh.antt =====
-- The token refresh and the backfill: `runWithMASRefresh` in
-- services/scim-bridge/internal/bridge/app.go over `Run` in
-- services/scim-bridge/internal/bridge/backfill.go.
use mas_iam_operator.Prelude.{
  ℕ, String, ◌≡◌, refl, inl, inr, Bool, true, false, not, Option, none, some, List, [], ◌∷◌, arith,
}
use mas_iam_operator.Errors.{Error, is_unauthorized, Result, ok, err, Result-cases}
use mas_iam_operator.Prelude.Text.{CaseTable}
use mas_iam_operator.Http.{Http}
use mas_iam_operator.Mas.Client.{MasJson, mas_client}
use mas_iam_operator.Mas.Api.{MasApi}
use mas_iam_operator.State.Api.{Store}
use mas_iam_operator.Keycloak.Users.{User}
use mas_iam_operator.Bridge.Profile.{ProfileResolver}
use mas_iam_operator.Bridge.Scope.{KeycloakSource, UserScope, candidates}
use mas_iam_operator.Bridge.Executor.Steps.{World}
use mas_iam_operator.Bridge.Backfill.{search_mas_user, backfill_user, backfill_users, backfill}
use mas_iam_operator.Bridge.App.{App, run_pass, run_with_mas_refresh, backfill_pass}

-- The result is no error that says that MAS refused the credentials.
abbrev pub is_no_refusal {ℓ} : {A : Type ℓ} → Result A → Bool
is_no_refusal (ok a) = true
is_no_refusal (err e) = not (is_unauthorized e)

abbrev is_refusal : Option Error → Bool
is_refusal none = false
is_refusal (some e) = is_unauthorized e

module _ (M : MasApi) (client : M.Client)
    (searches : (p f : String) (m : M.State)
      → is_no_refusal (M.search_users client p f m).0 ≡ true) where
  search_mas_user-is_no_refusal :
      (profile_id keycloak_id username : String) (m : M.State)
      → is_no_refusal (search_mas_user M client profile_id keycloak_id username m).0 ≡ true
  unfolding search_mas_user
  search_mas_user-is_no_refusal profile_id keycloak_id username m = grind (arith, searches)

  module _ ⦃c : CaseTable⦄ (S : Store) (resolver : ProfileResolver) where
    backfill_user-is_refusal :
        (u : User) (w : World S M) → is_refusal (backfill_user S M resolver client u w).0 ≡ false
    unfolding backfill_user is_unauthorized
    backfill_user-is_refusal u w = grind (arith, search_mas_user-is_no_refusal)

    backfill_users-is_refusal :
        (users : List User) (w : World S M)
        → is_refusal (backfill_users S M resolver client users w).0 ≡ false
    unfolding backfill_users
    backfill_users-is_refusal [] w = refl
    backfill_users-is_refusal (u ∷ users) w = ground (
      arith,
      backfill_user-is_refusal u w,
      backfill_users-is_refusal users (backfill_user S M resolver client u w).1,
    )

    backfill-is_refusal :
        (kc : KeycloakSource) (fuel : ℕ) (scope : UserScope) (k : kc.State) (w : World S M)
        → is_no_refusal (candidates kc fuel scope k).0 ≡ true
        → is_refusal (backfill S M resolver client kc fuel scope k w).0.0 ≡ false
    unfolding backfill
    backfill-is_refusal kc fuel scope k w h = elim (Result-cases (candidates kc fuel scope k).0) [
      | inl (users, e) ↦ rw (e, backfill) (backfill_users-is_refusal _ w)
      | inr (x, e) ↦ rw (e, backfill) (ground (arith, e, h))
    ]

module _ ⦃c : CaseTable⦄ (S : Store) (http : Http) (json : MasJson) (kc : KeycloakSource) (fuel : ℕ)
    (scope : UserScope) (resolver : ProfileResolver) where
  -- If no error of Keycloak and no error of a search in MAS is `ErrMASUnauthorized`, a run of the
  -- backfill under the token refresh is the run alone: whatever status MAS answers with, no token
  -- is fetched and nothing is tried again.
  pub backfill-no_refresh :
      (app : App S http json kc.State)
      → is_no_refusal (candidates kc fuel scope app.kc).0 ≡ true
      → ((p f : String) (s : http.State)
          → is_no_refusal ((mas_client http json).search_users app.executor.mas p f s).0 ≡ true)
      → run_with_mas_refresh S http json kc.State
          (backfill_pass S http json kc fuel scope resolver)
          app
        ≡ run_pass S http json kc.State (backfill_pass S http json kc fuel scope resolver) app
  unfolding run_with_mas_refresh run_pass
  backfill-no_refresh app h searches =
      let r =
        backfill-is_refusal (mas_client http json) app.executor.mas searches S resolver kc fuel
          scope app.kc app.world h in
      ground (arith, r)
