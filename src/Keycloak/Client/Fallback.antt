-- ===== src/Keycloak/Client/Fallback.antt =====
-- The fallback of `ListUsers` in services/scim-bridge/internal/keycloak/client.go.
use mas_iam_operator.Prelude.{ℕ, suc, ◌≡◌, ap, List, [], ◌∷◌, arith}
use mas_iam_operator.Errors.{Exec, ◌>>=◌}
use mas_iam_operator.Http.{Http, Response}
use mas_iam_operator.Keycloak.Users.{User}
use mas_iam_operator.Keycloak.Client.{
  KeycloakJson, Client, ListUsersParams, list_users, list_users_fuel, read_users, admin_get,
  page_query,
}
use mathlib.Core.Path.{fun_ext}

module _ (http : Http) (json : KeycloakJson) (c : Client) where
  -- At most one user is asked for: there is no fallback.
  read_users_last :
      (f g : Exec http.State (List User)) (resp : Response) (s : http.State)
      → read_users http json c 1 f resp s ≡ read_users http json c 1 g resp s
  unfolding read_users
  read_users_last f g resp s = ground arith

  list_users_last :
      (n m : ℕ) (first : ℕ) (s : http.State)
      → list_users_fuel http json (suc n) c (record { first = first; max = 1 }) s
        ≡ list_users_fuel http json (suc m) c (record { first = first; max = 1 }) s
  unfolding list_users_fuel
  list_users_last n m first s =
      ap
        (λ (k : Response → Exec http.State (List User)).
          (admin_get http json c ("users" ∷ []) (page_query first 1) >>= k) s)
        (fun_ext (λ resp. fun_ext (λ t. read_users_last _ _ resp t)))

  -- `ListUsers` calls itself once at most: with more fuel than two it gives the same answer after
  -- the same requests.
  pub list_users-eq-list_users_fuel :
      (n : ℕ) (params : ListUsersParams) (s : http.State)
      → list_users_fuel http json (suc (suc n)) c params s ≡ list_users http json c params s
  unfolding list_users list_users_fuel
  list_users-eq-list_users_fuel n params s =
      ap
        (λ (fallback : Exec http.State (List User)).
          (admin_get http json c ("users" ∷ []) (page_query params.first params.max) >>= λ resp.
          read_users http json c params.max fallback resp)
            s)
        (fun_ext (λ t. list_users_last n 0 params.first t))
