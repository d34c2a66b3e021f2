-- ===== src/Errors.antt =====
-- Go's `(value, error)` results and the errors that the bridge tells apart: `ResponseError` of
-- services/scim-bridge/internal/mas/client.go and `ErrMASUnauthorized` of
-- services/scim-bridge/internal/bridge/executor.go.
use mas_iam_operator.Prelude.{
  refl, ℕ, String, ◌<>◌, Bool, true, false, Option, none, some, nat_beq, ◌≡◌, ◌⊎◌, inl, inr,
}

pub record ResponseError : Type 0 where
  pub status_code : ℕ
  pub status : String
  pub body : String

-- `wrapped` is `fmt.Errorf("<text>: %w", err)`. `mas_unauthorized` is `ErrMASUnauthorized` wrapped
-- with the text of its cause, which `errors.As` does not look into.
pub data Error : Type 0 where
  message : String → Error
  response : ResponseError → Error
  mas_unauthorized : Error → Error
  wrapped : String → Error → Error

-- `errors.As(err, &respErr)`
unfoldable pub as_response : Error → Option ResponseError
as_response (message text) = none
as_response (response r) = some r
as_response (mas_unauthorized cause) = none
as_response (wrapped text e) = as_response e

-- `errors.Is(err, ErrMASUnauthorized)`
unfoldable pub is_unauthorized : Error → Bool
is_unauthorized (message text) = false
is_unauthorized (response r) = false
is_unauthorized (mas_unauthorized cause) = true
is_unauthorized (wrapped text e) = is_unauthorized e

unfoldable pub is_mas_unauthorized_response : Error → Bool
unfolding as_response
is_mas_unauthorized_response e = elim (as_response e) [
  | none ↦ false
  | some r ↦ nat_beq r.status_code 401
]

abbrev pub wrap_mas_unauthorized : Error → Error
wrap_mas_unauthorized e = mas_unauthorized e

-- `err.Error()`
unfoldable pub error_text : Error → String
error_text (message text) = text
error_text (response r) = "MAS SCIM request failed: " <> (r.status <> (": " <> r.body))
error_text (mas_unauthorized cause) = "mas unauthorized: " <> error_text cause
error_text (wrapped text e) = text <> (": " <> error_text e)

pub data Result {ℓ} (A : Type ℓ) : Type ℓ where
  ok : A → Result A
  err : Error → Result A

-- `if err != nil { return fmt.Errorf("<text>: %w", err) }; return nil`
abbrev pub wrap_error : String → Option Error → Option Error
wrap_error text none = none
wrap_error text (some e) = some (wrapped text e)

abbrev pub wrap_result {ℓ} : {A : Type ℓ} → String → Result A → Result A
wrap_result text (ok a) = ok a
wrap_result text (err e) = err (wrapped text e)

-- A computation over a state that returns a value or an error.
abbrev pub Exec {ℓ} : Type ℓ → Type ℓ → Type ℓ
Exec S A = S → Result A × S

module _ {ℓ} {S A : Type ℓ} where
  abbrev pub pure : A → Exec S A
  pure a s = (ok a, s)

  abbrev pub fail : Error → Exec S A
  fail e s = (err e, s)

  abbrev pub lift : Result A → Exec S A
  lift r s = (r, s)

module _ {ℓ} {S A B : Type ℓ} where
  abbrev pub continue : Result A → (A → Exec S B) → Exec S B
  continue (ok a) f s = f a s
  continue (err e) f s = (err e, s)

  infixl 5 ◌>>=◌ ◌>>◌
  abbrev pub ◌>>=◌ : Exec S A → (A → Exec S B) → Exec S B
  ◌>>=◌ m f s = continue (m s).0 f (m s).1

  abbrev pub ◌>>◌ : Exec S A → Exec S B → Exec S B
  m >> n = m >>= λ _. n

pub Result-cases {ℓ} :
    {A : Type ℓ} (r : Result A) → ((a : A) × (r ≡ ok a)) ⊎ ((e : Error) × (r ≡ err e))
Result-cases (ok a) = inl (a, refl)
Result-cases (err e) = inr (e, refl)

pub ok_inj {ℓ} : {A : Type ℓ} {a b : A} → ok a ≡ ok b → a ≡ b
ok_inj e = cc
