-- ===== src/Installer/Secret.antt =====
-- `MaskSecret` of tools/mas-iam-installer/internal/config/install.go. A Go string is a sequence of
-- bytes, and `len` and slices count them, so a text here is its list of bytes.
pub mod Bounds
use mas_iam_operator.Prelude.{
  ℕ, zero, suc, ◌+◌, ◌-◌, ◌*◌, ◌≤◌, ◌<◌, String, ◌<>◌, ◌≡◌, refl, sym, ap, ◌∙◌, ◌≢◌, ◌↔◌, ◌⊎◌, inl,
  inr, Bool, true, false, not, ◌&&◌, ◌||◌, Option, none, some, List, [], ◌∷◌, ◌++◌, arith, ◌==◌,
  starts_with, eq_iff, eq_refl, ltb, leb, nat_beq, if◌then◌else◌, Bool-cases, Option-cases, is_some,
  is_nil, length, take, drop, keep, All, has, has-append,
}
use mas_iam_operator.Errors.{
  ResponseError, Error, message, response, mas_unauthorized, wrapped, as_response, is_unauthorized,
  Result, ok, err, wrap_error, wrap_result,
}

-- `strings.Repeat`
unfoldable pub repeat : ℕ → ℕ → List ℕ
repeat zero b = []
repeat (suc n) b = b ∷ repeat n b

unfoldable pub mask_secret : List ℕ → List ℕ
unfolding repeat
mask_secret value =
    if is_nil value
    then []
    else if leb (length value) 4
    then repeat 4 b'*'
    else repeat (length value - 4) b'*' ++ drop (length value - 4) value
