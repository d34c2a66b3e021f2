-- ===== src/Prelude/Affix.antt =====
-- Prefixes and suffixes of a text: `strings.HasSuffix`, `strings.TrimPrefix`,
-- `strings.TrimSuffix`, and the tail of a text.
use Prim.Native.Char.{Char}
use Prim.Native.Nat.{ℕ, zero, suc, ◌<◌}
use Prim.Native.String.{String, [], ◌∷◌, ◌++◌, count}
use mathlib.Core.Path.{◌≡◌, refl, ap, ◌∙◌}
use mathlib.Core.Bool.{or-true, Bool, true, false, ◌||◌}
use native.Mathlib.Omega.{arith}
use text.Mathlib.Text.{◌==◌, starts_with}
use text.Mathlib.TextEquality.{eq_iff}
use text.Mathlib.TextPositions.{eq_refl, starts_with-append}
use text.Mathlib.TextLemmas.{length-append, length-cons, nil-append, cons-append}
use mathlib.Core.Logic.{inl, inr}
use mas_iam_operator.Prelude.Tests.{Bool-cases, if◌then◌else◌}

-- The text without its first characters.
unfoldable pub skip : ℕ → String → String
skip zero s = s
skip (suc n) [] = []
skip (suc n) (c ∷ s) = skip n s

-- The number of characters.
unfoldable pub rune_count : String → ℕ
rune_count [] = 0
rune_count (c ∷ s) = suc (rune_count s)

unfoldable pub trim_prefix : String → String → String
unfolding skip rune_count
trim_prefix p s = if starts_with s p then skip (rune_count p) s else s

unfoldable pub has_suffix : String → String → Bool
has_suffix t [] = t == []
has_suffix t (c ∷ s) = let rest = has_suffix t s in t == (c ∷ s) || rest

unfoldable pub trim_suffix : String → String → String
trim_suffix t [] = []
trim_suffix t (c ∷ s) = let rest = trim_suffix t s in if t == (c ∷ s) then [] else c ∷ rest

has_suffix_refl : (t : String) → has_suffix t t ≡ true
unfolding has_suffix
has_suffix_refl [] = refl
has_suffix_refl (d ∷ t) = rw (eq_refl (d ∷ t)) refl

pub has_suffix_of_append : (t s : String) → has_suffix t (s ++ t) ≡ true
unfolding has_suffix
has_suffix_of_append t [] = ap (has_suffix t) (nil-append t) ∙ has_suffix_refl t
has_suffix_of_append t (c ∷ s) =
    ap (has_suffix t) (cons-append c s t) ∙ rw (has_suffix_of_append t s) (or-true _)

no_longer : (c : Char) (s t : String) → t ≡ (c ∷ (s ++ t)) → zero < zero
no_longer c s t e = omega (arith, ap count e ∙ length-cons c (s ++ t), length-append s t)

longer_differs : (c : Char) (s t : String) → (t == (c ∷ (s ++ t))) ≡ false
longer_differs c s t = elim (Bool-cases (t == (c ∷ (s ++ t)))) [
  | inr e ↦ e
  | inl e ↦ elim (no_longer c s t ((eq_iff t (c ∷ (s ++ t))).0 e)) [ ]
]

trim_suffix_refl : (t : String) → trim_suffix t t ≡ []
unfolding trim_suffix
trim_suffix_refl [] = refl
trim_suffix_refl (d ∷ t) = rw (eq_refl (d ∷ t)) refl

pub trim_suffix_of_append : (t s : String) → trim_suffix t (s ++ t) ≡ s
unfolding trim_suffix
trim_suffix_of_append t [] = ap (trim_suffix t) (nil-append t) ∙ trim_suffix_refl t
trim_suffix_of_append t (c ∷ s) =
    ap (trim_suffix t) (cons-append c s t)
    ∙ rw (longer_differs c s t, trim_suffix_of_append t s) refl

skip_of_append : (p s : String) → skip (rune_count p) (p ++ s) ≡ s
unfolding skip rune_count
skip_of_append [] s = nil-append s
skip_of_append (c ∷ p) s = ap (skip (suc (rune_count p))) (cons-append c p s) ∙ skip_of_append p s

pub trim_prefix_of_append : (p s : String) → trim_prefix p (p ++ s) ≡ s
unfolding trim_prefix
trim_prefix_of_append p s = rw (starts_with-append p s) (skip_of_append p s)
