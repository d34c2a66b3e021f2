-- ===== src/Prelude/Text.antt =====
-- The operations of Go's package `strings` that the program uses. A text is a list of code points.
use Prim.Native.Char.{Char, code}
use Prim.Native.String.{String, [], ◌∷◌, ◌++◌}
use mathlib.Core.Path.{◌≡◌, refl, ap, ◌∙◌}
use mathlib.Core.Bool.{Bool, true, false, not, ◌&&◌, ◌||◌}
use mathlib.Core.Option.{Option, none, some}
use mathlib.Core.List.{List}
use mathlib.Core.Logic.{inl, inr}
use native.Mathlib.Omega.{arith}
use text.Mathlib.Text.{◌==◌, starts_with}
use mas_iam_operator.Prelude.Tests.{ltb, leb, nat_beq, if◌then◌else◌, Bool-cases}
use mathlib.Core.List as L

-- `unicode.IsSpace`
unfoldable pub is_space : Char → Bool
is_space c =
    (leb 9 (code c) && leb (code c) 13)
    || nat_beq (code c) 32
    || nat_beq (code c) 0x85
    || nat_beq (code c) 0xA0
    || nat_beq (code c) 0x1680
    || (leb 0x2000 (code c) && leb (code c) 0x200a)
    || nat_beq (code c) 0x2028
    || nat_beq (code c) 0x2029
    || nat_beq (code c) 0x202f
    || nat_beq (code c) 0x205f
    || nat_beq (code c) 0x3000

unfoldable pub is_slash : Char → Bool
is_slash c = nat_beq (code c) b'/'

unfoldable pub is_comma : Char → Bool
is_comma c = nat_beq (code c) b','

unfoldable pub is_equals : Char → Bool
is_equals c = nat_beq (code c) b'='

unfoldable pub is_underscore : Char → Bool
is_underscore c = nat_beq (code c) b'_'

-- `strings.TrimLeftFunc`
unfoldable pub trim_left : (Char → Bool) → String → String
trim_left p [] = []
trim_left p (c ∷ s) = let rest = trim_left p s in if p c then rest else c ∷ s

unfoldable pub is_empty : String → Bool
is_empty [] = true
is_empty (c ∷ s) = false

-- `strings.TrimRightFunc`
unfoldable pub trim_right : (Char → Bool) → String → String
unfolding is_empty
trim_right p [] = []
trim_right p (c ∷ s) = let rest = trim_right p s in if p c && is_empty rest then [] else c ∷ rest

-- `strings.TrimSpace`
unfoldable pub trim_space : String → String
unfolding is_space trim_left trim_right
trim_space s = trim_right is_space (trim_left is_space s)

-- The letter at the place in the second text where the first one has the character.
unfoldable pub translate : String → String → Char → Char
translate (u ∷ us) (l ∷ ls) c = if nat_beq (code c) (code u) then l else translate us ls c
translate _ _ c = c

unfoldable pub lower_ascii : Char → Char
unfolding translate
lower_ascii = translate "ABCDEFGHIJKLMNOPQRSTUVWXYZ" "abcdefghijklmnopqrstuvwxyz"

-- The case tables of Go's package `unicode` for characters beyond ASCII. They are data that is
-- no part of the repository.
pub record CaseTable : Type 0 where
  pub lower : Char → Char

module _ ⦃u : CaseTable⦄ where
  unfoldable pub to_lower_rune : Char → Char
  unfolding lower_ascii
  to_lower_rune c = if ltb (code c) 128 then lower_ascii c else u.lower c

  -- `strings.ToLower`
  unfoldable pub to_lower : String → String
  unfolding to_lower_rune
  to_lower [] = []
  to_lower (c ∷ s) = to_lower_rune c ∷ to_lower s

-- The two characters beyond ASCII that fold to an ASCII letter are U+017F and U+212A.
unfoldable pub fold_rune : Char → Char
unfolding lower_ascii
fold_rune c =
    if nat_beq (code c) 0x17f then "s" else if nat_beq (code c) 0x212a then "k" else lower_ascii c

unfoldable pub fold : String → String
unfolding fold_rune
fold [] = []
fold (c ∷ s) = fold_rune c ∷ fold s

-- `strings.EqualFold(s, t)` at a text `t` of ASCII characters.
unfoldable pub equal_fold : String → String → Bool
unfolding fold
equal_fold s t = fold s == fold t

push_char : Char → List String → List String
push_char c L.[] = L.◌∷◌ (c ∷ []) L.[]
push_char c (L.◌∷◌ w ws) = L.◌∷◌ (c ∷ w) ws

-- `strings.Split` at a separator of one character.
unfoldable pub split : (Char → Bool) → String → List String
unfolding push_char
split p [] = L.◌∷◌ [] L.[]
split p (c ∷ s) = let rest = split p s in if p c then L.◌∷◌ [] rest else push_char c rest

-- `strings.SplitN(s, sep, 2)`: the parts before and after the first separator, if there is one.
unfoldable pub split_2 : (Char → Bool) → String → Option (String × String)
split_2 p [] = none
split_2 p (c ∷ s) =
    let rest = split_2 p s in
    if p c then some ([], s) else elim rest [ none ↦ none | some (a, b) ↦ some ((c ∷ a, b)) ]

-- `s[idx+1:]` for `idx := strings.LastIndex(s, sep)`, if there is a separator.
unfoldable pub after_last : (Char → Bool) → String → Option String
after_last p [] = none
after_last p (c ∷ s) = elim (after_last p s) [
  | some r ↦ some r
  | none ↦ (if p c then some s else none)
]

-- `strings.Join`
unfoldable pub join : String → List String → String
join sep L.[] = []
join sep (L.◌∷◌ w L.[]) = w
join sep (L.◌∷◌ w ws) = w ++ (sep ++ join sep ws)

-- `strings.Contains`
unfoldable pub contains : String → String → Bool
contains [] t = starts_with [] t
contains (c ∷ s) t = starts_with (c ∷ s) t || contains s t

-- `strings.ReplaceAll(s, sep, "")` for a text of one character
unfoldable pub remove_all : (Char → Bool) → String → String
remove_all p [] = []
remove_all p (c ∷ s) = let rest = remove_all p s in if p c then rest else c ∷ rest

-- `strings.TrimSuffix` and the test `strings.HasSuffix`, which is that the suffix was there.
unfoldable pub strip_suffix : String → String → Option String
strip_suffix t [] = if t == [] then some [] else none
strip_suffix t (c ∷ s) =
    let rest = strip_suffix t s in
    if t == (c ∷ s) then some [] else elim rest [ none ↦ none | some r ↦ some (c ∷ r) ]

-- The text is empty, or begins with a character that the test refuses.
starts_clean : (Char → Bool) → String → Bool
starts_clean p [] = true
starts_clean p (c ∷ s) = not (p c)

trim_left-starts_clean : (p : Char → Bool) (s : String) → starts_clean p (trim_left p s) ≡ true
unfolding trim_left starts_clean
trim_left-starts_clean p [] = refl
trim_left-starts_clean p (c ∷ s) = ground (arith, trim_left-starts_clean p s)

trim_right-starts_clean :
    (p : Char → Bool) (s : String)
    → starts_clean p s ≡ true
    → starts_clean p (trim_right p s) ≡ true
unfolding trim_right starts_clean
trim_right-starts_clean p [] h = refl
trim_right-starts_clean p (c ∷ s) h = ground arith

trim_left_of_clean : (p : Char → Bool) (s : String) → starts_clean p s ≡ true → trim_left p s ≡ s
unfolding trim_left starts_clean
trim_left_of_clean p [] h = refl
trim_left_of_clean p (c ∷ s) h = ground arith

trim_right_idem : (p : Char → Bool) (s : String) → trim_right p (trim_right p s) ≡ trim_right p s
unfolding trim_right
trim_right_idem p [] = refl
trim_right_idem p (c ∷ s) = elim (Bool-cases (p c && is_empty (trim_right p s))) [
  | inl e ↦ rw e refl
  | inr e ↦ rw e (rw (trim_right_idem p s, e))
]

pub trim_space_idem : (s : String) → trim_space (trim_space s) ≡ trim_space s
unfolding trim_space
trim_space_idem s =
    ap (trim_right is_space) (
      trim_left_of_clean is_space _ (
        trim_right-starts_clean is_space (trim_left is_space s)
          (trim_left-starts_clean is_space s)))
    ∙ trim_right_idem is_space (trim_left is_space s)
