-- ===== src/Prelude/Sort.antt =====
-- `sort.Strings`: texts in byte order, which is the order of their code points.
use Prim.Native.Nat.{Ordering}
use Prim.Native.String.{String, compare}
use mathlib.Core.Path.{◌≡◌, refl}
use mathlib.Core.Bool.{Bool, true, false, ◌||◌}
use mathlib.Core.List.{List, [], ◌∷◌}
use native.Mathlib.Omega.{arith}
use text.Mathlib.Text.{◌==◌}
use mas_iam_operator.Prelude.Tests.{if◌then◌else◌}
use mas_iam_operator.Prelude.Lists.{has}
use mas_iam_operator.Prelude.{eq_iff, ◌∙◌}

unfoldable pub str_le : String → String → Bool
str_le s t = elim (compare s t) [ Ordering.gt ↦ false | _ ↦ true ]

unfoldable pub insert_sorted : String → List String → List String
insert_sorted k [] = k ∷ []
insert_sorted k (x ∷ xs) = if str_le k x then k ∷ x ∷ xs else x ∷ insert_sorted k xs

unfoldable pub sort_strings : List String → List String
unfolding str_le insert_sorted
sort_strings [] = []
sort_strings (x ∷ xs) = insert_sorted x (sort_strings xs)

has-insert_sorted :
    (j k : String) (xs : List String) → has j (insert_sorted k xs) ≡ (k == j || has j xs)
unfolding has insert_sorted
has-insert_sorted j k [] = refl
has-insert_sorted j k (x ∷ xs) = ground (arith, has-insert_sorted j k xs)

pub has-sort_strings : (j : String) (xs : List String) → has j (sort_strings xs) ≡ has j xs
unfolding has sort_strings
has-sort_strings j [] = refl
has-sort_strings j (x ∷ xs) =
    ground (arith, has-sort_strings j xs, has-insert_sorted j x (sort_strings xs))

-- No text occurs twice.
abbrev pub Distinct : List String → Type 0
Distinct [] = Unit
Distinct (x ∷ xs) = (has x xs ≡ false) × Distinct xs

insert_sorted-Distinct :
    (k : String) (xs : List String) → has k xs ≡ false → Distinct xs → Distinct (insert_sorted k xs)
unfolding insert_sorted has
insert_sorted-Distinct k [] h u = (refl, tt)
insert_sorted-Distinct k (x ∷ xs) h (fresh, u) =
    ground (arith, insert_sorted-Distinct k xs, has-insert_sorted x k xs, eq_iff x k, eq_iff k x)

pub sort_strings-Distinct : (xs : List String) → Distinct xs → Distinct (sort_strings xs)
unfolding sort_strings
sort_strings-Distinct [] u = tt
sort_strings-Distinct (x ∷ xs) (fresh, u) =
    insert_sorted-Distinct x (sort_strings xs) (has-sort_strings x xs ∙ fresh)
      (sort_strings-Distinct xs u)

-- Each text is at most the next one.
abbrev pub IsSorted : List String → Type 0
IsSorted [] = Unit
IsSorted (x ∷ []) = Unit
IsSorted (x ∷ y ∷ xs) = (str_le x y ≡ true) × IsSorted (y ∷ xs)
