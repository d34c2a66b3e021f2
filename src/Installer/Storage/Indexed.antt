-- ===== src/Installer/Storage/Indexed.antt =====
-- The choices and the map `remaining` of `RankStorageClasses`
-- (tools/mas-iam-installer/internal/preflight/preflight.go).
use mas_iam_operator.Prelude.{
  String, ◌≡◌, refl, ap, true, false, not, ◌&&◌, some, List, [], ◌∷◌, ◌++◌, arith, ◌==◌, eq_iff,
  eq_refl, has, has-append,
}
use mas_iam_operator.Prelude.Dict.{Dict}
use mas_iam_operator.Prelude.Sort.{Distinct}
use mas_iam_operator.Installer.Storage.{StorageClass, StorageChoice}
use mas_iam_operator.Prelude.Dict

unfoldable pub names : List StorageChoice → List String
names [] = []
names (c ∷ cs) = c.name ∷ names cs

pub names-append : (xs ys : List StorageChoice) → names (xs ++ ys) ≡ names xs ++ names ys
unfolding names
names-append [] ys = refl
names-append (x ∷ xs) ys = ap (λ t. x.name ∷ t) (names-append xs ys)

pub append-Distinct :
    (xs ys : List String)
    → Distinct xs
    → Distinct ys
    → ((k : String) → has k xs ≡ true → has k ys ≡ false)
    → Distinct (xs ++ ys)
unfolding has
append-Distinct [] ys p q apart = q
append-Distinct (x ∷ xs) ys (fresh, p) q apart = (
  ground (arith, has-append x xs ys, fresh, apart x, eq_refl x),
  append-Distinct xs ys p q (λ k h. ground (arith, apart k, h)),
)

-- Each entry stands under its own name.
abbrev pub IsIndexed : Dict StorageClass → Type 0
IsIndexed [] = Unit
IsIndexed ((k, c) ∷ m) = (c.name ≡ k) × IsIndexed m

pub insert-IsIndexed :
    (c : StorageClass) (m : Dict StorageClass) → IsIndexed m → IsIndexed (Dict.insert c.name c m)
unfolding Dict.insert
insert-IsIndexed c [] h = (refl, tt)
insert-IsIndexed c ((k, d) ∷ m) (e, h) = ground (arith, insert-IsIndexed c m h)

pub erase-IsIndexed :
    (k : String) (m : Dict StorageClass) → IsIndexed m → IsIndexed (Dict.erase k m)
unfolding Dict.erase
erase-IsIndexed k [] h = h
erase-IsIndexed k ((j, d) ∷ m) (e, h) = ground (arith, erase-IsIndexed k m h)

pub name-lookup :
    (k : String) (m : Dict StorageClass) (c : StorageClass)
    → IsIndexed m
    → Dict.lookup k m ≡ some c
    → c.name ≡ k
unfolding Dict.lookup
name-lookup k [] c h e = cc
name-lookup k ((j, d) ∷ m) c (p, h) e = ground (arith, name-lookup k m c h, eq_iff j k)

pub has-keys-erase :
    {V : Type 0}
    → (j k : String) (m : Dict V)
    → has j (Dict.keys (Dict.erase k m)) ≡ (not (k == j) && has j (Dict.keys m))
has-keys-erase j k m =
    ground (arith, Dict.has-keys j (Dict.erase k m), Dict.has-keys j m, Dict.lookup-erase j k m)

pub erase-NodupKeys :
    {V : Type 0} → (k : String) (m : Dict V) → Dict.NodupKeys m → Dict.NodupKeys (Dict.erase k m)
unfolding Dict.erase Dict.keys has
erase-NodupKeys k [] h = h
erase-NodupKeys k ((j, v) ∷ m) (fresh, h) =
    ground (arith, erase-NodupKeys k m h, has-keys-erase j k m)
