-- ===== src/Installer/Storage/Start.antt =====
-- Where the loops of `RankStorageClasses` of
-- tools/mas-iam-installer/internal/preflight/preflight.go start.
use mas_iam_operator.Prelude.{
  String, ◌≡◌, refl, sym, ap, ◌∙◌, Bool, true, false, not, ◌&&◌, ◌||◌, List, [], ◌∷◌, arith, ◌==◌,
  if◌then◌else◌, has,
}
use mas_iam_operator.Prelude.Text.{CaseTable}
use mas_iam_operator.Prelude.Dict.{Dict}
use mas_iam_operator.Prelude.Sort.{Distinct, sort_strings, insert_sorted}
use mathlib.Core.Bool.{true≢false}
use mas_iam_operator.Installer.Storage.Partition.{IsPartition, class_names}
use mas_iam_operator.Installer.Storage.Indexed.{
  names, IsIndexed, insert-IsIndexed, erase-IsIndexed, has-keys-erase, erase-NodupKeys,
}
use mas_iam_operator.Installer.Storage.{
  StorageClass, StorageChoice, Progress, is_static, insert_class, sort_classes, index_classes,
  drop_static, static_classes, mark_recommended, static_choices,
}
use mas_iam_operator.Prelude.Dict

class_names-insert_class :
    (c : StorageClass) (cs : List StorageClass)
    → class_names (insert_class c cs) ≡ insert_sorted c.name (class_names cs)
unfolding class_names insert_class insert_sorted
class_names-insert_class c [] = refl
class_names-insert_class c (d ∷ ds) = ground (arith, class_names-insert_class c ds)

pub class_names-sort_classes :
    (cs : List StorageClass) → class_names (sort_classes cs) ≡ sort_strings (class_names cs)
unfolding class_names sort_classes sort_strings
class_names-sort_classes [] = refl
class_names-sort_classes (c ∷ cs) =
    class_names-insert_class c (sort_classes cs)
    ∙ ap (insert_sorted c.name) (class_names-sort_classes cs)

pub names-mark_recommended :
    (name : String) (cs : List StorageChoice) → names (mark_recommended name cs) ≡ names cs
unfolding names mark_recommended
names-mark_recommended name [] = refl
names-mark_recommended name (c ∷ cs) = ap (λ t. c.name ∷ t) (names-mark_recommended name cs)

pub names-static_choices : (cs : List StorageClass) → names (static_choices cs) ≡ class_names cs
unfolding names static_choices class_names
names-static_choices [] = refl
names-static_choices (c ∷ cs) = ap (λ t. c.name ∷ t) (names-static_choices cs)

-- A static class is one of the classes.
pub static_class :
    (k : String) (cs : List StorageClass)
    → has k (class_names (static_classes cs)) ≡ true
    → has k (class_names cs) ≡ true
unfolding class_names static_classes has
static_class k [] h = h
static_class k (c ∷ cs) h = ground (arith, h, static_class k cs)

pub static_classes-Distinct :
    (cs : List StorageClass)
    → Distinct (class_names cs)
    → Distinct (class_names (static_classes cs))
unfolding class_names static_classes has
static_classes-Distinct [] u = tt
static_classes-Distinct (c ∷ cs) (fresh, u) =
    ground (arith, fresh, static_classes-Distinct cs u, static_class c.name cs)

IsReady : Dict StorageClass → (String → Bool) → Type 0
IsReady m member =
    IsIndexed m × (Dict.NodupKeys m × ((k : String) → has k (Dict.keys m) ≡ member k))

index_classes-IsReady :
    (cs : List StorageClass) (m : Dict StorageClass) (d : String) (member : String → Bool)
    → IsReady m member
    → IsReady (index_classes cs (m, d)).0 (λ k. has k (class_names cs) || member k)
unfolding IsReady index_classes class_names has
index_classes-IsReady [] m d member r = r
index_classes-IsReady (c ∷ cs) m d member (i, (n, h)) =
    let (i', nh) =
      index_classes-IsReady cs (Dict.insert c.name c m) (if c.is_default then c.name else d)
        (λ k. c.name == k || member k)
        (
          insert-IsIndexed c m i,
          (
            Dict.insert-NodupKeys c.name c m n,
            λ k. ground (arith, Dict.has-keys-insert k c.name c m, h k),
          ),
        ) in
    let (n', h') = nh in (i', (n', λ k. ground (arith, h' k)))

erase_if-IsReady :
    (b : Bool) (name : String) (m : Dict StorageClass) (member : String → Bool)
    → IsReady m member
    → IsReady (if b then Dict.erase name m else m) (λ k. not (b && name == k) && member k)
unfolding IsReady
erase_if-IsReady true name m member (i, (n, h)) = (
  erase-IsIndexed name m i,
  (erase-NodupKeys name m n, λ k. ground (arith, has-keys-erase k name m, h k)),
)
erase_if-IsReady false name m member r = r

drop_static-IsReady :
    (cs : List StorageClass) (m : Dict StorageClass) (member : String → Bool)
    → IsReady m member
    → IsReady (drop_static cs m) (λ k. not (has k (class_names (static_classes cs))) && member k)
unfolding IsReady drop_static class_names static_classes has
drop_static-IsReady [] m member r = r
drop_static-IsReady (c ∷ cs) m member (i, (n, h)) =
    let (i', nh) =
      drop_static-IsReady cs (if is_static c then Dict.erase c.name m else m)
        (λ k. not (is_static c && c.name == k) && member k)
        (erase_if-IsReady (is_static c) c.name m member (i, (n, h))) in
    let (n', h') = nh in (i', (n', λ k. ground (arith, h' k)))

static-insert_class :
    (k : String) (c : StorageClass) (cs : List StorageClass)
    → has k (class_names (static_classes (insert_class c cs)))
      ≡ ((is_static c && c.name == k) || has k (class_names (static_classes cs)))
unfolding class_names static_classes insert_class has
static-insert_class k c [] = ground arith
static-insert_class k c (d ∷ ds) = ground (arith, static-insert_class k c ds)

pub static-sort_classes :
    (k : String) (cs : List StorageClass)
    → has k (class_names (static_classes (sort_classes cs)))
      ≡ has k (class_names (static_classes cs))
unfolding class_names static_classes sort_classes has
static-sort_classes k [] = refl
static-sort_classes k (c ∷ cs) =
    ground (arith, static-insert_class k c (sort_classes cs), static-sort_classes k cs)

-- A class from which a new volume can be had.
unfoldable pub is_dynamic_name : List StorageClass → String → Bool
is_dynamic_name cs k = not (has k (class_names (static_classes cs))) && has k (class_names cs)

module _ ⦃u : CaseTable⦄ (sorted : List StorageClass)
    (distinct : Distinct (class_names sorted)) where
  unfoldable pub indexed_all : Dict StorageClass × String
  indexed_all = index_classes sorted ([], "")

  unfoldable pub start : Progress
  unfolding indexed_all
  start = record { remaining = drop_static sorted indexed_all.0; choices = [] }

  pub start-IsPartition : IsPartition (is_dynamic_name sorted) start
  unfolding start indexed_all IsReady is_dynamic_name names has Dict.keys
  start-IsPartition =
      let (i, nh) =
        drop_static-IsReady sorted indexed_all.0 (λ k. has k (class_names sorted) || false)
          (index_classes-IsReady sorted [] "" (λ k. false) (tt, (tt, λ k. refl))) in
      let (n, h) = nh in
      record {
        indexed = i;
        nodup = n;
        distinct = tt;
        apart = λ k e. absurd (true≢false (sym e));
        total = λ k. ground (arith, h k);
      }
