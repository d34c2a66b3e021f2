-- ===== src/Installer/Storage.antt =====
-- The ranking of storage classes: `RankStorageClasses` of
-- tools/mas-iam-installer/internal/preflight/preflight.go, with the class of
-- tools/mas-iam-installer/internal/oc/client.go.

pub mod Indexed
pub mod Partition
pub mod Start
pub mod Listed
use mas_iam_operator.Prelude.{
  ℕ, zero, suc, ◌+◌, ◌-◌, ◌*◌, ◌≤◌, ◌<◌, String, ◌<>◌, ◌≡◌, refl, sym, ap, ◌∙◌, ◌≢◌, ◌↔◌, ◌⊎◌, inl,
  inr, Bool, true, false, not, ◌&&◌, ◌||◌, Option, none, some, List, [], ◌∷◌, ◌++◌, arith, ◌==◌,
  starts_with, eq_iff, eq_refl, ltb, leb, nat_beq, if◌then◌else◌, Bool-cases, Option-cases, is_some,
  is_nil, length, take, drop, keep, All, has, has-append,
}
use mas_iam_operator.Errors.{
  ResponseError, Error, message, response, mas_unauthorized, wrapped, as_response, is_unauthorized,
  Result, ok, err, wrap_error, wrap_result,
}
use mas_iam_operator.Prelude.Text.{CaseTable, to_lower, contains, join}
use mas_iam_operator.Prelude.Dict.{Dict}
use mas_iam_operator.Prelude.Sort.{str_le}
use mas_iam_operator.Prelude.Dict

pub record StorageClass : Type 0 where
  pub name : String
  pub is_default : Bool
  pub provisioner : String

unfoldable pub is_static : StorageClass → Bool
is_static c = c.provisioner == "kubernetes.io/no-provisioner"

pub record StorageChoice : Type 0 where
  pub name : String
  pub reason : String
  pub is_default : Bool
  pub recommended : Bool

pub record StorageRanking : Type 0 where
  pub default : String
  pub recommended : String
  pub choices : List StorageChoice
  pub warning : String

unfoldable pub display : StorageChoice → String
display c = join " | " (
    (c.name ∷ [])
    ++ ((if c.recommended then "recommended" ∷ [] else [])
        ++ ((if c.is_default then "default" ∷ [] else [])
            ++ (if not (c.reason == "") then c.reason ∷ [] else []))))

insert_class : StorageClass → List StorageClass → List StorageClass
unfolding str_le
insert_class c [] = c ∷ []
insert_class c (d ∷ ds) =
    let rest = insert_class c ds in if str_le c.name d.name then c ∷ d ∷ ds else d ∷ rest

-- `sort.Slice` by name. A cluster has no two classes of one name.
unfoldable pub sort_classes : List StorageClass → List StorageClass
unfolding insert_class
sort_classes [] = []
sort_classes (c ∷ cs) = insert_class c (sort_classes cs)

-- The loop that fills `remaining` and `ranking.Default`.
unfoldable pub index_classes :
    List StorageClass → Dict StorageClass × String → Dict StorageClass × String
index_classes [] s = s
index_classes (c ∷ cs) (remaining, default) =
    index_classes cs (Dict.insert c.name c remaining, if c.is_default then c.name else default)

-- The loop that takes the static classes out of `remaining`.
unfoldable pub drop_static : List StorageClass → Dict StorageClass → Dict StorageClass
unfolding is_static
drop_static [] remaining = remaining
drop_static (c ∷ cs) remaining =
    drop_static cs (if is_static c then Dict.erase c.name remaining else remaining)

-- The classes in `static`, in order.
unfoldable pub static_classes : List StorageClass → List StorageClass
unfolding is_static
static_classes [] = []
static_classes (c ∷ cs) = let rest = static_classes cs in if is_static c then c ∷ rest else rest

-- The variables that `addChoice` changes.
pub record Progress : Type 0 where
  pub remaining : Dict StorageClass
  pub choices : List StorageChoice

choice_of : StorageClass → String → StorageChoice
choice_of c reason = record {
  name = c.name;
  reason = reason;
  is_default = c.is_default;
  recommended = false;
}

unfoldable pub add_choice : String → String → Progress → Progress
unfolding choice_of
add_choice name reason s = elim (Dict.lookup name s.remaining) [
  | none ↦ s
  | some c ↦ record {
    remaining = Dict.erase name s.remaining;
    choices = s.choices ++ (choice_of c reason ∷ []);
  }
]

-- `for _, class := range sorted { if _, ok := remaining[class.Name]; ok && test { addChoice(…) } }`
unfoldable pub add_matching :
    (StorageClass → Bool) → String → List StorageClass → Progress → Progress
unfolding add_choice
add_matching test reason [] s = s
add_matching test reason (c ∷ cs) s =
    add_matching test reason cs
      (if is_some (Dict.lookup c.name s.remaining) && test c then add_choice c.name reason s else s)

unfoldable pub first_name : List StorageChoice → String
first_name [] = ""
first_name (c ∷ cs) = c.name

-- `Recommended = true` for the choices of that name.
unfoldable pub mark_recommended : String → List StorageChoice → List StorageChoice
mark_recommended name [] = []
mark_recommended name (c ∷ cs) =
    record c { recommended = c.name == name || c.recommended } ∷ mark_recommended name cs

unfoldable pub static_choices : List StorageClass → List StorageChoice
unfolding choice_of
static_choices [] = []
static_choices (c ∷ cs) =
    choice_of c "static provisioner; new volumes will not bind" ∷ static_choices cs

module _ ⦃u : CaseTable⦄ where
  unfoldable pub has_rbd_provisioner : StorageClass → Bool
  has_rbd_provisioner c = contains (to_lower c.provisioner) "rbd.csi.ceph.com"

  unfoldable pub is_named_block : String → Bool
  is_named_block name = contains (to_lower name) "rbd" || contains (to_lower name) "block"

  add_default : String → Progress → Progress
  unfolding add_choice
  add_default default s = if not (default == "") then add_choice default "cluster default" s else s

  -- The loops over the classes, from the block provisioners to those that are left.
  unfoldable pub add_all : List StorageClass → String → Progress → Progress
  unfolding add_matching add_default has_rbd_provisioner is_named_block
  add_all sorted default s =
      add_matching (λ c. true) "available storage class" sorted
        (add_default default (
          add_matching (λ c. is_named_block c.name) "matches block/RBD preference" sorted
            (add_choice "rook-ceph-block" "preferred block/RBD class" (
              add_choice "ocs-external-storagecluster-ceph-rbd" "preferred block/RBD class"
                (add_matching has_rbd_provisioner "Ceph RBD block provisioner" sorted s)))))

  warning_of : String → String → String
  unfolding is_named_block
  warning_of default recommended =
      if not (default == "")
        && (not (recommended == "")
            && (contains (to_lower default) "cephfs"
                && (not (recommended == default) && is_named_block recommended)))
      then "default storage class "
        <> (default
            <> (" looks filesystem-backed; preferring " <> (recommended <> " for PostgreSQL")))
      else ""

  unfoldable pub rank_sorted : List StorageClass → StorageRanking
  unfolding index_classes drop_static static_classes add_all first_name mark_recommended
      static_choices warning_of
  rank_sorted sorted =
      let (remaining, default) = index_classes sorted ([], "") in
      let s =
        add_all sorted default
          (record { remaining = drop_static sorted remaining; choices = [] }) in
      let recommended = first_name s.choices in
      record {
        default = default;
        recommended = recommended;
        choices = mark_recommended recommended s.choices ++ static_choices (static_classes sorted);
        warning = warning_of default recommended;
      }

  unfoldable pub rank_storage_classes : List StorageClass → StorageRanking
  unfolding sort_classes rank_sorted
  rank_storage_classes classes = rank_sorted (sort_classes classes)
