-- ===== src/Installer/Storage/Partition.antt =====
-- The state of the loops of `RankStorageClasses`
-- (tools/mas-iam-installer/internal/preflight/preflight.go): each class of a given set is either
-- listed once or still to come.
use mas_iam_operator.Prelude.{
  String, ◌≡◌, refl, ap, ◌∙◌, inl, inr, Bool, true, false, not, ◌&&◌, ◌||◌, List, [], ◌∷◌, ◌++◌,
  arith, ◌==◌, eq_iff, if◌then◌else◌, Option-cases, is_some, has,
}
use mas_iam_operator.Prelude.Text.{CaseTable}
use mas_iam_operator.Prelude.Dict.{Dict}
use mas_iam_operator.Prelude.Sort.{Distinct}
use mas_iam_operator.Installer.Storage.{
  StorageClass, StorageChoice, Progress, add_choice, add_matching, add_all, add_default, choice_of,
}
use mas_iam_operator.Installer.Storage.Indexed.{
  names, names-append, append-Distinct, IsIndexed, erase-IsIndexed, name-lookup, has-keys-erase,
  erase-NodupKeys,
}
use mas_iam_operator.Prelude.Dict

-- The classes of the set are those listed and those to come, each once.
pub record IsPartition (member : String → Bool) (s : Progress) : Type 0 where
  pub indexed : IsIndexed s.remaining
  pub nodup : Dict.NodupKeys s.remaining
  pub distinct : Distinct (names s.choices)
  pub apart : (k : String) → has k (names s.choices) ≡ true → has k (Dict.keys s.remaining) ≡ false
  pub total : (k : String) → (has k (names s.choices) || has k (Dict.keys s.remaining)) ≡ member k

has-names-listed :
    (k : String) (cs : List StorageChoice) (c : StorageChoice)
    → has k (names (cs ++ (c ∷ []))) ≡ (has k (names cs) || c.name == k)
unfolding names has
has-names-listed k [] c = ground arith
has-names-listed k (d ∷ cs) c = ground (arith, has-names-listed k cs c)

module _ (member : String → Bool) where
  -- A choice for a class to come is a step from one partition to another.
  listed :
      (name : String) (s : Progress) (choice : StorageChoice)
      → IsPartition member s
      → choice.name ≡ name
      → is_some (Dict.lookup name s.remaining) ≡ true
      → IsPartition member
          (record { remaining = Dict.erase name s.remaining; choices = s.choices ++ (choice ∷ []) })
  unfolding names has
  listed name s choice p n e = record {
    indexed = erase-IsIndexed name s.remaining p.indexed;
    nodup = erase-NodupKeys name s.remaining p.nodup;
    distinct = rw (names-append s.choices (choice ∷ [])) (
        append-Distinct (names s.choices) (choice.name ∷ []) p.distinct (refl, tt)
          λ k h. ground (
            arith,
            h,
            n,
            e,
            p.apart k,
            eq_iff choice.name k,
            Dict.has-keys k s.remaining,
            ap (λ t. is_some (Dict.lookup t s.remaining)) n,
            ap (λ t. is_some (Dict.lookup t s.remaining)),
          ));
    apart = λ k h. ground (
      arith,
      h,
      n,
      has-names-listed k s.choices choice,
      has-keys-erase k name s.remaining,
      p.apart k,
    );
    total = λ k. ground (
      arith,
      n,
      e,
      has-names-listed k s.choices choice,
      has-keys-erase k name s.remaining,
      p.total k,
      p.apart k,
      eq_iff name k,
      Dict.has-keys k s.remaining,
    );
  }

  add_choice-IsPartition :
      (name reason : String) (s : Progress)
      → IsPartition member s
      → IsPartition member (add_choice name reason s)
  unfolding add_choice choice_of
  add_choice-IsPartition name reason s p = elim (Option-cases (Dict.lookup name s.remaining)) [
    | inl e ↦ rw (add_choice, e) p
    | inr (c, e) ↦
        rw (add_choice, e)
          (listed name s (choice_of c reason) p (name-lookup name s.remaining c p.indexed e)
            (ap is_some e))
  ]

  add_if :
      (b : Bool) (name reason : String) (s : Progress)
      → IsPartition member s
      → IsPartition member (if b then add_choice name reason s else s)
  add_if true name reason s p = add_choice-IsPartition name reason s p
  add_if false name reason s p = p

  add_matching-IsPartition :
      (test : StorageClass → Bool) (reason : String) (cs : List StorageClass) (s : Progress)
      → IsPartition member s
      → IsPartition member (add_matching test reason cs s)
  unfolding add_matching
  add_matching-IsPartition test reason [] s p = p
  add_matching-IsPartition test reason (c ∷ cs) s p =
      add_matching-IsPartition test reason cs _ (add_if _ c.name reason s p)

  pub add_all-IsPartition :
      ⦃u : CaseTable⦄
      → (sorted : List StorageClass) (default : String) (s : Progress) → IsPartition member s
      → IsPartition member (add_all sorted default s)
  unfolding add_all add_default
  add_all-IsPartition sorted default s p = add_matching-IsPartition _ _ sorted _ (
      add_if _ default "cluster default" _ (
        add_matching-IsPartition _ _ sorted _ (
          add_choice-IsPartition _ _ _
            (add_choice-IsPartition _ _ _ (add_matching-IsPartition _ _ sorted s p)))))

-- The names of the classes.
unfoldable pub class_names : List StorageClass → List String
class_names [] = []
class_names (c ∷ cs) = c.name ∷ class_names cs

has-keys-add_choice :
    (k name reason : String) (s : Progress)
    → has k (Dict.keys (add_choice name reason s).remaining)
      ≡ (not (name == k) && has k (Dict.keys s.remaining))
unfolding add_choice
has-keys-add_choice k name reason s =
    ground (arith, Dict.has-keys k s.remaining, has-keys-erase k name s.remaining, eq_iff name k)

has-keys-add_if :
    (k name reason : String) (s : Progress)
    → has k (
        Dict.keys
          (if is_some (Dict.lookup name s.remaining) && true
            then add_choice name reason s
            else s).remaining)
      ≡ (not (name == k) && has k (Dict.keys s.remaining))
has-keys-add_if k name reason s = ground (
  arith,
  has-keys-add_choice k name reason s,
  Dict.has-keys k s.remaining,
  eq_iff name k,
  ap (λ t. is_some (Dict.lookup t s.remaining)),
)

-- The last loop leaves none of its classes.
has-keys-add_matching :
    (k reason : String) (cs : List StorageClass) (s : Progress)
    → has k (Dict.keys (add_matching (λ c. true) reason cs s).remaining)
      ≡ (not (has k (class_names cs)) && has k (Dict.keys s.remaining))
unfolding add_matching class_names has
has-keys-add_matching k reason [] s = refl
has-keys-add_matching k reason (c ∷ cs) s =
    has-keys-add_matching k reason cs (if taken then add_choice c.name reason s else s)
    ∙ ap (λ t. not (has k (class_names cs)) && t) (has-keys-add_if k c.name reason s)
    ∙ ground arith
  where
    taken : Bool
    taken = is_some (Dict.lookup c.name s.remaining) && true

pub has-keys-add_all :
    ⦃u : CaseTable⦄
    → (k : String) (sorted : List StorageClass) (default : String) (s : Progress)
    → has k (class_names sorted) ≡ true
    → has k (Dict.keys (add_all sorted default s).remaining) ≡ false
unfolding add_all
has-keys-add_all k sorted default s h =
    has-keys-add_matching k "available storage class" sorted _ ∙ rw h refl
