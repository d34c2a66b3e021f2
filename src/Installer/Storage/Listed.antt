-- ===== src/Installer/Storage/Listed.antt =====
-- Which classes `RankStorageClasses` of tools/mas-iam-installer/internal/preflight/preflight.go
-- lists, and which one it recommends.
use mas_iam_operator.Prelude.{
  String, ◌≡◌, refl, sym, ap, ◌∙◌, true, false, List, [], ◌∷◌, ◌++◌, arith, eq_refl, has,
  has-append,
}
use mas_iam_operator.Prelude.Text.{CaseTable}
use mas_iam_operator.Prelude.Sort.{Distinct, has-sort_strings, sort_strings-Distinct}
use mas_iam_operator.Installer.Storage.Partition.{
  IsPartition, add_all-IsPartition, class_names, has-keys-add_all,
}
use mas_iam_operator.Installer.Storage.Indexed.{names, names-append, append-Distinct}
use mas_iam_operator.Installer.Storage.Start.{
  class_names-sort_classes, names-mark_recommended, names-static_choices, static_class,
  static_classes-Distinct, static-sort_classes, is_dynamic_name, indexed_all, start,
  start-IsPartition,
}
use mas_iam_operator.Installer.Storage.{
  StorageClass, StorageChoice, Progress, sort_classes, static_classes, add_all, first_name,
  static_choices, rank_sorted, rank_storage_classes,
}

has-first_name_of :
    (k : String) (cs : List StorageChoice)
    → has k (names cs) ≡ true
    → has (first_name cs) (names cs) ≡ true
unfolding first_name names has
has-first_name_of k [] h = h
has-first_name_of k (c ∷ cs) h = rw (eq_refl c.name) refl

first_name-nil :
    (cs : List StorageChoice) → ((k : String) → has k (names cs) ≡ false) → first_name cs ≡ ""
unfolding first_name names has
first_name-nil [] h = refl
first_name-nil (c ∷ cs) h = ground (arith, h c.name, eq_refl c.name)

module _ ⦃u : CaseTable⦄ (sorted : List StorageClass)
    (distinct : Distinct (class_names sorted)) where
  end : Progress
  end = add_all sorted (indexed_all sorted distinct).1 (start sorted distinct)

  end-IsPartition : IsPartition (is_dynamic_name sorted) end
  unfolding end
  end-IsPartition =
      add_all-IsPartition (is_dynamic_name sorted) sorted _ _ (start-IsPartition sorted distinct)

  has-listed : (k : String) → has k (names end.choices) ≡ is_dynamic_name sorted k
  unfolding end is_dynamic_name
  has-listed k = ground (
    arith,
    end-IsPartition.total k,
    has-keys-add_all k sorted (indexed_all sorted distinct).1 (start sorted distinct),
  )

  names-rank_sorted :
      names (rank_sorted sorted).choices ≡ names end.choices ++ class_names (static_classes sorted)
  unfolding rank_sorted end start indexed_all
  names-rank_sorted =
      names-append _ (static_choices (static_classes sorted))
      ∙ rw (names-mark_recommended, names-static_choices) refl

  recommended-rank_sorted : (rank_sorted sorted).recommended ≡ first_name end.choices
  unfolding rank_sorted end start indexed_all
  recommended-rank_sorted = refl

  rank_sorted-Distinct : Distinct (names (rank_sorted sorted).choices)
  unfolding is_dynamic_name
  rank_sorted-Distinct = rw names-rank_sorted (
      append-Distinct _ _ end-IsPartition.distinct (static_classes-Distinct sorted distinct)
        λ k h. ground (arith, h, has-listed k))

  has-rank_sorted :
      (k : String) → has k (names (rank_sorted sorted).choices) ≡ has k (class_names sorted)
  unfolding is_dynamic_name
  has-rank_sorted k = rw names-rank_sorted (
      has-append k (names end.choices) (class_names (static_classes sorted))
      ∙ ground (arith, has-listed k, static_class k sorted))

  recommended_dynamic :
      (k : String)
      → is_dynamic_name sorted k ≡ true
      → is_dynamic_name sorted (rank_sorted sorted).recommended ≡ true
  recommended_dynamic k h =
      ap (is_dynamic_name sorted) recommended-rank_sorted
      ∙ sym (has-listed (first_name end.choices))
      ∙ has-first_name_of k end.choices (has-listed k ∙ h)

  recommended_none :
      ((k : String) → is_dynamic_name sorted k ≡ false) → (rank_sorted sorted).recommended ≡ ""
  recommended_none h =
      recommended-rank_sorted ∙ first_name-nil end.choices (λ k. has-listed k ∙ h k)

is_dynamic_name-sort_classes :
    (classes : List StorageClass) (k : String)
    → is_dynamic_name (sort_classes classes) k ≡ is_dynamic_name classes k
unfolding is_dynamic_name
is_dynamic_name-sort_classes classes k =
    rw
      (
        static-sort_classes k classes,
        class_names-sort_classes classes,
        has-sort_strings k (class_names classes),
      )
      refl

module _ ⦃u : CaseTable⦄ (classes : List StorageClass)
    (distinct : Distinct (class_names classes)) where
  sorted-Distinct : Distinct (class_names (sort_classes classes))
  sorted-Distinct =
      rw (class_names-sort_classes classes) (sort_strings-Distinct (class_names classes) distinct)

  -- Of classes with different names each is among the choices, exactly once, and nothing else is.
  pub rank_storage_classes_complete :
      Distinct (names (rank_storage_classes classes).choices)
      × ((k : String)
          → has k (names (rank_storage_classes classes).choices) ≡ has k (class_names classes))
  unfolding rank_storage_classes
  rank_storage_classes_complete = (
    rank_sorted-Distinct (sort_classes classes) sorted-Distinct,
    λ k.
        has-rank_sorted (sort_classes classes) sorted-Distinct k
        ∙ rw (class_names-sort_classes classes) (has-sort_strings k (class_names classes)),
  )

  -- If a class with a provisioner is there, then the recommended one is such a class, and if all
  -- classes are static, then none is recommended.
  pub rank_storage_classes_recommended :
      ((k : String)
        → is_dynamic_name classes k ≡ true
        → is_dynamic_name classes (rank_storage_classes classes).recommended ≡ true)
      × (((k : String) → is_dynamic_name classes k ≡ false)
          → (rank_storage_classes classes).recommended ≡ "")
  unfolding rank_storage_classes
  rank_storage_classes_recommended = (
    λ k h.
        sym (is_dynamic_name-sort_classes classes _)
        ∙ recommended_dynamic (sort_classes classes) sorted-Distinct k
            (is_dynamic_name-sort_classes classes k ∙ h),
    λ h.
        recommended_none (sort_classes classes) sorted-Distinct
          (λ k. is_dynamic_name-sort_classes classes k ∙ h k),
  )
