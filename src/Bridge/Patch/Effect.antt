-- ===== src/Bridge/Patch/Effect.antt =====
-- What the operations of `diffToPatch` do to a SCIM user: a reading of patch operations that is
-- independent of the code in services/scim-bridge/internal/bridge/patch.go.
use mas_iam_operator.Prelude.{
  String, ◌≡◌, refl, ◌∙◌, Bool, true, Option, none, some, List, [], ◌∷◌, ◌++◌, arith, ◌==◌, eq_iff,
  if◌then◌else◌, ◌↔◌,
}
use mas_iam_operator.State.Entry.{Snapshot}
use mas_iam_operator.Mas.Payload.{
  EmailResource, PatchOperation, PatchValue, no_value, text, flag, emails,
}
use mas_iam_operator.Bridge.Patch.{
  differ, user_name_ops, name_ops, email_ops, active_ops, diff_to_patch, UserResource,
  snapshot_from_payload, diff_ops,
}

-- The attributes of a SCIM user that the bridge keeps in step. A text that is not set is "".
pub record Document : Type 0 where
  pub user_name : String
  pub given_name : String
  pub family_name : String
  pub addresses : List EmailResource
  pub active : Option Bool

-- The attributes that a snapshot stands for.
abbrev pub view : Snapshot → Document
view s = record {
  user_name = s.user_name;
  given_name = s.given_name;
  family_name = s.family_name;
  addresses = if s.has_email then record { value = s.email; primary = true } ∷ [] else [];
  active = if s.has_active then some s.active else none;
}

text_of : PatchValue → Option String
text_of (text s) = some s
text_of no_value = none
text_of (flag b) = none
text_of (emails es) = none

addresses_of : PatchValue → Option (List EmailResource)
addresses_of (emails es) = some es
addresses_of no_value = none
addresses_of (text s) = none
addresses_of (flag b) = none

flag_of : PatchValue → Option Bool
flag_of (flag b) = some b
flag_of no_value = none
flag_of (text s) = none
flag_of (emails es) = none

-- RFC 7644, section 3.5.2, at an attribute, as the strictest server reads it; none is a refusal.
-- `add` sets an attribute that is not set, `replace` sets it whether it is set or not, and both
-- need a value of the attribute's type. `remove` unsets an attribute that is set.
module _ {ℓ} {A : Type ℓ} where
  given_value : Option A → Option (Option A)
  given_value none = none
  given_value (some a) = some (some a)

  if_unset : Option A → Option (Option A) → Option (Option A)
  if_unset none r = r
  if_unset (some a) r = none

  if_set : Option A → Option (Option A) → Option (Option A)
  if_set none r = none
  if_set (some a) r = r

  change : String → Option A → Option A → Option (Option A)
  unfolding given_value if_unset if_set
  change op value current =
      if op == "add"
      then if_unset current (given_value value)
      else if op == "replace"
      then given_value value
      else if op == "remove"
      then if_set current (some none)
      else none

  -- The same for an attribute with a value that stands for an unset one, which `read` finds.
  change_at : {D : Type 0} → A → (A → D) → String → Option A → Option A → Option D
  unfolding change
  change_at unset write op value current = elim (change op value current) [
    | none ↦ none
    | some none ↦ some (write unset)
    | some (some a) ↦ some (write a)
  ]

set_text : String → Option String
set_text s = if s == "" then none else some s

set_addresses : List EmailResource → Option (List EmailResource)
set_addresses [] = none
set_addresses (e ∷ es) = some (e ∷ es)

apply_op : PatchOperation → Document → Option Document
unfolding change change_at text_of addresses_of flag_of set_text set_addresses
apply_op o d =
    if o.path == "userName"
    then change_at "" (λ s. record d { user_name = s }) o.op (text_of o.value)
        (set_text d.user_name)
    else if o.path == "name.givenName"
    then change_at "" (λ s. record d { given_name = s }) o.op (text_of o.value)
        (set_text d.given_name)
    else if o.path == "name.familyName"
    then change_at "" (λ s. record d { family_name = s }) o.op (text_of o.value)
        (set_text d.family_name)
    else if o.path == "emails"
    then change_at [] (λ es. record d { addresses = es }) o.op (addresses_of o.value)
        (set_addresses d.addresses)
    else if o.path == "active"
    then elim (change o.op (flag_of o.value) d.active) [
      | none ↦ none
      | some a ↦ some (record d { active = a })
    ]
    else none

-- One operation after the other, up to one that is refused.
pub apply_ops : List PatchOperation → Document → Option Document
unfolding apply_op
apply_ops [] d = some d
apply_ops (o ∷ ops) d = elim (apply_op o d) [ none ↦ none | some d' ↦ apply_ops ops d' ]

after_op :
    (xs ys : List PatchOperation) (r : Option Document) {d' : Document}
    → ((d : Document) → apply_ops xs d ≡ some d' → apply_ops (xs ++ ys) d ≡ apply_ops ys d')
    → elim r [ none ↦ none | some d ↦ apply_ops xs d ] ≡ some d'
    → elim r [ none ↦ none | some d ↦ apply_ops (xs ++ ys) d ] ≡ apply_ops ys d'
after_op xs ys none h e = cc
after_op xs ys (some d) h e = h d e

apply_ops-append :
    (xs ys : List PatchOperation) (d : Document) {d' : Document}
    → apply_ops xs d ≡ some d'
    → apply_ops (xs ++ ys) d ≡ apply_ops ys d'
unfolding apply_ops
apply_ops-append [] ys d h = cc
apply_ops-append (x ∷ xs) ys d h =
    after_op xs ys (apply_op x d) (λ d₁ e. apply_ops-append xs ys d₁ e) h

module _ (d : Document) where
  apply-user_name_ops :
      (next : String)
      → apply_ops (user_name_ops d.user_name next) d ≡ some (record d { user_name = next })
  unfolding apply_ops user_name_ops
  apply-user_name_ops next =
      ground (arith, eq_iff d.user_name next, eq_iff d.user_name "", eq_iff next "")

  apply-given_name_ops :
      (next : String)
      → apply_ops (name_ops "name.givenName" d.given_name next) d
        ≡ some (record d { given_name = next })
  unfolding apply_ops name_ops
  apply-given_name_ops next =
      ground (arith, eq_iff d.given_name next, eq_iff d.given_name "", eq_iff next "")

  apply-family_name_ops :
      (next : String)
      → apply_ops (name_ops "name.familyName" d.family_name next) d
        ≡ some (record d { family_name = next })
  unfolding apply_ops name_ops
  apply-family_name_ops next =
      ground (arith, eq_iff d.family_name next, eq_iff d.family_name "", eq_iff next "")

  apply-email_ops :
      (prev next : Snapshot)
      → d.addresses ≡ (view prev).addresses
      → apply_ops (email_ops prev next) d ≡ some (record d { addresses = (view next).addresses })
  unfolding apply_ops email_ops
  apply-email_ops prev next h = ground (arith, eq_iff prev.email next.email)

  apply-active_ops :
      (prev next : Snapshot)
      → d.active ≡ (view prev).active
      → next.has_active ≡ true
      → apply_ops (active_ops prev next) d ≡ some (record d { active = some next.active })
  unfolding apply_ops active_ops differ
  apply-active_ops prev next h k = ground arith

-- Applied one after the other to the attributes of the last snapshot, with `add`, `replace` and
-- `remove` read as in RFC 7644, the operations of `diffToPatch` give exactly the attributes of the
-- snapshot that it returns, for every snapshot and every payload, and none is refused by a server
-- that adds only what is not set and removes only what is set.
pub diff_to_patch-reaches :
    (prev : Snapshot) (payload : UserResource) (profile_id : String)
    → apply_ops (diff_to_patch prev payload profile_id).1 (view prev)
      ≡ some (view (diff_to_patch prev payload profile_id).0)
unfolding diff_to_patch diff_ops
diff_to_patch-reaches prev payload profile_id =
    let next : Snapshot = snapshot_from_payload payload profile_id in
    let d₁ : Document = record (view prev) { user_name = next.user_name } in
    let d₂ : Document = record d₁ { given_name = next.given_name } in
    let d₃ : Document = record d₂ { family_name = next.family_name } in
    let d₄ : Document = record d₃ { addresses = (view next).addresses } in
    apply_ops-append _ _ (view prev) (apply-user_name_ops (view prev) next.user_name)
    ∙ apply_ops-append _ _ d₁ (apply-given_name_ops d₁ next.given_name)
    ∙ apply_ops-append _ _ d₂ (apply-family_name_ops d₂ next.family_name)
    ∙ apply_ops-append _ _ d₃ (apply-email_ops d₃ prev next refl)
    ∙ apply-active_ops d₄ prev next refl refl

append-eq-nil {ℓ} : {A : Type ℓ} (xs ys : List A) → (xs ++ ys ≡ []) ↔ ((xs ≡ []) × (ys ≡ []))
append-eq-nil [] ys = (λ h. (refl, h), λ h. h.1)
append-eq-nil (x ∷ xs) ys = (λ h. cc, λ h. cc (h.0))

module _ (prev next : Snapshot) where
  email_ops-eq-nil : (email_ops prev next ≡ []) ↔ ((view prev).addresses ≡ (view next).addresses)
  unfolding email_ops
  email_ops-eq-nil = ground (arith, eq_iff prev.email next.email)

  active_ops-eq-nil :
      next.has_active ≡ true → (active_ops prev next ≡ []) ↔ ((view prev).active ≡ some next.active)
  unfolding active_ops differ
  active_ops-eq-nil h = ground arith

user_name_ops-eq-nil : (p n : String) → (user_name_ops p n ≡ []) ↔ (p ≡ n)
unfolding user_name_ops
user_name_ops-eq-nil p n = ground (arith, eq_iff p n, eq_iff p "", eq_iff n "")

name_ops-eq-nil : (path p n : String) → (name_ops path p n ≡ []) ↔ (p ≡ n)
unfolding name_ops
name_ops-eq-nil path p n = ground (arith, eq_iff p n, eq_iff p "", eq_iff n "")

diff_ops-eq-nil :
    (prev next : Snapshot)
    → next.has_active ≡ true
    → (diff_ops prev next ≡ []) ↔ (view prev ≡ view next)
unfolding diff_ops
diff_ops-eq-nil prev next h =
    let d = email_ops prev next ++ active_ops prev next in
    let c = name_ops "name.familyName" prev.family_name next.family_name ++ d in
    let b = name_ops "name.givenName" prev.given_name next.given_name ++ c in
    ground (
      arith,
      append-eq-nil (user_name_ops prev.user_name next.user_name) b,
      append-eq-nil (name_ops "name.givenName" prev.given_name next.given_name) c,
      append-eq-nil (name_ops "name.familyName" prev.family_name next.family_name) d,
      append-eq-nil (email_ops prev next) (active_ops prev next),
      user_name_ops-eq-nil prev.user_name next.user_name,
      name_ops-eq-nil "name.givenName" prev.given_name next.given_name,
      name_ops-eq-nil "name.familyName" prev.family_name next.family_name,
      email_ops-eq-nil prev next,
      active_ops-eq-nil prev next h,
    )

-- There is nothing to send exactly when the attributes of the last snapshot are already those of
-- the payload.
pub diff_to_patch-eq-nil :
    (prev : Snapshot) (payload : UserResource) (profile_id : String)
    → ((diff_to_patch prev payload profile_id).1 ≡ [])
      ↔ (view prev ≡ view (snapshot_from_payload payload profile_id))
unfolding diff_to_patch
diff_to_patch-eq-nil prev payload profile_id =
    diff_ops-eq-nil prev (snapshot_from_payload payload profile_id) refl
