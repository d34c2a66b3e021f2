-- ===== src/Installer/Target.antt =====
-- The names of a MAS instance and of its core namespace, each found from the other:
-- tools/mas-iam-installer/internal/config/install.go.
use mas_iam_operator.Prelude.{
  String, ◌<>◌, ◌≡◌, refl, sym, ap, ◌∙◌, ◌⊎◌, inl, inr, true, false, not, ◌&&◌, Option, none, some,
  arith, ◌==◌, starts_with, eq_iff, if◌then◌else◌, Bool-cases,
}
use mas_iam_operator.Prelude.Text.{trim_space}
use text.Mathlib.TextPositions.{starts_with-append}
use text.Mathlib.TextLemmas.{append_assoc, cons-append, cons≢nil}
use mas_iam_operator.Prelude.Affix.{
  has_suffix_of_append, trim_prefix_of_append, trim_suffix_of_append, trim_prefix, trim_suffix,
  has_suffix,
}
use mas_iam_operator.Installer.Settings.{InstallConfig}

unfoldable pub core_namespace : String → String
core_namespace id = "mas-" <> (id <> "-core")

-- The text between `mas-` and `-core`: `HasPrefix` and `HasSuffix` are tests on the whole name,
-- and `TrimSuffix` leaves what the prefix and the suffix share.
unfoldable pub instance_of : String → Option String
unfolding trim_prefix trim_suffix has_suffix
instance_of name =
    if starts_with name "mas-" && has_suffix "-core" name
    then some (trim_suffix "-core" (trim_prefix "mas-" name))
    else none

-- `if namespace == "" && id != "" { namespace = "mas-" + id + "-core" }`
namespace_or_of : String → String → String
unfolding core_namespace
namespace_or_of namespace id =
    if (namespace == "") && not (id == "") then core_namespace id else namespace

-- `if id == "" && … { id = … }`
id_or_of : String → String → String
unfolding instance_of
id_or_of id namespace =
    if not (id == "") then id else elim (instance_of namespace) [ none ↦ id | some i ↦ i ]

abbrev or_else : String → String → String
or_else value fallback = if value == "" then trim_space fallback else value

unfoldable pub default_mas_core_namespace : InstallConfig → InstallConfig
unfolding namespace_or_of id_or_of
default_mas_core_namespace c =
    let id = trim_space c.mas_instance_id in
    let namespace = namespace_or_of (trim_space c.mas_core_namespace) id in
    record c { mas_instance_id = id_or_of id namespace; mas_core_namespace = namespace }

unfoldable pub default_mas_auth_target : InstallConfig → InstallConfig
unfolding namespace_or_of id_or_of
default_mas_auth_target c =
    let id = or_else (trim_space c.mas_auth_instance_id) c.mas_instance_id in
    let namespace =
      namespace_or_of (or_else (trim_space c.mas_auth_core_namespace) c.mas_core_namespace) id in
    record c {
      mas_auth_instance_id = id_or_of id namespace;
      mas_auth_core_namespace = namespace;
      mas_auth_host = trim_space c.mas_auth_host;
    }

instance_of_affixed :
    (name id : String)
    → starts_with name "mas-" ≡ true
    → has_suffix "-core" name ≡ true
    → trim_suffix "-core" (trim_prefix "mas-" name) ≡ id
    → instance_of name ≡ some id
unfolding instance_of
instance_of_affixed name id p s e = ground (arith, p, s, e)

pub instance_of-core_namespace : (id : String) → instance_of (core_namespace id) ≡ some id
unfolding core_namespace
instance_of-core_namespace id =
    instance_of_affixed (core_namespace id) id (starts_with-append "mas-" (id <> "-core"))
      (ap (has_suffix "-core") (sym (append_assoc "mas-" id "-core"))
        ∙ has_suffix_of_append "-core" ("mas-" <> id))
      (ap (trim_suffix "-core") (trim_prefix_of_append "mas-" (id <> "-core"))
        ∙ trim_suffix_of_append "-core" id)

core_namespace_nonblank : (id : String) → (core_namespace id == "") ≡ false
unfolding core_namespace
core_namespace_nonblank id = elim (Bool-cases (core_namespace id == "")) [
  | inr e ↦ e
  | inl e ↦ elim (cons≢nil (sym (cons-append "m" "as-" (id <> "-core")) ∙ (eq_iff _ "").0 e)) [ ]
]

-- Either name determines the other: a configuration whose instance is `i` and whose namespace is
-- blank, or whose namespace is that of `i` and whose instance is blank, gets both.
pub default_mas_core_namespace_complete :
    (c : InstallConfig) (i : String)
    → (i == "") ≡ false
    → ((trim_space c.mas_instance_id ≡ i) × (trim_space c.mas_core_namespace ≡ ""))
      ⊎ ((trim_space c.mas_instance_id ≡ "") × (trim_space c.mas_core_namespace ≡ core_namespace i))
    → ((default_mas_core_namespace c).mas_instance_id ≡ i)
      × ((default_mas_core_namespace c).mas_core_namespace ≡ core_namespace i)
unfolding default_mas_core_namespace
default_mas_core_namespace_complete c i h (inl (p, q)) = (rw (p, q, h) refl, rw (p, q, h) refl)
default_mas_core_namespace_complete c i h (inr (p, q)) =
    rw (p, q, core_namespace_nonblank i, instance_of-core_namespace i) (refl, refl)
