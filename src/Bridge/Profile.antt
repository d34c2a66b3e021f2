-- ===== src/Bridge/Profile.antt =====
-- services/scim-bridge/internal/bridge/profile_resolver.go
pub mod Agreement
use mas_iam_operator.Prelude.{
  String, Bool, true, false, not, ◌||◌, none, some, [], ◌∷◌, ◌==◌, if◌then◌else◌,
}
use mas_iam_operator.Prelude.Dict.{Dict}
use mas_iam_operator.Prelude.Text.{CaseTable, trim_space, to_lower}
use mas_iam_operator.Prelude.Dict

pub record ProfileResolver : Type 0 where
  pub default_profile_id : String
  pub require_label : Bool
  pub mapping : Dict String

pub record ProfileResolution : Type 0 where
  pub label : String
  pub profile_id : String
  pub from_label : Bool

module _ ⦃u : CaseTable⦄ where
  -- `strings.ToLower(strings.TrimSpace(s))`
  unfoldable pub normalize_label : String → String
  normalize_label s = to_lower (trim_space s)

  -- One round of the loop over the mapping.
  add_label : String → String → Dict String → Dict String
  add_label k v normalized =
      let key = normalize_label k in
      let val = trim_space v in
      if (key == "") || (val == "") then normalized else Dict.insert key val normalized

  -- The order of Go's loop over a map is unspecified: here the first entry is read last.
  unfoldable pub normalize_mapping : Dict String → Dict String
  unfolding add_label
  normalize_mapping [] = []
  normalize_mapping ((k, v) ∷ mapping) = add_label k v (normalize_mapping mapping)

  unfoldable pub new_profile_resolver : String → Dict String → Bool → ProfileResolver
  unfolding normalize_mapping
  new_profile_resolver default_profile_id mapping require_label = record {
    default_profile_id = trim_space default_profile_id;
    require_label = require_label;
    mapping = normalize_mapping mapping;
  }

  -- The resolution of a normalized label that the mapping lacks.
  unmapped : ProfileResolver → String → ProfileResolution × Bool
  unmapped r normalized =
      if r.require_label
      then (record { label = normalized; profile_id = ""; from_label = false }, false)
      else (
        record { label = normalized; profile_id = r.default_profile_id; from_label = false },
        true,
      )

  resolve_normalized : ProfileResolver → String → ProfileResolution × Bool
  unfolding unmapped
  resolve_normalized r normalized =
      if not (normalized == "")
      then elim (Dict.lookup normalized r.mapping) [
        | some id ↦ (record { label = normalized; profile_id = id; from_label = true }, true)
        | none ↦ unmapped r normalized
      ]
      else if r.require_label
      then (record { label = ""; profile_id = ""; from_label = false }, false)
      else (
        record { label = normalized; profile_id = r.default_profile_id; from_label = false },
        true,
      )

  unfoldable pub resolve : ProfileResolver → String → ProfileResolution × Bool
  unfolding resolve_normalized normalize_label
  resolve r label = resolve_normalized r (normalize_label label)
