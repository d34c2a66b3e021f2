-- ===== src/Bridge/Profile/Agreement.antt =====
-- The two resolutions of a profile label: `Resolve` in
-- services/scim-bridge/internal/bridge/profile_resolver.go and `ResolveProfile` in
-- services/scim-bridge/internal/config/config.go.
use mas_iam_operator.Prelude.{String, ◌≡◌, arith, Option-cases}
use mas_iam_operator.Prelude.Text.{CaseTable, trim_space, to_lower}
use mas_iam_operator.Config.Settings.{MasConfig}
use mas_iam_operator.Config.Parse.{resolve_profile}
use mas_iam_operator.Bridge.Profile.{ProfileResolver, resolve}
use mas_iam_operator.Prelude.Dict

-- A resolver with the fields of the configuration gives every label the profile and the verdict
-- that the configuration gives it.
pub resolve-eq-resolve_profile :
    ⦃c : CaseTable⦄ (m : MasConfig) (label : String)
    → let r : ProfileResolver = record {
      default_profile_id = m.profile_id;
      require_label = m.profile_require_label;
      mapping = m.profile_map;
    } in
      ((resolve r label).0.profile_id, (resolve r label).1) ≡ resolve_profile m label
unfolding resolve resolve_profile
resolve-eq-resolve_profile m label =
    ground (arith, Option-cases (Dict.lookup (to_lower (trim_space label)) m.profile_map))
