-- ===== src/Config/Parse.antt =====
-- `ParseList`, `ParseProfileMap`, `ResolveProfile` of
-- services/scim-bridge/internal/config/config.go.
use mas_iam_operator.Prelude.{
  String, ◌<>◌, Bool, true, false, not, ◌&&◌, ◌||◌, Option, none, some, List, [], ◌∷◌, ◌==◌,
  if◌then◌else◌,
}
use mas_iam_operator.Prelude.Text.{
  CaseTable, trim_space, to_lower, split, split_2, is_comma, is_equals,
}
use mas_iam_operator.Prelude.Dict.{Dict}
use mas_iam_operator.Errors.{message, Result, ok, err, wrap_result}
use mas_iam_operator.Config.Settings.{MasConfig}
use mas_iam_operator.Prelude.Dict

-- The loop over the parts.
unfoldable pub trimmed_parts : List String → List String
trimmed_parts [] = []
trimmed_parts (part ∷ parts) =
    let rest = trimmed_parts parts in
    if not (trim_space part == "") then trim_space part ∷ rest else rest

unfoldable pub parse_list : String → List String
unfolding trimmed_parts
parse_list value = trimmed_parts (split is_comma value)

-- The entry of a pair: none for a blank one.
unfoldable pub parse_pair : String → Result (Option (String × String))
parse_pair pair = if trim_space pair == "" then ok none else elim (split_2 is_equals pair) [
  | none ↦ err (message ("invalid profile map entry \"" <> (pair <> "\" (expected key=value)")))
  | some (k, v) ↦
      if (trim_space k == "") || (trim_space v == "")
      then err (message ("profile map entry \"" <> (pair <> "\" must include key and value")))
      else ok (some (trim_space k, trim_space v))
]

add_pair : Option (String × String) → Dict String → Dict String
add_pair none mapping = mapping
add_pair (some (key, val)) mapping = Dict.insert key val mapping

-- The loop over the pairs.
unfoldable pub parse_pairs : List String → Dict String → Result (Dict String)
unfolding parse_pair add_pair
parse_pairs [] mapping = ok mapping
parse_pairs (pair ∷ pairs) mapping = elim (parse_pair pair) [
  | err e ↦ err e
  | ok entry ↦ parse_pairs pairs (add_pair entry mapping)
]

unfoldable pub parse_profile_map_pairs : String → Result (Dict String)
unfolding parse_pairs
parse_profile_map_pairs raw =
    if trim_space raw == "" then ok [] else parse_pairs (split is_comma raw) []

-- `json.Unmarshal` into a map of texts is a parameter.
unfoldable pub parse_profile_map_json :
    (String → Result (Dict String)) → String → Result (Dict String)
parse_profile_map_json unmarshal raw =
    if trim_space raw == "" then ok [] else wrap_result "parse profile map JSON" (unmarshal raw)

module _ ⦃u : CaseTable⦄ where
  -- One round of the loop over the mapping.
  add_normalized : String → String → Dict String → Dict String
  add_normalized k v normalized =
      let key = to_lower (trim_space k) in
      let val = trim_space v in
      if (key == "") || (val == "") then normalized else Dict.insert key val normalized

  -- The order of Go's loop over a map is unspecified: here the first entry is read last.
  unfoldable pub normalize_profile_map : Dict String → Dict String
  unfolding add_normalized
  normalize_profile_map [] = []
  normalize_profile_map ((k, v) ∷ mapping) = add_normalized k v (normalize_profile_map mapping)

  unfoldable pub parse_profile_map : String → Result (Dict String)
  parse_profile_map raw = elim (parse_profile_map_pairs raw) [
    | err e ↦ err e
    | ok mapping ↦ ok (normalize_profile_map mapping)
  ]

  -- The steps of `ResolveProfile` for a normalized label.
  fall_back : MasConfig → String → String × Bool
  fall_back m normalized =
      if m.profile_require_label && (normalized == "") then ("", false) else (m.profile_id, true)

  resolve_normalized : MasConfig → String → String × Bool
  unfolding fall_back
  resolve_normalized m normalized =
      if not (normalized == "")
      then elim (Dict.lookup normalized m.profile_map) [
        | some id ↦ (id, true)
        | none ↦ if m.profile_require_label then ("", false) else fall_back m normalized
      ]
      else fall_back m normalized

  unfoldable pub resolve_profile : MasConfig → String → String × Bool
  unfolding resolve_normalized
  resolve_profile m label = resolve_normalized m (to_lower (trim_space label))
