-- ===== src/Prelude/Fields.antt =====
-- `strings.FieldsFunc`: the parts between the separators, without the empty ones.
use Prim.Native.Char.{Char, code}
use Prim.Native.String.{String}
use mathlib.Core.Bool.{Bool, ◌||◌}
use mathlib.Core.List.{List, [], ◌∷◌}
use mas_iam_operator.Prelude.Tests.{nat_beq, if◌then◌else◌}
use mas_iam_operator.Prelude.Text.{split, is_empty}

unfoldable pub non_empty : List String → List String
non_empty [] = []
non_empty (w ∷ ws) = let rest = non_empty ws in if is_empty w then rest else w ∷ rest

unfoldable pub fields : (Char → Bool) → String → List String
unfolding non_empty
fields p s = non_empty (split p s)

-- `r == ',' || r == ' ' || r == '\t' || r == '\n'`
unfoldable pub is_blank_or_comma : Char → Bool
is_blank_or_comma c =
    nat_beq (code c) b',' || nat_beq (code c) 32 || nat_beq (code c) 9 || nat_beq (code c) 10
