-- ===== src/Lexgen/Names.antt =====
-- Go names from lexicon names (toFieldName, toTypeName, resolveRef).
use habitat_new.Prelude.{
  ℕ, ◌-◌, ltb, leb, Str, str, cut_prefix, split, ◌&&◌, none, some, List, [], ◌∷◌, ◌++◌,
  if◌then◌else◌,
}

-- strings.ToUpper of one byte. A byte that is not ASCII is no character by itself and becomes the
-- replacement character.
unfoldable pub to_upper : ℕ → Str
to_upper b =
    if ltb b 128
    then (if leb b'a' b && leb b b'z' then (b - 32) ∷ [] else (b ∷ []))
    else (239 ∷ 191 ∷ 189 ∷ [])

-- strings.ToUpper(part[0:1]) + part[1:], nothing for an empty part
unfoldable pub capitalize : Str → Str
unfolding to_upper
capitalize [] = []
capitalize (b ∷ part) = to_upper b ++ part

-- The loop over the parts.
unfoldable pub join_capitalized : List Str → Str
unfolding capitalize
join_capitalized [] = []
join_capitalized (part ∷ parts) = capitalize part ++ join_capitalized parts

-- toFieldName
unfoldable pub to_field_name : Str → Str
unfolding join_capitalized split
to_field_name name = join_capitalized (split b'-' (join_capitalized (split b'_' name)))

-- The loop of toTypeName
unfoldable pub join_field_names : List Str → Str
unfolding to_field_name
join_field_names [] = []
join_field_names (part ∷ parts) = to_field_name part ++ join_field_names parts

-- toTypeName
unfoldable pub to_type_name : Str → Str
unfolding join_field_names split
to_type_name id = join_field_names (split b'.' id)

-- resolveRef. The schema that is passed on is never read.
unfoldable pub resolve_ref : (ref lexicon_id : Str) → Str
unfolding to_type_name to_field_name cut_prefix
resolve_ref ref lexicon_id = elim (cut_prefix ref (str "#")) [
  | some def_name ↦ to_type_name lexicon_id ++ to_field_name def_name
  | none ↦ to_type_name ref
]
