-- ===== src/Lexgen/Order.antt =====
-- The sorted names make the code of a definition independent of Go's order on maps.
use habitat_new.Prelude.{
  Str, str, true, false, Option, Option-cases, none, some, List, [], ◌∷◌, ◌++◌, ◌≡◌, refl, sym, ◌∙◌,
  arith, inl, inr,
}
use mathlib.Core.List.{Permᴰ}
use std.Path.{ap₂}
use habitat_new.Lexgen.Defs.{
  Fields, Definition, str_le, insert_name, sort_names, keys, struct_fields, struct_code,
  definition_name, optional_struct, part_struct, generate_query_code, generate_procedure_code,
  generate_record_code, generate_object_code, definition_code,
}

str_le_total : (s t : Str) → str_le s t ≡ false → str_le t s ≡ true
unfolding str_le
str_le_total [] t h = cc
str_le_total (a ∷ s) [] h = refl
str_le_total (a ∷ s) (b ∷ t) h = ground (arith, h, str_le_total s t)

str_le_antisym : (s t : Str) → str_le s t ≡ true → str_le t s ≡ true → s ≡ t
unfolding str_le
str_le_antisym [] [] h k = refl
str_le_antisym [] (b ∷ t) h k = cc
str_le_antisym (a ∷ s) [] h k = cc
str_le_antisym (a ∷ s) (b ∷ t) h k = ground (arith, h, k, str_le_antisym s t)

str_le_trans : (s t u : Str) → str_le s t ≡ true → str_le t u ≡ true → str_le s u ≡ true
unfolding str_le
str_le_trans [] t u h k = refl
str_le_trans (a ∷ s) [] u h k = cc
str_le_trans (a ∷ s) (b ∷ t) [] h k = cc
str_le_trans (a ∷ s) (b ∷ t) (c ∷ u) h k = ground (arith, h, k, str_le_trans s t u)

insert_name_comm :
    (s t : Str) (ns : List Str)
    → insert_name s (insert_name t ns) ≡ insert_name t (insert_name s ns)
unfolding insert_name
insert_name_comm s t [] = ground (arith, str_le_total s t, str_le_total t s, str_le_antisym s t)
insert_name_comm s t (n ∷ ns) = ground (
  arith,
  insert_name_comm s t ns,
  str_le_total s t,
  str_le_total t s,
  str_le_antisym s t,
  str_le_trans s t n,
  str_le_trans t s n,
  str_le_trans s n t,
  str_le_trans t n s,
  str_le_total s n,
  str_le_total t n,
)

sort_names-Permᴰ : {ns ms : List Str} → Permᴰ ns ms → sort_names ns ≡ sort_names ms
unfolding sort_names
sort_names-Permᴰ Permᴰ.nil = refl
sort_names-Permᴰ (Permᴰ.cons e p) = rw (e, sort_names-Permᴰ p) refl
sort_names-Permᴰ (Permᴰ.swap {a = a} {b = b} {l = l} e f) =
    rw (sym e, sym f) (insert_name_comm a b (sort_names l))
sort_names-Permᴰ (Permᴰ.trans p q) = sort_names-Permᴰ p ∙ sort_names-Permᴰ q

module _ (iterate iterate' : List Str → List Str)
    (same : (ks : List Str) → Permᴰ (iterate ks) (iterate' ks)) where
  struct_fields-order :
      (id : Str) (fields : Fields)
      → struct_fields iterate id fields ≡ struct_fields iterate' id fields
  unfolding struct_fields
  struct_fields-order id fields = elim (Option-cases fields.properties) [
    | inl e ↦ rw e refl
    | inr (ps, e) ↦ rw (e, sort_names-Permᴰ (same (keys ps))) refl
  ]

  struct_code-order :
      (comment name id : Str) (fields : Fields)
      → struct_code iterate comment name id fields ≡ struct_code iterate' comment name id fields
  unfolding struct_code
  struct_code-order comment name id fields = rw (struct_fields-order id fields) refl

  optional_struct-order :
      (comment name id : Str) (fields : Option Fields)
      → optional_struct iterate comment name id fields
        ≡ optional_struct iterate' comment name id fields
  optional_struct-order comment name id none = refl
  optional_struct-order comment name id (some fields) = struct_code-order comment name id fields

  part_struct-order :
      (part about id type_name : Str) (fields : Option Fields)
      → part_struct iterate part about id type_name fields
        ≡ part_struct iterate' part about id type_name fields
  part_struct-order part about id type_name fields = optional_struct-order _ _ id fields

  generate_query_code-order :
      (id def_name : Str) (def : Definition)
      → generate_query_code iterate id def_name def ≡ generate_query_code iterate' id def_name def
  unfolding generate_query_code
  generate_query_code-order id def_name def =
      ap₂ (λ s t. s ++ t)
        (part_struct-order (str "Params") (str "input parameters") id (definition_name id def_name)
          def.parameters)
        (part_struct-order (str "Output") (str "output") id (definition_name id def_name)
          def.output)

  generate_procedure_code-order :
      (id def_name : Str) (def : Definition)
      → generate_procedure_code iterate id def_name def
        ≡ generate_procedure_code iterate' id def_name def
  unfolding generate_procedure_code
  generate_procedure_code-order id def_name def =
      ap₂ (λ s t. s ++ t)
        (part_struct-order (str "Input") (str "input") id (definition_name id def_name) def.input)
        (part_struct-order (str "Output") (str "output") id (definition_name id def_name)
          def.output)

  -- The code of a definition is the same whatever the order in which Go goes through its maps of
  -- properties, where two orders differ by a permutation of the names.
  pub definition_code-order :
      (id def_name : Str) (def : Definition)
      → definition_code iterate id def_name def ≡ definition_code iterate' id def_name def
  unfolding definition_code generate_record_code generate_object_code
  definition_code-order id def_name def =
      rw
        (
          generate_query_code-order id def_name def,
          generate_procedure_code-order id def_name def,
          optional_struct-order _ _ id def.record_fields,
          struct_code-order _ _ id def.fields,
        )
        refl
