-- ===== src/Lexgen/Tests.antt =====
-- Runs of lexgen on small lexicons.
use habitat_new.Prelude.{Str, str, str_eq, none, some, List, [], ◌∷◌, ◌++◌, ◌≡◌, refl, false}
use mathlib.Core.List.{Permᴰ}
use habitat_new.Lexgen.Names.{to_field_name, to_type_name, resolve_ref}
use habitat_new.Lexgen.Defs.{
  schema, absent, Definition, Lexicon, Package, definition_code, generate_code, schema_to_go_type,
  tab, newline,
}
use habitat_new.Lexgen.Order.{definition_code-order}

mixed_case : to_field_name (str "created_at-time") ≡ str "CreatedAtTime"
unfolding to_field_name
mixed_case = refl

-- Two lexicons with one type name.
same_type_name : to_type_name (str "a.b_c") ≡ to_type_name (str "a_b.c")
unfolding to_type_name
same_type_name = refl

local_ref : resolve_ref (str "#item") (str "com.foo") ≡ str "ComFooItem"
unfolding resolve_ref
local_ref = refl

array_of_refs :
    schema_to_go_type
      (schema (str "array") [] (schema (str "ref") (str "#item") absent))
      (str "com.foo")
    ≡ str "[]ComFooItem"
unfolding schema_to_go_type
array_of_refs = refl

abbrev point : Definition
point = record {
  type = str "object";
  fields = record {
    properties = some (
        (str "y", schema (str "integer") [] absent)
        ∷ (str "x", schema (str "string") [] absent)
        ∷ []);
    required = str "x" ∷ [];
  };
  parameters = none;
  input = none;
  output = none;
  record_fields = none;
}

point_code :
    definition_code (λ ks. ks) (str "a.b") (str "point") point
    ≡ str "// ABPoint represents a point object"
      ++ (newline
          ++ (str "type ABPoint struct {"
              ++ (newline
                  ++ (tab
                      ++ (str "X string `json:\"x\"`"
                          ++ (newline
                              ++ (tab
                                  ++ (str "Y int64 `json:\"y,omitempty\"`"
                                      ++ (newline ++ (str "}" ++ (newline ++ newline)))))))))))
unfolding definition_code
point_code = refl

-- The names in the other order.
abbrev flip : List Str → List Str
flip [] = []
flip (a ∷ []) = a ∷ []
flip (a ∷ b ∷ ks) = b ∷ a ∷ ks

flip-Permᴰ : (ks : List Str) → Permᴰ ks (flip ks)
flip-Permᴰ [] = Permᴰ.nil
flip-Permᴰ (a ∷ []) = Permᴰ.cons refl Permᴰ.nil
flip-Permᴰ (a ∷ b ∷ ks) = Permᴰ.swap refl refl

definition_code-order_example :
    definition_code (λ ks. ks) (str "a.b") (str "point") point
    ≡ definition_code flip (str "a.b") (str "point") point
definition_code-order_example =
    definition_code-order (λ ks. ks) flip flip-Permᴰ (str "a.b") (str "point") point

abbrev empty_object : Definition
empty_object = record {
  type = str "object";
  fields = record { properties = none; required = [] };
  parameters = none;
  input = none;
  output = none;
  record_fields = none;
}

abbrev two_objects : Lexicon
two_objects = record {
  id = str "a.b";
  defs = (str "p", empty_object) ∷ (str "q", empty_object) ∷ [];
}

abbrev pkg : Package
pkg = record { go_package = str "a"; prefix = str "a" }

-- The order of the definitions in a file is Go's.
file_order :
    str_eq
      (generate_code (λ ks. ks) two_objects pkg).content
      (generate_code flip two_objects pkg).content
    ≡ false
unfolding generate_code str_eq
file_order = refl

file_name : (generate_code flip two_objects pkg).name ≡ str "b.go"
unfolding generate_code
file_name = refl
