-- ===== src/Lexgen/Defs.antt =====
-- The code that lexgen writes for a lexicon (main.go). Go may go through a map in any order: the
-- names that a loop meets are an argument, `iterate` of the map's keys.
use habitat_new.Prelude.{
  ltb, ◌==◌, Str, str, str_eq, trim_prefix, any, Bool, true, false, Option, none, some, List, [],
  ◌∷◌, ◌++◌, if◌then◌else◌,
}
use habitat_new.Prelude.Dict.{find}
use habitat_new.Lexgen.Names.{to_type_name, to_field_name, resolve_ref}

-- lex.TypeSchema where it is the type of a property. A schema that is nil is absent.
pub data TypeSchema : Type 0 where
  absent : TypeSchema
  schema : (type ref : Str) → (items : TypeSchema) → TypeSchema

-- lex.TypeSchema where its properties become the fields of a struct. Properties may be nil.
pub record Fields : Type 0 where
  pub properties : Option (List (Str × TypeSchema))
  pub required : List Str

-- lex.TypeSchema where it is a definition, which is not nil: input and output by their schemas.
pub record Definition : Type 0 where
  pub type : Str
  pub fields : Fields
  pub parameters : Option Fields
  pub input : Option Fields
  pub output : Option Fields
  pub record_fields : Option Fields

-- lex.Schema
pub record Lexicon : Type 0 where
  pub id : Str
  pub defs : List (Str × Definition)

-- lex.Package
pub record Package : Type 0 where
  pub go_package : Str
  pub prefix : Str

-- GeneratedFile
pub record GeneratedFile : Type 0 where
  pub name : Str
  pub package_name : Str
  pub content : Str

abbrev pub newline : Str
newline = 10 ∷ []

abbrev pub tab : Str
tab = 9 ∷ []

-- Go types of the schema's simple types.
unfoldable pub simple_type : (type : Str) → Option Str
unfolding find
simple_type type = find type (
    (str "string", str "string")
    ∷ (str "integer", str "int64")
    ∷ (str "boolean", str "bool")
    ∷ (str "number", str "float64")
    ∷ (str "unknown", str "interface{}")
    ∷ (str "object", str "map[string]interface{}")
    ∷ [])

-- schemaToGoType, below the check for nil: the types with parts of their own.
abbrev pub compound_type :
    (type ref : Str) → (items : TypeSchema) → (item_type lexicon_id : Str) → Str
compound_type type ref items item_type lexicon_id =
    if str_eq type (str "array")
    then (elim items [ absent ↦ str "[]interface{}" | schema _ _ _ ↦ str "[]" ++ item_type ])
    else (if str_eq type (str "ref")
        then (elim ref [ [] ↦ str "interface{}" | b ∷ s ↦ resolve_ref (b ∷ s) lexicon_id ])
        else str "interface{}")

-- schemaToGoType
unfoldable pub schema_to_go_type : TypeSchema → (lexicon_id : Str) → Str
unfolding simple_type resolve_ref str_eq
schema_to_go_type absent lexicon_id = str "interface{}"
schema_to_go_type (schema type ref items) lexicon_id =
    let item_type = schema_to_go_type items lexicon_id in
    elim (simple_type type) [
      | some go_type ↦ go_type
      | none ↦ compound_type type ref items item_type lexicon_id
    ]

-- The order of slices.Sort: bytes first to last.
unfoldable pub str_le : Str → Str → Bool
str_le [] t = true
str_le (_ ∷ _) [] = false
str_le (a ∷ s) (b ∷ t) = if a == b then str_le s t else ltb a b

unfoldable pub insert_name : Str → List Str → List Str
unfolding str_le
insert_name name [] = name ∷ []
insert_name name (n ∷ ns) =
    let rest = insert_name name ns in if str_le name n then name ∷ n ∷ ns else n ∷ rest

-- slices.Sort
unfoldable pub sort_names : List Str → List Str
unfolding insert_name
sort_names [] = []
sort_names (n ∷ ns) = insert_name n (sort_names ns)

abbrev pub keys {ℓ} : {V : Type ℓ} → List (Str × V) → List Str
keys [] = []
keys ((k, _) ∷ m) = k ∷ keys m

-- propSchema: nil for a key that the map does not have.
abbrev pub schema_of : Option TypeSchema → TypeSchema
schema_of none = absent
schema_of (some s) = s

-- The line of a field.
unfoldable pub field_line : (id : Str) → Fields → List (Str × TypeSchema) → (name : Str) → Str
unfolding schema_to_go_type to_field_name find any str_eq
field_line id fields properties name =
    tab
    ++ (to_field_name name
        ++ (str " "
            ++ (schema_to_go_type (schema_of (find name properties)) id
                ++ (str " `json:\""
                    ++ (name
                        ++ ((if any (λ r. str_eq r name) fields.required
                              then []
                              else str ",omitempty")
                            ++ (str "\"`" ++ newline)))))))

-- The loop over the names.
unfoldable pub field_lines :
    (id : Str) → Fields → List (Str × TypeSchema) → (names : List Str) → Str
unfolding field_line
field_lines id fields properties [] = []
field_lines id fields properties (name ∷ names) =
    field_line id fields properties name ++ field_lines id fields properties names

-- The name of a definition's types.
unfoldable pub definition_name : (id def_name : Str) → Str
unfolding to_type_name to_field_name str_eq
definition_name id def_name =
    if str_eq def_name (str "main")
    then to_type_name id
    else to_type_name id ++ to_field_name def_name

-- strings.ReplaceAll(s, ".", "_")
unfoldable pub underscored : Str → Str
underscored [] = []
underscored (b ∷ s) = (if b == b'.' then b'_' else b) ∷ underscored s

module _ (iterate : List Str → List Str) where
  -- The fields of a struct, by their sorted names.
  unfoldable pub struct_fields : (id : Str) → Fields → Str
  unfolding field_lines sort_names
  struct_fields id fields = elim fields.properties [
    | none ↦ []
    | some properties ↦ field_lines id fields properties (sort_names (iterate (keys properties)))
  ]

  -- A struct with its comment.
  unfoldable pub struct_code : (comment name id : Str) → Fields → Str
  unfolding struct_fields
  struct_code comment name id fields =
      str "// "
      ++ (comment
          ++ (newline
              ++ (str "type "
                  ++ (name
                      ++ (str " struct {"
                          ++ (newline
                              ++ (struct_fields id fields
                                  ++ (str "}" ++ (newline ++ newline)))))))))

  -- A struct where its schema is not nil.
  abbrev pub optional_struct : (comment name id : Str) → Option Fields → Str
  optional_struct comment name id none = []
  optional_struct comment name id (some fields) = struct_code comment name id fields

  -- The struct Params, Input or Output of a query or a procedure.
  abbrev pub part_struct : (part about id type_name : Str) → Option Fields → Str
  part_struct part about id type_name fields =
      optional_struct
        (type_name ++ (part ++ (str " represents the " ++ (about ++ (str " for " ++ id)))))
        (type_name ++ part) id fields

  -- generateQueryCode
  unfoldable pub generate_query_code : (id def_name : Str) → Definition → Str
  unfolding struct_code definition_name
  generate_query_code id def_name def =
      part_struct (str "Params") (str "input parameters") id (definition_name id def_name)
        def.parameters
      ++ part_struct (str "Output") (str "output") id (definition_name id def_name) def.output

  -- generateProcedureCode
  unfoldable pub generate_procedure_code : (id def_name : Str) → Definition → Str
  unfolding struct_code definition_name
  generate_procedure_code id def_name def =
      part_struct (str "Input") (str "input") id (definition_name id def_name) def.input
      ++ part_struct (str "Output") (str "output") id (definition_name id def_name) def.output

  -- generateRecordCode
  unfoldable pub generate_record_code : (id def_name : Str) → Definition → Str
  unfolding struct_code definition_name
  generate_record_code id def_name def =
      let name = definition_name id def_name in
      optional_struct (name ++ (str " represents a " ++ (id ++ str " record"))) name id
        def.record_fields

  -- generateObjectCode
  unfoldable pub generate_object_code : (id def_name : Str) → Definition → Str
  unfolding struct_code to_type_name to_field_name
  generate_object_code id def_name def =
      let name = to_type_name id ++ to_field_name def_name in
      struct_code (name ++ (str " represents a " ++ (def_name ++ str " object"))) name id def.fields

  -- The switch of generateCode
  unfoldable pub definition_code : (id def_name : Str) → Definition → Str
  unfolding generate_query_code generate_procedure_code generate_record_code generate_object_code
      str_eq
  definition_code id def_name def =
      if str_eq def.type (str "query")
      then generate_query_code id def_name def
      else (if str_eq def.type (str "procedure")
          then generate_procedure_code id def_name def
          else (if str_eq def.type (str "record")
              then generate_record_code id def_name def
              else (if str_eq def.type (str "object")
                  then generate_object_code id def_name def
                  else [])))

  -- The loop of generateCode over the definitions, by their names as Go meets them.
  unfoldable pub definitions_code : Lexicon → (names : List Str) → Str
  unfolding definition_code find
  definitions_code lexicon [] = []
  definitions_code lexicon (name ∷ names) =
      (elim (find name lexicon.defs) [ none ↦ [] | some def ↦ definition_code lexicon.id name def ])
      ++ definitions_code lexicon names

  -- generateCode
  unfoldable pub generate_code : Lexicon → Package → GeneratedFile
  unfolding definitions_code underscored trim_prefix
  generate_code lexicon config = record {
    name = underscored (trim_prefix lexicon.id (config.prefix ++ str ".")) ++ str ".go";
    package_name = config.go_package;
    content =
        str "package "
        ++ (config.go_package
            ++ (newline
                ++ (newline
                    ++ (str "// Code generated by lexgen. DO NOT EDIT."
                        ++ (newline
                            ++ (newline
                                ++ definitions_code lexicon (iterate (keys lexicon.defs))))))));
  }
