-- ===== src/Schema/Build.antt =====
-- src/schema.cpp: validation of types, the constructor of `Schema`, and `SchemaBuilder`.
use zen.Prelude.{Bool, List, Option, [], bytes_eq, codes, false, none, some, true, ℕ, ◌++◌, ◌||◌}
use zen.Prelude.{◌∷◌}
use zen.Binary.{Bytes}
use zen.Failure.{Throws, invalid_argument, ok, refuse_if, throw, ◌>>=◌, ◌>>◌}
use zen.Schema.{Fields, Kind, Schema, TypeRef, compute_content_id, field, no_fields, schema}

mutual
  -- A `TypeRef` as a caller writes it: the kind, the nested schema, the element type.
  pub data RawType : Type 0 where
    raw : Kind → Option Schema → Element → RawType

  pub data Element : Type 0 where
    no_element : Element
    element : RawType → Element

pub record RawField : Type 0 where
  pub name : Bytes
  pub type : RawType
  pub required : Bool

unfoldable pub validate_typeref : RawType → Throws TypeRef
validate_typeref (raw Kind.message none e) =
    throw (invalid_argument (codes "Message type requires a nested schema"))
validate_typeref (raw Kind.message (some s) (element t)) =
    throw (invalid_argument (codes "Message type must not carry a list element"))
validate_typeref (raw Kind.message (some s) no_element) = ok (TypeRef.message s)
validate_typeref (raw Kind.list m no_element) =
    throw (invalid_argument (codes "List type requires an element type"))
validate_typeref (raw Kind.list (some s) (element t)) =
    throw (invalid_argument (codes "List type must not carry a message schema"))
validate_typeref (raw Kind.list none (element t)) = do t' ← validate_typeref t; ok (TypeRef.list t')
validate_typeref (raw Kind.int none no_element) = ok TypeRef.int
validate_typeref (raw Kind.float none no_element) = ok TypeRef.float
validate_typeref (raw Kind.text none no_element) = ok TypeRef.text
validate_typeref (raw Kind.bool none no_element) = ok TypeRef.bool
validate_typeref (raw Kind.bytes none no_element) = ok TypeRef.bytes
validate_typeref (raw k m e) =
    throw (invalid_argument (codes "primitive type must not carry a schema or element"))

-- `type_of`, `type_message` and `type_list`.
unfoldable pub type_of : Kind → Throws RawType
type_of Kind.message =
    throw (invalid_argument (codes "type_of is for primitive kinds; use type_message/type_list"))
type_of Kind.list =
    throw (invalid_argument (codes "type_of is for primitive kinds; use type_message/type_list"))
type_of k = ok (raw k none no_element)

unfoldable pub type_message : Option Schema → Throws RawType
type_message none = throw (invalid_argument (codes "type_message requires a non-null schema"))
type_message (some s) = ok (raw Kind.message (some s) no_element)

unfoldable pub type_list : RawType → RawType
type_list t = raw Kind.list none (element t)

-- The set of the names seen so far.
unfoldable pub contains_name : Bytes → List Bytes → Bool
contains_name name [] = false
contains_name name (n ∷ seen) = bytes_eq name n || contains_name name seen

unfoldable pub is_empty : Bytes → Bool
is_empty [] = true
is_empty (c ∷ s) = false

-- The loop of the constructor of `Schema` over the fields.
unfoldable pub check_fields : List RawField → List Bytes → Throws Fields
unfolding contains_name is_empty validate_typeref
check_fields [] seen = ok no_fields
check_fields (f ∷ fs) seen = do
  refuse_if (is_empty f.name) (codes "field name must not be empty")
  refuse_if (contains_name f.name seen) (codes "duplicate field name '" ++ (f.name ++ codes "'"))
  t ← validate_typeref f.type
  rest ← check_fields fs (f.name ∷ seen)
  ok (field f.name t f.required rest)

-- The constructor of `Schema`; `make_schema` wraps its result in a shared pointer.
unfoldable pub make_schema : Bytes → ℕ → List RawField → Throws Schema
unfolding check_fields compute_content_id
make_schema name version fields = do
  fs ← check_fields fields []
  ok (schema name version fs (compute_content_id name version fs))

pub record SchemaBuilder : Type 0 where
  pub name : Bytes
  pub version : ℕ
  pub fields : List RawField

unfoldable pub schema_builder : Bytes → ℕ → SchemaBuilder
schema_builder n v = record { name = n; version = v; fields = [] }

unfoldable pub builder_add : SchemaBuilder → RawField → SchemaBuilder
builder_add b f = record b { fields = b.fields ++ f ∷ [] }

unfoldable pub builder_field : SchemaBuilder → Bytes → Kind → Bool → Throws SchemaBuilder
unfolding builder_add type_of
builder_field b n k r = do
  t ← type_of k
  ok (builder_add b (record { name = n; type = t; required = r }))

unfoldable pub builder_message : SchemaBuilder → Bytes → Option Schema → Bool → Throws SchemaBuilder
unfolding builder_add type_message
builder_message b n s r = do
  t ← type_message s
  ok (builder_add b (record { name = n; type = t; required = r }))

unfoldable pub builder_list : SchemaBuilder → Bytes → RawType → Bool → SchemaBuilder
unfolding builder_add type_list
builder_list b n t r = builder_add b (record { name = n; type = type_list t; required = r })

unfoldable pub builder_build : SchemaBuilder → Throws Schema
unfolding make_schema
builder_build b = make_schema b.name b.version b.fields
