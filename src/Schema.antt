-- ===== src/Schema.antt =====
-- include/zen/kind.hpp, include/zen/schema.hpp and src/schema.cpp: kinds, types and schemas.
-- A `TypeRef` of the source is a kind with two pointers, of which its comment allows seven shapes.
-- What a caller hands over is a `RawType`, kind and pointers as they stand; the constructor of
-- `Schema` refuses all but the seven shapes, so what a schema holds is a `TypeRef` of the model,
-- with one constructor for each shape. A schema is immutable and has no other constructor.
pub mod Build
pub mod Distinct
use zen.Prelude.{Bool, Option, bytes_eq, codes, if◌then◌else◌, none, some, suc, ℕ, ◌&&◌, ◌++◌}
use zen.Prelude.{◌==◌}
use zen.Binary.{Bytes}
use zen.Failure.{to_string}
use zen.Hash.{fnv_offset, hash_byte, hash_field, hash_u64}

pub data Kind : Type 0 where
  int float text bool bytes message list : Kind

unfoldable pub kind_name : Kind → Bytes
kind_name Kind.int = codes "Int"
kind_name Kind.float = codes "Float"
kind_name Kind.text = codes "Text"
kind_name Kind.bool = codes "Bool"
kind_name Kind.bytes = codes "Bytes"
kind_name Kind.message = codes "Message"
kind_name Kind.list = codes "List"

-- The enumerator's number, which is on the wire by way of the content id.
unfoldable pub kind_code : Kind → ℕ
kind_code Kind.int = 0
kind_code Kind.float = 1
kind_code Kind.text = 2
kind_code Kind.bool = 3
kind_code Kind.bytes = 4
kind_code Kind.message = 5
kind_code Kind.list = 6

infix 50 ◌==ₖ◌
unfoldable pub ◌==ₖ◌ : Kind → Kind → Bool
unfolding kind_code
a ==ₖ b = kind_code a == kind_code b

mutual
  pub data TypeRef : Type 0 where
    int float text bool bytes : TypeRef
    message : Schema → TypeRef
    list : TypeRef → TypeRef

  -- Name, version, fields and content id.
  pub data Schema : Type 0 where
    schema : Bytes → ℕ → Fields → ℕ → Schema

  -- The vector of fields: name, type and `required` of the first, and the others.
  pub data Fields : Type 0 where
    no_fields : Fields
    field : Bytes → TypeRef → Bool → Fields → Fields

unfoldable pub kind_of : TypeRef → Kind
kind_of TypeRef.int = Kind.int
kind_of TypeRef.float = Kind.float
kind_of TypeRef.text = Kind.text
kind_of TypeRef.bool = Kind.bool
kind_of TypeRef.bytes = Kind.bytes
kind_of (TypeRef.message s) = Kind.message
kind_of (TypeRef.list t) = Kind.list

abbrev pub schema_name : Schema → Bytes
schema_name (schema name version fs cid) = name

abbrev pub schema_version : Schema → ℕ
schema_version (schema name version fs cid) = version

abbrev pub schema_fields : Schema → Fields
schema_fields (schema name version fs cid) = fs

abbrev pub content_id : Schema → ℕ
content_id (schema name version fs cid) = cid

unfoldable pub same_identity : Schema → Schema → Bool
same_identity a b =
    bytes_eq (schema_name a) (schema_name b)
    && (schema_version a == schema_version b && content_id a == content_id b)

abbrev pub field_count : Fields → ℕ
field_count no_fields = 0
field_count (field name type required fs) = suc (field_count fs)

-- `Schema::find`.
pub record FieldView : Type 0 where
  pub name : Bytes
  pub type : TypeRef
  pub required : Bool

unfoldable pub find_field : Fields → Bytes → Option FieldView
find_field no_fields name = none
find_field (field n t r fs) name =
    if bytes_eq n name
    then some (record { name = n; type = t; required = r })
    else find_field fs name

-- The content id.
unfoldable pub hash_typeref : TypeRef → ℕ → ℕ
unfolding kind_of kind_code hash_byte hash_u64
hash_typeref (TypeRef.message s) h = hash_u64 (hash_byte h 5) (content_id s)
hash_typeref (TypeRef.list t) h = hash_typeref t (hash_byte h 6)
hash_typeref t h = hash_byte h (kind_code (kind_of t))

unfoldable pub hash_fields : Fields → ℕ → ℕ
unfolding hash_typeref hash_field hash_byte
hash_fields no_fields h = h
hash_fields (field name type required fs) h =
    hash_fields fs (hash_typeref type (hash_byte (hash_field h name) (if required then 1 else 0)))

unfoldable pub compute_content_id : Bytes → ℕ → Fields → ℕ
unfolding hash_fields hash_field hash_u64
compute_content_id name version fs =
    hash_fields fs (hash_u64 (hash_u64 (hash_field fnv_offset name) version) (field_count fs))

-- `version_label` and `type_label`, which gate.cpp and serialize.cpp both define.
unfoldable pub version_label : Schema → Bytes
unfolding to_string
version_label s = schema_name s ++ (codes " v" ++ to_string (schema_version s))

unfoldable pub type_label : TypeRef → Bytes
unfolding version_label kind_name kind_of
type_label (TypeRef.message s) = codes "Message(" ++ (version_label s ++ codes ")")
type_label (TypeRef.list t) = codes "List<" ++ (type_label t ++ codes ">")
type_label t = kind_name (kind_of t)
