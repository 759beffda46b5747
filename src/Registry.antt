-- ===== src/Registry.antt =====
-- include/zen/registry.hpp and src/registry.cpp: the store of published schemas.
-- The map is swapped as a whole under the exclusive lock, and a reader works on the map it took,
-- so a registry is the map that is current; the map is a list of keys with their schemas. A
-- registration is one step: it returns the map to be swapped in, or throws and leaves the old one.
pub mod Publish
use zen.Prelude.{Bool, List, Option, [], bytes_eq, codes, false, if◌then◌else◌, length, none}
use zen.Prelude.{some, true, ℕ, ◌&&◌, ◌++◌, ◌==◌, ◌∷◌}
use zen.Binary.{Bytes}
use zen.Failure.{Throws, invalid_argument, ok, schema_conflict, throw}
use zen.Schema.{Schema, content_id, schema_name, schema_version}

abbrev pub SchemaKey : Type 0
SchemaKey = Bytes × ℕ

unfoldable pub key_eq : SchemaKey → SchemaKey → Bool
key_eq (n, v) (m, w) = bytes_eq n m && v == w

abbrev pub Registry : Type 0
Registry = List (SchemaKey × Schema)

abbrev pub empty_registry : Registry
empty_registry = []

unfoldable pub find_schema : Registry → SchemaKey → Option Schema
unfolding key_eq
find_schema [] key = none
find_schema ((k, s) ∷ r) key = if key_eq k key then some s else find_schema r key

abbrev pub schema_key : Schema → SchemaKey
schema_key s = (schema_name s, schema_version s)

-- `Registration`: the canonical schema, and whether it was added.
pub record Registration : Type 0 where
  pub canonical : Schema
  pub inserted : Bool

-- The branches of `register_schema` on what the map holds under the schema's key.
unfoldable pub register_found : Registry → Schema → Option Schema → Throws (Registration × Registry)
register_found r s none =
    ok (record { canonical = s; inserted = true }, r ++ (schema_key s, s) ∷ [])
register_found r s (some existing) =
    if content_id existing == content_id s
    then ok (record { canonical = existing; inserted = false }, r)
    else throw
        (schema_conflict (schema_name s) (schema_version s) (content_id existing) (content_id s))

unfoldable pub register_schema : Registry → Option Schema → Throws (Registration × Registry)
register_schema r none =
    throw (invalid_argument (codes "Registry::register_schema requires a non-null schema"))
register_schema r (some s) = register_found r s (find_schema r (schema_key s))

unfoldable pub lookup_schema : Registry → Bytes → ℕ → Option Schema
lookup_schema r name version = find_schema r (name, version)

unfoldable pub contains_schema : Registry → Bytes → ℕ → Bool
contains_schema r name version = elim (lookup_schema r name version) [
  | none ↦ false
  | some s ↦ true
]

unfoldable pub registry_size : Registry → ℕ
registry_size r = length r
