-- ===== src/Registry/Publish.antt =====
-- src/registry.cpp: what a registration does to the schemas that are published.
use zen.Prelude.{==_iff, Bool-cases, List, Option, [], ap, arith, bytes_eq_refl, bytes_eq→eq}
use zen.Prelude.{false, if_false, if_true, if◌then◌else◌, inl, inr, length, length-append, none}
use zen.Prelude.{refl, some, subst, sym, true, ℕ, ◌++◌, ◌+◌, ◌==◌, ◌↔◌, ◌∙◌, ◌∷◌, ◌≡◌, ◌≢◌}
use zen.Binary.{Bytes}
use zen.Failure.{Exception, ok, ok-injective, schema_conflict, throw, throw-injective}
use zen.Schema.{Schema, content_id, schema_name, schema_version}
use zen.Registry.{Registration, Registry, SchemaKey, find_schema, key_eq, lookup_schema}
use zen.Registry.{register_found, register_schema, registry_size, schema_key}

pub key_eq→eq : (j k : SchemaKey) → key_eq j k ≡ true → j ≡ k
unfolding key_eq
key_eq→eq (n, v) (m, w) h = ground (arith, bytes_eq→eq n m)

pub key_eq_refl : (k : SchemaKey) → key_eq k k ≡ true
unfolding key_eq
key_eq_refl (n, v) = rw (bytes_eq_refl n) ((==_iff v v).1 refl)

find_schema-append :
    (r : Registry) (key : SchemaKey) (s : Schema) (j : SchemaKey)
    → find_schema r key ≡ none
    → find_schema (r ++ (key, s) ∷ []) j ≡ (if key_eq key j then some s else find_schema r j)
unfolding find_schema
find_schema-append [] key s j fresh = refl
find_schema-append ((k, t) ∷ r) key s j fresh =
    ground (arith, key_eq→eq k j, key_eq→eq key j, key_eq_refl key, find_schema-append r key s j)

length-append_one {ℓ} : {A : Type ℓ} (xs : List A) (x : A) → length (xs ++ x ∷ []) ≡ length xs + 1
length-append_one xs x = length-append xs (x ∷ [])

-- What `register_found` makes of the map, for a key looked up afterwards.
abbrev Published : Registry → Schema → SchemaKey → Registration × Registry → Type 0
Published r s key (g, r') =
    (find_schema r' key
      ≡ (if key_eq (schema_key s) key then some g.canonical else find_schema r key))
    × (content_id g.canonical ≡ content_id s)
    × (registry_size r' ≡ (if g.inserted then registry_size r + 1 else registry_size r))

found_already :
    (r : Registry) (s t : Schema) (key : SchemaKey)
    → find_schema r (schema_key s) ≡ some t
    → find_schema r key ≡ (if key_eq (schema_key s) key then some t else find_schema r key)
found_already r s t key found = elim (Bool-cases (key_eq (schema_key s) key)) [
  | inl same ↦
      ap (find_schema r) (sym (key_eq→eq (schema_key s) key same))
      ∙ found
      ∙ sym (if_true (key_eq (schema_key s) key) _ same)
  | inr other ↦ sym (if_false (key_eq (schema_key s) key) _ other)
]

register_found-Published :
    (r : Registry) (s : Schema) (key : SchemaKey) (found : Option Schema)
    (result : Registration × Registry)
    → find_schema r (schema_key s) ≡ found
    → register_found r s found ≡ ok result
    → Published r s key result
unfolding register_found registry_size
register_found-Published r s key none result fresh h =
    subst (Published r s key) (ok-injective h)
      (find_schema-append r (schema_key s) s key fresh, refl, length-append_one r _)
register_found-Published r s key (some t) result found h =
    elim (Bool-cases (content_id t == content_id s)) [
      | inl same ↦
          subst (Published r s key)
            (ok-injective (sym (if_true (content_id t == content_id s) _ same) ∙ h))
            (found_already r s t key found, (==_iff _ _).0 same, refl)
      | inr other ↦ cc (h, if_false (content_id t == content_id s) _ other)
    ]

-- What a registration that does not throw does: afterwards the schema's own key gives the
-- canonical schema, which has the same content id, every other key gives what it gave before, and
-- the store grows by one exactly if the schema is reported as inserted.
pub lookup_schema-register_schema :
    (r : Registry) (s : Schema) (name : Bytes) (version : ℕ) {g : Registration} {r' : Registry}
    → register_schema r (some s) ≡ ok (g, r')
    → (lookup_schema r' name version ≡ (
        if key_eq (schema_key s) (name, version)
        then some g.canonical
        else lookup_schema r name version))
      × (content_id g.canonical ≡ content_id s)
      × (registry_size r' ≡ (if g.inserted then registry_size r + 1 else registry_size r))
unfolding register_schema lookup_schema
lookup_schema-register_schema r s name version {g} {r'} h =
    register_found-Published r s (name, version) (find_schema r (schema_key s)) (g, r') refl h

register_found-frozen :
    (r : Registry) (s : Schema) (key : SchemaKey) (found : Option Schema) (g : Registration)
    (r' : Registry) (t : Schema)
    → find_schema r (schema_key s) ≡ found
    → find_schema r key ≡ some t
    → register_found r s found ≡ ok (g, r')
    → find_schema r' key ≡ some t
unfolding register_found
register_found-frozen r s key (some u) g r' t ef taken h =
    elim (Bool-cases (content_id u == content_id s)) [
      | inl same ↦
          subst (λ (q : Registration × Registry). find_schema q.1 key ≡ some t)
            (ok-injective (sym (if_true (content_id u == content_id s) _ same) ∙ h)) taken
      | inr other ↦ cc (h, if_false (content_id u == content_id s) _ other)
    ]
register_found-frozen r s key none g r' t ef taken h =
    subst (λ (q : Registration × Registry). find_schema q.1 key ≡ some t) (ok-injective h)
      (find_schema-append r (schema_key s) s key ef
        ∙ if_false (key_eq (schema_key s) key) _ other
        ∙ taken)
  where
    other : key_eq (schema_key s) key ≡ false
    other = elim (Bool-cases (key_eq (schema_key s) key)) [
      | inl same ↦ cc (ap (find_schema r) (key_eq→eq (schema_key s) key same), taken, ef)
      | inr e ↦ e
    ]

-- A published schema is frozen: no registration changes what a key that is taken gives.
pub register_schema_frozen :
    (r : Registry) (incoming : Option Schema) (name : Bytes) (version : ℕ) {t : Schema}
    {g : Registration} {r' : Registry}
    → lookup_schema r name version ≡ some t
    → register_schema r incoming ≡ ok (g, r')
    → lookup_schema r' name version ≡ some t
unfolding register_schema lookup_schema
register_schema_frozen r none name version taken h = cc
register_schema_frozen r (some s) name version {t} {g} {r'} taken h =
    register_found-frozen r s (name, version) (find_schema r (schema_key s)) g r' t refl taken h

==_ne : {a b : ℕ} → a ≢ b → (a == b) ≡ false
==_ne h = ground arith

register_found_throws :
    (r : Registry) (s : Schema) (e : Exception) (found : Option Schema)
    → find_schema r (schema_key s) ≡ found
    → register_found r s found ≡ throw e
    → (t : Schema) × (find_schema r (schema_key s) ≡ some t)
      × (content_id t ≢ content_id s)
      × (e ≡ schema_conflict (schema_name s) (schema_version s) (content_id t) (content_id s))
unfolding register_found
register_found_throws r s e none ef h = cc
register_found_throws r s e (some t) ef h = elim (Bool-cases (content_id t == content_id s)) [
  | inl same ↦ cc (h, if_true (content_id t == content_id s) _ same)
  | inr other ↦ (
    t,
    ef,
    (λ q. cc (other, (==_iff _ _).1 q)),
    sym (throw-injective (sym (if_false (content_id t == content_id s) _ other) ∙ h)),
  )
]

-- A registration throws a conflict exactly when its key is taken by a schema with another
-- content id; the exception names both ids.
pub register_schema-conflict_iff :
    (r : Registry) (s : Schema) (e : Exception)
    → (register_schema r (some s) ≡ throw e) ↔ (
        (t : Schema) × (lookup_schema r (schema_name s) (schema_version s) ≡ some t)
        × (content_id t ≢ content_id s)
        × (e ≡ schema_conflict (schema_name s) (schema_version s) (content_id t) (content_id s)))
unfolding register_schema lookup_schema register_found
register_schema-conflict_iff r s e =
    (register_found_throws r s e (find_schema r (schema_key s)) refl, conflict)
  where
    conflict :
        ((t : Schema) × (find_schema r (schema_key s) ≡ some t)
          × (content_id t ≢ content_id s)
          × (e ≡ schema_conflict (schema_name s) (schema_version s) (content_id t) (content_id s)))
        → register_found r s (find_schema r (schema_key s)) ≡ throw e
    conflict (t, found, differ, ee) =
        rw (found, ee) (if_false (content_id t == content_id s) _ (==_ne differ))
