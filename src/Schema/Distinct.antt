-- ===== src/Schema/Distinct.antt =====
-- What the constructor of `Schema` accepts.
use zen.Prelude.{List, [], ap, arith, bytes_eq, bytes_eq_ne, bytes_eq_refl, false, none, refl}
use zen.Prelude.{some, sym, ℕ, ◌↔◌, ◌∙◌, ◌∷◌, ◌≡◌, ◌≢◌}
use zen.Binary.{Bytes}
use zen.Failure.{>>=-eq-ok, ok, ok-injective, refuse_if, refuse_if-eq-ok}
use zen.Schema.{Fields, Kind, Schema, TypeRef, compute_content_id, field, no_fields, schema}
use zen.Schema.Build.{RawField, RawType, check_fields, contains_name, element, is_empty}
use zen.Schema.Build.{make_schema, no_element, raw, validate_typeref}
use mathlib.Core.Path.{ap₂}

-- A type as its caller wrote it.
unfoldable pub erase_type : TypeRef → RawType
erase_type TypeRef.int = raw Kind.int none no_element
erase_type TypeRef.float = raw Kind.float none no_element
erase_type TypeRef.text = raw Kind.text none no_element
erase_type TypeRef.bool = raw Kind.bool none no_element
erase_type TypeRef.bytes = raw Kind.bytes none no_element
erase_type (TypeRef.message s) = raw Kind.message (some s) no_element
erase_type (TypeRef.list t) = raw Kind.list none (element (erase_type t))

unfoldable pub erase_fields : Fields → List RawField
unfolding erase_type
erase_fields no_fields = []
erase_fields (field n t r fs) =
    record { name = n; type = erase_type t; required = r } ∷ erase_fields fs

-- No field of that name.
abbrev pub Absent : Bytes → Fields → Type 0
Absent name no_fields = Unit
Absent name (field n t r fs) = (name ≢ n) × Absent name fs

-- The names are not empty, and no two fields share one.
abbrev pub IsDistinct : Fields → Type 0
IsDistinct no_fields = Unit
IsDistinct (field n t r fs) = (n ≢ []) × Absent n fs × IsDistinct fs

validate_typeref-erase_type : (t : TypeRef) → validate_typeref (erase_type t) ≡ ok t
unfolding validate_typeref erase_type
validate_typeref-erase_type TypeRef.int = refl
validate_typeref-erase_type (TypeRef.list t) = rw (validate_typeref-erase_type t)
validate_typeref-erase_type _ = refl

erase_type-validate_typeref :
    (r : RawType) (t : TypeRef) → validate_typeref r ≡ ok t → r ≡ erase_type t
unfolding validate_typeref erase_type
erase_type-validate_typeref (raw Kind.message none e) t h = cc
erase_type-validate_typeref (raw Kind.message (some s) no_element) t h =
    ap erase_type (ok-injective h)
erase_type-validate_typeref (raw Kind.message (some s) (element e)) t h = cc
erase_type-validate_typeref (raw Kind.list m no_element) t h = cc
erase_type-validate_typeref (raw Kind.list none (element e)) t h =
    let (t', et, done) = >>=-eq-ok (validate_typeref e) _ h in
    ap (λ (r : RawType). raw Kind.list none (element r)) (erase_type-validate_typeref e t' et)
    ∙ ap erase_type (ok-injective done)
erase_type-validate_typeref (raw Kind.list (some s) (element e)) t h = cc
erase_type-validate_typeref (raw Kind.int none no_element) t h = ap erase_type (ok-injective h)
erase_type-validate_typeref (raw k none no_element) t h = ap erase_type (ok-injective h)
erase_type-validate_typeref (raw k m e) t h = cc

is_empty_ne : (n : Bytes) → n ≢ [] → is_empty n ≡ false
unfolding is_empty
is_empty_ne [] h = absurd (h refl)
is_empty_ne (c ∷ n) h = refl

not-is_empty : (n : Bytes) → is_empty n ≡ false → n ≢ []
unfolding is_empty
not-is_empty [] h = cc
not-is_empty (c ∷ n) h = λ e. cc

-- The fields' names were not seen before, nor among themselves.
abbrev Fresh : List Bytes → Fields → Type 0
Fresh seen no_fields = Unit
Fresh seen (field n t r fs) = (n ≢ []) × (contains_name n seen ≡ false) × Fresh (n ∷ seen) fs

check_fields-Fresh :
    (fields : List RawField) (seen : List Bytes) (fs : Fields)
    → check_fields fields seen ≡ ok fs
    → (fields ≡ erase_fields fs) × Fresh seen fs
unfolding check_fields erase_fields
check_fields-Fresh [] seen fs h = rw (← ok-injective h) (refl, tt)
check_fields-Fresh (f ∷ fields) seen fs h =
    let (u, named, h₁) = >>=-eq-ok (refuse_if (is_empty f.name) _) _ h in
    let (w, new, h₂) = >>=-eq-ok (refuse_if (contains_name f.name seen) _) _ h₁ in
    let (t, et, h₃) = >>=-eq-ok (validate_typeref f.type) _ h₂ in
    let (rest, er, h₄) = >>=-eq-ok (check_fields fields (f.name ∷ seen)) _ h₃ in
    let (same, fresh) = check_fields-Fresh fields (f.name ∷ seen) rest er in
    rw (← ok-injective h₄) (
      ap₂ (λ (y : RawType) (l : List RawField). record f { type = y } ∷ l)
          (erase_type-validate_typeref f.type t et) same,
      (not-is_empty f.name (refuse_if-eq-ok _ _ named), refuse_if-eq-ok _ _ new, fresh),
    )

Fresh-check_fields :
    (fs : Fields) (seen : List Bytes) → Fresh seen fs → check_fields (erase_fields fs) seen ≡ ok fs
unfolding check_fields erase_fields
Fresh-check_fields no_fields seen fresh = refl
Fresh-check_fields (field n t r fs) seen (named, new, fresh) = rw (
  is_empty_ne n named,
  new,
  validate_typeref-erase_type t,
  Fresh-check_fields fs (n ∷ seen) fresh,
)

abbrev Unseen : List Bytes → Fields → Type 0
Unseen seen no_fields = Unit
Unseen seen (field n t r fs) = (contains_name n seen ≡ false) × Unseen seen fs

contains_name-cons :
    (m n : Bytes) (seen : List Bytes)
    → contains_name m (n ∷ seen) ≡ false
    → (n ≢ m) × (contains_name m seen ≡ false)
unfolding contains_name
contains_name-cons m n seen h =
    ((λ e. ground (arith, bytes_eq_refl m, ap (bytes_eq m) e, h)), ground (arith, h))

contains_name_new :
    (m n : Bytes) (seen : List Bytes)
    → n ≢ m
    → contains_name m seen ≡ false
    → contains_name m (n ∷ seen) ≡ false
unfolding contains_name
contains_name_new m n seen ne new = rw (bytes_eq_ne m n (λ e. ne (sym e)), new)

Unseen-split :
    (fs : Fields) (n : Bytes) (seen : List Bytes)
    → Unseen (n ∷ seen) fs
    → Absent n fs × Unseen seen fs
Unseen-split no_fields n seen u = (tt, tt)
Unseen-split (field m t r fs) n seen (new, u) =
    let (ne, old) = contains_name-cons m n seen new in
    let (absent, u') = Unseen-split fs n seen u in ((ne, absent), (old, u'))

Unseen-join :
    (fs : Fields) (n : Bytes) (seen : List Bytes)
    → Absent n fs
    → Unseen seen fs
    → Unseen (n ∷ seen) fs
Unseen-join no_fields n seen absent u = tt
Unseen-join (field m t r fs) n seen (ne, absent) (old, u) =
    (contains_name_new m n seen ne old, Unseen-join fs n seen absent u)

Fresh-IsDistinct :
    (fs : Fields) (seen : List Bytes) → Fresh seen fs → IsDistinct fs × Unseen seen fs
Fresh-IsDistinct no_fields seen fresh = (tt, tt)
Fresh-IsDistinct (field n t r fs) seen (named, new, fresh) =
    let (distinct, u) = Fresh-IsDistinct fs (n ∷ seen) fresh in
    let (absent, u') = Unseen-split fs n seen u in ((named, absent, distinct), (new, u'))

IsDistinct-Fresh :
    (fs : Fields) (seen : List Bytes) → IsDistinct fs → Unseen seen fs → Fresh seen fs
IsDistinct-Fresh no_fields seen distinct u = tt
IsDistinct-Fresh (field n t r fs) seen (named, absent, distinct) (new, u) =
    (named, new, IsDistinct-Fresh fs (n ∷ seen) distinct (Unseen-join fs n seen absent u))

Unseen-nil : (fs : Fields) → Unseen [] fs
unfolding contains_name
Unseen-nil no_fields = tt
Unseen-nil (field n t r fs) = (refl, Unseen-nil fs)

-- The constructor of `Schema` accepts a list of fields exactly when every name is given, no two
-- are equal and every type has one of the seven shapes; the schema then holds those very fields
-- in their order, with the name and version given and the content id computed from all of them.
pub make_schema_iff :
    (name : Bytes) (version : ℕ) (fields : List RawField) (s : Schema)
    → (make_schema name version fields ≡ ok s) ↔ (
        (fs : Fields) × (s ≡ schema name version fs (compute_content_id name version fs))
        × (fields ≡ erase_fields fs)
        × IsDistinct fs)
unfolding make_schema
make_schema_iff name version fields s = (built, build)
  where
    built :
        make_schema name version fields ≡ ok s
        → (fs : Fields) × (s ≡ schema name version fs (compute_content_id name version fs))
          × (fields ≡ erase_fields fs)
          × IsDistinct fs
    built h =
        let (fs, e, done) = >>=-eq-ok (check_fields fields []) _ h in
        let (same, fresh) = check_fields-Fresh fields [] fs e in
        (fs, sym (ok-injective done), same, (Fresh-IsDistinct fs [] fresh).0)

    build :
        ((fs : Fields) × (s ≡ schema name version fs (compute_content_id name version fs))
          × (fields ≡ erase_fields fs)
          × IsDistinct fs)
        → make_schema name version fields ≡ ok s
    build (fs, es, ef, distinct) =
        rw (ef, Fresh-check_fields fs [] (IsDistinct-Fresh fs [] distinct (Unseen-nil fs)), es)
