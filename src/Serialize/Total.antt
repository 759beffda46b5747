-- ===== src/Serialize/Total.antt =====
-- src/serialize.cpp: the decoder catches every failure: the gate for bytes never throws.
use zen.Prelude.{Bool, Bool-cases, Option, [], ap, arith, bytes_eq, bytes_eq_refl, codes, false}
use zen.Prelude.{if◌then◌else◌, inl, inr, length, ltb, none, not, refl, some, subst, suc, sym}
use zen.Prelude.{true, zero, ℕ, ◌+◌, ◌==◌, ◌||◌, ◌∷◌, ◌≡◌}
use zen.Binary.{Bytes, f64le, max_binary_depth, max_field_bytes, max_list_count, take_bytes, u8}
use zen.Binary.{uvarint, zigzag}
use zen.Failure.{Throws, ok, throw}
use zen.Schema.{Fields, Schema, TypeRef, content_id, field, field_count, no_fields, schema}
use zen.Schema.{schema_fields, schema_name, schema_version, type_label}
use zen.Value.{Cell, Slots, Value, absent, empty_slots, make_value, no_slots, present, set_slot}
use zen.Value.{value}
use zen.Gate.{Admission, Error, ErrorKind, Report, field_path, index_path, is_full}
use zen.Gate.{malformed_bytes, malformed_field}
use zen.Utf8.{valid_utf8}
use zen.Serialize.Encode.{mask_size}
use zen.Serialize.Decode.{Outcome, decode_body, decode_bool, decode_cell, decode_elements}
use zen.Serialize.Decode.{decode_fields, decode_list, decode_mask, decode_primitive, decode_run}
use zen.Serialize.Decode.{decode_slot, decode_text, done, fail, fatal, mask_bit, padding_clear}
use zen.Serialize.Decode.{read_or, store_field, then_do, uncaught}
use zen.Serialize.Envelope.{Unverified, admit_against, admit_bytes, claim, judge, malformed}
use zen.Serialize.Envelope.{parse}
use zen.Serialize.Filling.{Aligned, join_fields, join_fields_next}
use zen.Serialize.RoundTrip.{set_field_stored}

-- A result or a recorded error, and no exception.
data IsCaught {A : Type 0} (P : A → Type 0) : Outcome A → Type 0 where
  gives : {a : A} {r : Bytes} → P a → IsCaught P (done a r)
  stops : {e : Error} → IsCaught P (fatal e)

abbrev Whatever : {A : Type 0} → A → Type 0
Whatever a = Unit

IsCaught-then_do :
    {A B : Type 0} {P : A → Type 0} {Q : B → Type 0} {o : Outcome A} {next : A → Bytes → Outcome B}
    → IsCaught P o
    → ((a : A) (r : Bytes) → P a → IsCaught Q (next a r))
    → IsCaught Q (then_do o next)
IsCaught-then_do (gives {a} {r} p) k = k a r p
IsCaught-then_do stops k = stops

IsCaught-if :
    {A : Type 0} {P : A → Type 0} (b : Bool) {o o' : Outcome A}
    → IsCaught P o
    → IsCaught P o'
    → IsCaught P (if b then o else o')
IsCaught-if true h h' = h
IsCaught-if false h h' = h'

fail-IsCaught :
    {A : Type 0} {P : A → Type 0} (k : ErrorKind) (path expected detail : Bytes)
    → IsCaught P (fail {A = A} k path expected detail)
unfolding fail
fail-IsCaught k path expected detail = stops

read_or-IsCaught :
    {A : Type 0} (o : Option (A × Bytes)) {failure : Outcome A}
    → IsCaught Whatever failure
    → IsCaught Whatever (read_or o failure)
read_or-IsCaught none h = h
read_or-IsCaught (some (a, r)) h = gives tt

decode_run-IsCaught : (label path r : Bytes) → IsCaught Whatever (decode_run label path r)
unfolding decode_run
decode_run-IsCaught label path r =
    IsCaught-then_do (read_or-IsCaught (uvarint r) (fail-IsCaught malformed_field path label _))
      λ len r' p.
        IsCaught-if (ltb max_field_bytes len || ltb (length r') len)
          (fail-IsCaught malformed_field path label _) (gives tt)

decode_text-IsCaught : (path r : Bytes) → IsCaught Whatever (decode_text path r)
unfolding decode_text
decode_text-IsCaught path r = IsCaught-then_do (decode_run-IsCaught (codes "Text") path r) λ s r' p.
    IsCaught-if (valid_utf8 s) (gives tt) (fail-IsCaught malformed_field path (codes "Text") _)

decode_bool-IsCaught : (path : Bytes) (b : ℕ) (r : Bytes) → IsCaught Whatever (decode_bool path b r)
unfolding decode_bool
decode_bool-IsCaught path b r =
    IsCaught-if (ltb 1 b) (fail-IsCaught malformed_field path (codes "Bool") _) (gives tt)

decode_bytes-IsCaught :
    (path r : Bytes)
    → IsCaught Whatever
        (then_do (decode_run (codes "Bytes") path r) (λ s r'. done (Cell.bytes s) r'))
decode_bytes-IsCaught path r =
    IsCaught-then_do (decode_run-IsCaught (codes "Bytes") path r) λ s r' p. gives tt

decode_primitive-IsCaught :
    (t : TypeRef) (path r : Bytes) → IsCaught Whatever (decode_primitive t path r)
unfolding decode_primitive
decode_primitive-IsCaught TypeRef.int path r =
    IsCaught-then_do
      (read_or-IsCaught (zigzag r) (fail-IsCaught malformed_field path (codes "Int") _))
      λ v r' p. gives tt
decode_primitive-IsCaught TypeRef.float path r =
    IsCaught-then_do
      (read_or-IsCaught (f64le r) (fail-IsCaught malformed_field path (codes "Float") _))
      λ v r' p. gives tt
decode_primitive-IsCaught TypeRef.text path r = decode_text-IsCaught path r
decode_primitive-IsCaught TypeRef.bool path r =
    IsCaught-then_do (read_or-IsCaught (u8 r) (fail-IsCaught malformed_field path (codes "Bool") _))
      λ b r' p. decode_bool-IsCaught path b r'
decode_primitive-IsCaught TypeRef.bytes path r = decode_bytes-IsCaught path r
decode_primitive-IsCaught (TypeRef.message s) path r = decode_bytes-IsCaught path r
decode_primitive-IsCaught (TypeRef.list t) path r = decode_bytes-IsCaught path r

decode_elements-IsCaught :
    (decode : Bytes → Bytes → Outcome Cell)
    → ((path r : Bytes) → IsCaught Whatever (decode path r))
    → (left k : ℕ) (path r : Bytes) → IsCaught Whatever (decode_elements decode left k path r)
unfolding decode_elements
decode_elements-IsCaught decode d zero k path r = gives tt
decode_elements-IsCaught decode d (suc left) k path r =
    IsCaught-then_do (d (index_path path k) r) λ c r' p.
      IsCaught-then_do (decode_elements-IsCaught decode d left (k + 1) path r') λ cs r'' q. gives tt

decode_list-IsCaught :
    (decode : Bytes → Bytes → Outcome Cell) (t : TypeRef) (path r : Bytes)
    → ((path r : Bytes) → IsCaught Whatever (decode path r))
    → IsCaught Whatever (decode_list decode t path r)
unfolding decode_list
decode_list-IsCaught decode t path r d =
    IsCaught-then_do
      (read_or-IsCaught (uvarint r)
        (fail-IsCaught malformed_field path (type_label (TypeRef.list t)) _))
      λ count r' p.
        IsCaught-if (ltb max_list_count count)
          (fail-IsCaught malformed_field path (type_label (TypeRef.list t)) _)
          (IsCaught-then_do (decode_elements-IsCaught decode d count 0 path r')
            λ cs r'' q. gives tt)

decode_mask-IsCaught : (n : ℕ) (base r : Bytes) → IsCaught Whatever (decode_mask n base r)
unfolding decode_mask
decode_mask-IsCaught n base r =
    IsCaught-then_do
      (read_or-IsCaught (take_bytes (mask_size n) r) (fail-IsCaught malformed_bytes base [] _))
      λ mask r' p.
        IsCaught-if (padding_clear mask n) (gives tt) (fail-IsCaught malformed_bytes base [] _)

-- A field of the schema can always be set.
set_slot-Aligned :
    (pf fs : Fields) (n : Bytes) (t : TypeRef) (q : Bool) (slots : Slots) (c : Cell)
    → Aligned (join_fields pf (field n t q fs)) slots
    → (slots' : Slots) × (set_slot (join_fields pf (field n t q fs)) slots n c ≡ some slots')
      × Aligned (join_fields pf (field n t q fs)) slots'
unfolding set_slot
set_slot-Aligned no_fields fs n t q no_slots c h = absurd (omega (arith, h))
set_slot-Aligned no_fields fs n t q (absent slots) c h =
    (present c slots, rw (bytes_eq_refl n) refl, h)
set_slot-Aligned no_fields fs n t q (present d slots) c h =
    (present c slots, rw (bytes_eq_refl n) refl, h)
set_slot-Aligned (field k u p pf) fs n t q no_slots c h = absurd (omega (arith, h))
set_slot-Aligned (field k u p pf) fs n t q (absent slots) c h = elim (Bool-cases (bytes_eq k n)) [
  | inl same ↦ (present c slots, rw same refl, h)
  | inr other ↦
      let (slots', e, h') = set_slot-Aligned pf fs n t q slots c (omega (arith, h)) in
      (absent slots', rw (other, e) refl, omega (arith, h'))
]
set_slot-Aligned (field k u p pf) fs n t q (present d slots) c h =
    elim (Bool-cases (bytes_eq k n)) [
      | inl same ↦ (present c slots, rw same refl, h)
      | inr other ↦
          let (slots', e, h') = set_slot-Aligned pf fs n t q slots c (omega (arith, h)) in
          (present d slots', rw (other, e) refl, omega (arith, h'))
    ]

-- A value of the schema with a slot for each field.
abbrev IsFull : Schema → Value → Type 0
IsFull s v = (slots : Slots) × (v ≡ value s slots) × Aligned (schema_fields s) slots

store_field-IsCaught :
    (name : Bytes) (version cid : ℕ) (pf fs : Fields) (n : Bytes) (t : TypeRef) (q : Bool)
    (slots : Slots) (c : Cell) (r : Bytes)
    → Aligned (join_fields pf (field n t q fs)) slots
    → IsCaught (IsFull (schema name version (join_fields pf (field n t q fs)) cid)) (
        store_field (value (schema name version (join_fields pf (field n t q fs)) cid) slots) n c r)
store_field-IsCaught name version cid pf fs n t q slots c r h =
    let (slots', e, h') = set_slot-Aligned pf fs n t q slots c h in
    subst
      (λ stored.
        IsCaught (IsFull (schema name version (join_fields pf (field n t q fs)) cid))
          (elim stored [ ok out ↦ done out r | throw x ↦ uncaught x ]))
      (sym (set_field_stored name version cid (join_fields pf (field n t q fs)) slots slots' n c e))
      (gives (slots', refl, h'))

decode_slot-IsCaught :
    (decode : Bytes → Bytes → Outcome Cell)
    → ((path r : Bytes) → IsCaught Whatever (decode path r))
    → (name : Bytes) (version cid : ℕ) (pf fs : Fields) (n : Bytes) (t : TypeRef) (q : Bool)
      (b : Bool) (out : Value) (base r : Bytes)
    → IsFull (schema name version (join_fields pf (field n t q fs)) cid) out
    → IsCaught
        (IsFull (schema name version (join_fields pf (field n t q fs)) cid))
        (decode_slot decode n b out base r)
unfolding decode_slot
decode_slot-IsCaught decode d name version cid pf fs n t q false out base r whole = gives whole
decode_slot-IsCaught decode d name version cid pf fs n t q true out base r (slots, e, h) =
    IsCaught-then_do (d (field_path base n) r) λ c r' p.
      subst
        (λ v.
          IsCaught (IsFull (schema name version (join_fields pf (field n t q fs)) cid))
            (store_field v n c r'))
        (sym e) (store_field-IsCaught name version cid pf fs n t q slots c r' h)

empty_slots-Aligned : (fs : Fields) → Aligned fs (empty_slots fs)
unfolding empty_slots
empty_slots-Aligned no_fields = refl
empty_slots-Aligned (field n t q fs) = ap suc (empty_slots-Aligned fs)

mutual
  unfolding decode_cell make_value

  decode_cell-IsCaught :
      (t : TypeRef) (d : ℕ) (path r : Bytes) → IsCaught Whatever (decode_cell t d path r)
  decode_cell-IsCaught (TypeRef.message s) d path r =
      IsCaught-if (ltb max_binary_depth d) (fail-IsCaught malformed_bytes path [] _)
        (IsCaught-then_do (decode_body-IsCaught s (d + 1) path r) λ v r' p. gives tt)
  decode_cell-IsCaught (TypeRef.list t) d path r =
      IsCaught-if (ltb max_binary_depth d) (fail-IsCaught malformed_bytes path [] _)
        (decode_list-IsCaught (decode_cell t (d + 1)) t path r (decode_cell-IsCaught t (d + 1)))
  decode_cell-IsCaught TypeRef.int d path r =
      IsCaught-if (ltb max_binary_depth d) (fail-IsCaught malformed_bytes path [] _)
        (decode_primitive-IsCaught TypeRef.int path r)
  decode_cell-IsCaught TypeRef.float d path r =
      IsCaught-if (ltb max_binary_depth d) (fail-IsCaught malformed_bytes path [] _)
        (decode_primitive-IsCaught TypeRef.float path r)
  decode_cell-IsCaught TypeRef.text d path r =
      IsCaught-if (ltb max_binary_depth d) (fail-IsCaught malformed_bytes path [] _)
        (decode_primitive-IsCaught TypeRef.text path r)
  decode_cell-IsCaught TypeRef.bool d path r =
      IsCaught-if (ltb max_binary_depth d) (fail-IsCaught malformed_bytes path [] _)
        (decode_primitive-IsCaught TypeRef.bool path r)
  decode_cell-IsCaught TypeRef.bytes d path r =
      IsCaught-if (ltb max_binary_depth d) (fail-IsCaught malformed_bytes path [] _)
        (decode_primitive-IsCaught TypeRef.bytes path r)

  decode_body-IsCaught :
      (s : Schema) (d : ℕ) (base r : Bytes) → IsCaught Whatever (decode_body s d base r)
  decode_body-IsCaught (schema name version fs cid) d base r =
      IsCaught-if (ltb max_binary_depth d) (fail-IsCaught malformed_bytes base [] _) (
        IsCaught-then_do (decode_mask-IsCaught (field_count fs) base r) λ mask r' p.
          decode_fields-IsCaught fs d 0 mask name version cid no_fields
            (value (schema name version fs cid) (empty_slots fs)) base r'
            (empty_slots fs, refl, empty_slots-Aligned fs))

  decode_fields-IsCaught :
      (fs : Fields) (d i : ℕ) (mask name : Bytes) (version cid : ℕ) (pf : Fields) (out : Value)
      (base r : Bytes)
      → IsFull (schema name version (join_fields pf fs) cid) out
      → IsCaught Whatever (decode_fields fs d i mask out base r)
  decode_fields-IsCaught no_fields d i mask name version cid pf out base r whole = gives tt
  decode_fields-IsCaught (field n t q fs) d i mask name version cid pf out base r whole =
      IsCaught-then_do
        (decode_slot-IsCaught (decode_cell t d) (decode_cell-IsCaught t d) name version cid pf fs n
          t q (mask_bit mask i) out base r whole)
        λ out' r' whole'.
          decode_fields-IsCaught fs d (i + 1) mask name version cid
            (join_fields pf (field n t q no_fields)) out' base r'
            (subst (λ all. IsFull (schema name version all cid) out')
              (sym (join_fields_next pf n t q fs)) whole')

-- A call that throws nothing.
abbrev pub IsTotal : Throws (Admission × ℕ) → Type 0
IsTotal call = (judged : Admission × ℕ) × (call ≡ ok judged)

IsTotal-if :
    (b : Bool) {call call' : Throws (Admission × ℕ)}
    → IsTotal call
    → IsTotal call'
    → IsTotal (if b then call else call')
IsTotal-if true h h' = h
IsTotal-if false h h' = h'

judge-IsTotal :
    (o : Outcome Value) (door : Schema) (all : Bool) (runs : ℕ)
    → IsCaught Whatever o
    → IsTotal (judge o door all runs)
unfolding judge
judge-IsTotal (done v []) door all runs (gives p) = (_, refl)
judge-IsTotal (done v (b ∷ rest)) door all runs (gives p) = (_, refl)
judge-IsTotal (fatal e) door all runs stops = (_, refl)
judge-IsTotal (uncaught x) door all runs h = elim h [ ]

admit_against-IsTotal :
    (name : Bytes) (version cid : ℕ) (body : Bytes) (door : Schema) (all : Bool) (runs : ℕ)
    → IsTotal (admit_against name version cid body door all runs)
unfolding admit_against
admit_against-IsTotal name version cid body door all runs =
    IsTotal-if (not (bytes_eq name (schema_name door)) || not (version == schema_version door))
      (_, refl)
      (IsTotal-if (not (cid == content_id door)) (_, refl)
        (judge-IsTotal (decode_body door 0 [] body) door all runs
          (decode_body-IsCaught door 0 [] body)))

pub admit_bytes-IsTotal :
    (u : Unverified) (door : Schema) (report : Report) (runs : ℕ)
    → IsTotal (admit_bytes u (some door) report runs)
unfolding admit_bytes
admit_bytes-IsTotal (malformed e) door report runs = (_, refl)
admit_bytes-IsTotal (claim name version cid body) door report runs =
    admit_against-IsTotal name version cid body door (is_full report) runs

-- The gate for native bytes is total: whatever the bytes, and whatever the door, it comes to an
-- admission, accepted or refused, and throws nothing.
pub admit_bytes-parse :
    (input : Bytes) (door : Schema) (report : Report) (runs : ℕ)
    → (judged : Admission × ℕ) × (admit_bytes (parse input) (some door) report runs ≡ ok judged)
admit_bytes-parse input door report runs = admit_bytes-IsTotal (parse input) door report runs
