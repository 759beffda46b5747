-- ===== src/Gate/Conforms.antt =====
-- What it means for a value to be a well-formed instance of a door, as a relation, and that the
-- validator of src/gate.cpp finds no offence exactly there.
use zen.Prelude.{==_iff, Bool, Bool-cases, List, Option, [], arith, false, if_true, inl, inr}
use zen.Prelude.{none, refl, some, true, ℕ, ◌++◌, ◌+◌, ◌==◌, ◌↔◌, ◌∙◌, ◌∷◌, ◌≡◌}
use zen.Prelude.Int.{ℤ}
use zen.Binary.{Bytes}
use zen.Schema.{Fields, Kind, Schema, TypeRef, content_id, field, kind_code, kind_of, no_fields}
use zen.Schema.{schema, schema_fields, ◌==ₖ◌}
use zen.Value.{Cell, Cells, Value, boolean, cell, cell_kind, get_field, integer, no_cells, real}
use zen.Value.{value_schema}
use zen.Gate.{field_path, index_path}
use zen.Gate.Offences.{cell_offences, cells_offences, fields_offences, list_offences}
use zen.Gate.Offences.{message_offences, primitive_offences, slot_offences}

mutual
  -- A cell is an instance of a type.
  pub data CellConforms : TypeRef → Cell → Type 0 where
    int_cell : (v : ℤ) → CellConforms TypeRef.int (integer v)
    float_cell : (bits : ℕ) → CellConforms TypeRef.float (real bits)
    text_cell : (s : Bytes) → CellConforms TypeRef.text (Cell.text s)
    bool_cell : (b : Bool) → CellConforms TypeRef.bool (boolean b)
    bytes_cell : (s : Bytes) → CellConforms TypeRef.bytes (Cell.bytes s)
    message_cell :
        {s : Schema} {v : Value}
        → content_id (value_schema v) ≡ content_id s
        → FieldsConform (schema_fields s) v
        → CellConforms (TypeRef.message s) (Cell.message v)
    list_cell :
        {t : TypeRef} {cs : Cells}
        → CellsConform t cs
        → CellConforms (TypeRef.list t) (Cell.list cs)

  pub data CellsConform : TypeRef → Cells → Type 0 where
    none_left : {t : TypeRef} → CellsConform t no_cells
    one_more :
        {t : TypeRef} {c : Cell} {cs : Cells}
        → CellConforms t c
        → CellsConform t cs
        → CellsConform t (cell c cs)

  -- Each field of the door is absent and optional, or present with an instance of its type.
  pub data FieldsConform : Fields → Value → Type 0 where
    all_done : {v : Value} → FieldsConform no_fields v
    left_out :
        {n : Bytes} {t : TypeRef} {fs : Fields} {v : Value}
        → get_field v n ≡ none
        → FieldsConform fs v
        → FieldsConform (field n t false fs) v
    filled_in :
        {n : Bytes} {t : TypeRef} {r : Bool} {fs : Fields} {v : Value} {c : Cell}
        → get_field v n ≡ some c
        → CellConforms t c
        → FieldsConform fs v
        → FieldsConform (field n t r fs) v

append-eq-nil {ℓ} : {A : Type ℓ} (xs ys : List A) → xs ++ ys ≡ [] → (xs ≡ []) × (ys ≡ [])
append-eq-nil [] ys h = (refl, h)
append-eq-nil (x ∷ xs) ys h = cc

clean_cells :
    (t : TypeRef)
    → ((c : Cell) (path : Bytes) → cell_offences t c path ≡ [] → CellConforms t c)
    → (cs : Cells) (i : ℕ) (path : Bytes) → cells_offences (cell_offences t) cs i path ≡ []
    → CellsConform t cs
unfolding cells_offences
clean_cells t conforms no_cells i path h = none_left
clean_cells t conforms (cell c cs) i path h =
    let (first, others) = append-eq-nil (cell_offences t c (index_path path i)) _ h in
    one_more (conforms c (index_path path i) first) (clean_cells t conforms cs (i + 1) path others)

clean_list :
    (t : TypeRef)
    → ((c : Cell) (path : Bytes) → cell_offences t c path ≡ [] → CellConforms t c)
    → (c : Cell) (path : Bytes) → list_offences (cell_offences t) t c path ≡ []
    → CellConforms (TypeRef.list t) c
unfolding list_offences
clean_list t conforms (Cell.list cs) path h = list_cell (clean_cells t conforms cs 0 path h)
clean_list t conforms _ path h = cc

clean_primitive :
    (k : Kind) (c : Cell) (path : Bytes)
    → primitive_offences k c path ≡ []
    → kind_code (cell_kind c) ≡ kind_code k
unfolding primitive_offences ◌==ₖ◌
clean_primitive k c path h = ground arith

int_kind : (c : Cell) → kind_code (cell_kind c) ≡ 0 → CellConforms TypeRef.int c
unfolding kind_code cell_kind
int_kind (integer v) h = int_cell v
int_kind _ h = absurd (omega arith)

float_kind : (c : Cell) → kind_code (cell_kind c) ≡ 1 → CellConforms TypeRef.float c
unfolding kind_code cell_kind
float_kind (real v) h = float_cell v
float_kind _ h = absurd (omega arith)

text_kind : (c : Cell) → kind_code (cell_kind c) ≡ 2 → CellConforms TypeRef.text c
unfolding kind_code cell_kind
text_kind (Cell.text v) h = text_cell v
text_kind _ h = absurd (omega arith)

bool_kind : (c : Cell) → kind_code (cell_kind c) ≡ 3 → CellConforms TypeRef.bool c
unfolding kind_code cell_kind
bool_kind (boolean v) h = bool_cell v
bool_kind _ h = absurd (omega arith)

bytes_kind : (c : Cell) → kind_code (cell_kind c) ≡ 4 → CellConforms TypeRef.bytes c
unfolding kind_code cell_kind
bytes_kind (Cell.bytes v) h = bytes_cell v
bytes_kind _ h = absurd (omega arith)

clean_slot :
    (n : Bytes) (t : TypeRef) (r : Bool) (fs : Fields) (v : Value) (path : Bytes)
    (found : Option Cell)
    → ((c : Cell) → cell_offences t c path ≡ [] → CellConforms t c)
    → FieldsConform fs v
    → get_field v n ≡ found
    → slot_offences (cell_offences t) t r found path ≡ []
    → FieldsConform (field n t r fs) v
unfolding slot_offences
clean_slot n t r fs v path (some c) conforms rest e h = filled_in e (conforms c h) rest
clean_slot n t true fs v path none conforms rest e h = cc
clean_slot n t false fs v path none conforms rest e h = left_out e rest

mutual
  unfolding cell_offences kind_of kind_code

  clean_cell :
      (t : TypeRef) (c : Cell) (path : Bytes) → cell_offences t c path ≡ [] → CellConforms t c
  clean_cell TypeRef.int c path h = int_kind c (clean_primitive Kind.int c path h)
  clean_cell TypeRef.float c path h = float_kind c (clean_primitive Kind.float c path h)
  clean_cell TypeRef.text c path h = text_kind c (clean_primitive Kind.text c path h)
  clean_cell TypeRef.bool c path h = bool_kind c (clean_primitive Kind.bool c path h)
  clean_cell TypeRef.bytes c path h = bytes_kind c (clean_primitive Kind.bytes c path h)
  clean_cell (TypeRef.message s) c path h = clean_message s c path h
  clean_cell (TypeRef.list t) c path h = clean_list t (clean_cell t) c path h

  clean_message :
      (s : Schema) (c : Cell) (path : Bytes)
      → message_offences s c path ≡ []
      → CellConforms (TypeRef.message s) c
  clean_message (schema name version fs cid) (Cell.message nested) path h =
      elim (Bool-cases (content_id (value_schema nested) == cid)) [
        | inl same ↦
            message_cell ((==_iff _ cid).0 same) (clean_fields fs nested path (rw same at h))
        | inr other ↦ cc (rw other at h)
      ]
  clean_message s Cell.null_message path h = cc
  clean_message s _ path h = cc

  pub clean_fields :
      (fs : Fields) (v : Value) (base : Bytes) → fields_offences fs v base ≡ [] → FieldsConform fs v
  clean_fields no_fields v base h = all_done
  clean_fields (field n t r fs) v base h =
      let (first, others) =
        append-eq-nil (slot_offences (cell_offences t) t r (get_field v n) (field_path base n)) _
          h in
      clean_slot n t r fs v (field_path base n) (get_field v n)
        (λ c. clean_cell t c (field_path base n)) (clean_fields fs v base others) refl first

cell_offences_message :
    (s : Schema) (v : Value) (path : Bytes)
    → content_id (value_schema v) ≡ content_id s
    → cell_offences (TypeRef.message s) (Cell.message v) path
      ≡ fields_offences (schema_fields s) v path
unfolding cell_offences
cell_offences_message (schema name version fs cid) v path same =
    if_true (content_id (value_schema v) == cid) _ ((==_iff _ cid).1 same)

cell_offences_list :
    (t : TypeRef) (cs : Cells) (path : Bytes)
    → cell_offences (TypeRef.list t) (Cell.list cs) path
      ≡ cells_offences (cell_offences t) cs 0 path
unfolding cell_offences list_offences
cell_offences_list t cs path = refl

fields_offences-nil : (v : Value) (base : Bytes) → fields_offences no_fields v base ≡ []
unfolding cell_offences
fields_offences-nil v base = refl

fields_offences-cons :
    (n : Bytes) (t : TypeRef) (r : Bool) (fs : Fields) (v : Value) (base : Bytes)
    → fields_offences (field n t r fs) v base
      ≡ slot_offences (cell_offences t) t r (get_field v n) (field_path base n)
        ++ fields_offences fs v base
unfolding cell_offences
fields_offences-cons n t r fs v base = refl

-- The types of the primitive kinds.
unfoldable is_primitive : TypeRef → Bool
is_primitive (TypeRef.message s) = false
is_primitive (TypeRef.list t) = false
is_primitive t = true

primitive_clean :
    (t : TypeRef) (c : Cell) (path : Bytes)
    → is_primitive t ≡ true
    → kind_code (cell_kind c) ≡ kind_code (kind_of t)
    → cell_offences t c path ≡ []
unfolding cell_offences primitive_offences ◌==ₖ◌ is_primitive
primitive_clean (TypeRef.message s) c path p same = cc
primitive_clean (TypeRef.list t) c path p same = cc
primitive_clean _ c path p same = if_true (kind_code (cell_kind c) == _) _ ((==_iff _ _).1 same)

mutual
  unfolding cell_kind kind_of cells_offences slot_offences is_primitive

  conforms_cell :
      {t : TypeRef} {c : Cell} → CellConforms t c → (path : Bytes) → cell_offences t c path ≡ []
  conforms_cell (int_cell v) path = primitive_clean TypeRef.int (integer v) path refl refl
  conforms_cell (float_cell v) path = primitive_clean TypeRef.float (real v) path refl refl
  conforms_cell (text_cell v) path = primitive_clean TypeRef.text (Cell.text v) path refl refl
  conforms_cell (bool_cell v) path = primitive_clean TypeRef.bool (boolean v) path refl refl
  conforms_cell (bytes_cell v) path = primitive_clean TypeRef.bytes (Cell.bytes v) path refl refl
  conforms_cell (message_cell {s} {v} same fields) path =
      cell_offences_message s v path same ∙ conforms_fields fields path
  conforms_cell (list_cell {t} {cs} cells) path =
      cell_offences_list t cs path ∙ conforms_cells cells 0 path

  conforms_cells :
      {t : TypeRef} {cs : Cells}
      → CellsConform t cs
      → (i : ℕ) (path : Bytes) → cells_offences (cell_offences t) cs i path ≡ []
  conforms_cells none_left i path = refl
  conforms_cells (one_more first others) i path =
      rw (conforms_cell first (index_path path i)) (conforms_cells others (i + 1) path)

  pub conforms_fields :
      {fs : Fields} {v : Value}
      → FieldsConform fs v
      → (base : Bytes) → fields_offences fs v base ≡ []
  conforms_fields (all_done {v}) base = fields_offences-nil v base
  conforms_fields (left_out {n} {t} {fs} {v} e rest) base =
      fields_offences-cons n t false fs v base ∙ rw e (conforms_fields rest base)
  conforms_fields (filled_in {n} {t} {r} {fs} {v} e c rest) base =
      fields_offences-cons n t r fs v base
      ∙ rw (e, conforms_cell c (field_path base n)) (conforms_fields rest base)

-- The validator finds no offence exactly in the instances of the door.
pub fields_offences_iff :
    (fs : Fields) (v : Value) (base : Bytes) → (fields_offences fs v base ≡ []) ↔ FieldsConform fs v
fields_offences_iff fs v base = (clean_fields fs v base, λ c. conforms_fields c base)
