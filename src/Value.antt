-- ===== src/Value.antt =====
-- include/zen/value.hpp and src/value.cpp: cells and values.
-- The shared pointer of a message cell is null, `null_message`, or points to a value, `message`;
-- nothing that is modelled writes through it, so a value is its own copy. A `std::int64_t` is an
-- integer, a double its bit pattern.
pub mod Access
use zen.Prelude.{Bool, Option, bytes_eq, codes, false, if◌then◌else◌, none, option_map, some, suc}
use zen.Prelude.{true, zero, ℕ, ◌++◌}
use zen.Prelude.Int.{ℤ}
use zen.Binary.{Bytes}
use zen.Failure.{Exception, Throws, logic_error, ok, out_of_range, throw, ◌>>=◌}
use zen.Schema.{FieldView, Fields, Kind, Schema, field, no_fields, schema_fields, schema_name}

mutual
  pub data Cell : Type 0 where
    integer : ℤ → Cell
    real : ℕ → Cell
    text : Bytes → Cell
    boolean : Bool → Cell
    bytes : Bytes → Cell
    null_message : Cell
    message : Value → Cell
    list : Cells → Cell

  -- `Cell::Array`.
  pub data Cells : Type 0 where
    no_cells : Cells
    cell : Cell → Cells → Cells

  -- The schema claimed, and the slots aligned with its fields.
  pub data Value : Type 0 where
    value : Schema → Slots → Value

  -- The vector of optional cells.
  pub data Slots : Type 0 where
    no_slots : Slots
    absent : Slots → Slots
    present : Cell → Slots → Slots

unfoldable pub cell_kind : Cell → Kind
cell_kind (integer v) = Kind.int
cell_kind (real v) = Kind.float
cell_kind (Cell.text v) = Kind.text
cell_kind (boolean v) = Kind.bool
cell_kind (Cell.bytes v) = Kind.bytes
cell_kind null_message = Kind.message
cell_kind (Cell.message v) = Kind.message
cell_kind (Cell.list v) = Kind.list

abbrev pub value_schema : Value → Schema
value_schema (value s slots) = s

abbrev pub value_slots : Value → Slots
value_slots (value s slots) = slots

abbrev pub cells_length : Cells → ℕ
cells_length no_cells = 0
cells_length (cell c cs) = suc (cells_length cs)

-- `slots_.resize(schema_->fields().size())`.
unfoldable pub empty_slots : Fields → Slots
empty_slots no_fields = no_slots
empty_slots (field n t r fs) = absent (empty_slots fs)

-- The constructor of `Value`, on a schema that is not null.
unfoldable pub make_value : Schema → Value
unfolding empty_slots
make_value s = value s (empty_slots (schema_fields s))

-- `Value::set`: the slot of the first field of that name. A field with no slot does not occur.
unfoldable pub set_slot : Fields → Slots → Bytes → Cell → Option Slots
set_slot no_fields slots name c = none
set_slot (field n t r fs) no_slots name c = none
set_slot (field n t r fs) (absent slots) name c =
    if bytes_eq n name then some (present c slots) else option_map absent (set_slot fs slots name c)
set_slot (field n t r fs) (present d slots) name c =
    if bytes_eq n name
    then some (present c slots)
    else option_map (present d) (set_slot fs slots name c)

-- What the search for the field comes to.
unfoldable pub set_found : Schema → Bytes → Option Slots → Throws Value
set_found s name none = throw (
    out_of_range (
      codes "field '"
      ++ (name ++ (codes "' is not declared by schema '" ++ (schema_name s ++ codes "'")))))
set_found s name (some slots) = ok (value s slots)

unfoldable pub set_field : Value → Bytes → Cell → Throws Value
unfolding set_slot set_found
set_field (value s slots) name c = set_found s name (set_slot (schema_fields s) slots name c)

-- `Value::get`: `none` is the null pointer.
unfoldable pub get_slot : Fields → Slots → Bytes → Option Cell
get_slot no_fields slots name = none
get_slot (field n t r fs) no_slots name = none
get_slot (field n t r fs) (absent slots) name =
    if bytes_eq n name then none else get_slot fs slots name
get_slot (field n t r fs) (present c slots) name =
    if bytes_eq n name then some c else get_slot fs slots name

unfoldable pub get_field : Value → Bytes → Option Cell
unfolding get_slot
get_field (value s slots) name = get_slot (schema_fields s) slots name

unfoldable pub has_field : Value → Bytes → Bool
has_field v name = elim (get_field v name) [ none ↦ false | some c ↦ true ]

-- `Value::at`.
unfoldable pub slot_at : Slots → ℕ → Option Cell
slot_at no_slots i = none
slot_at (absent slots) zero = none
slot_at (present c slots) zero = some c
slot_at (absent slots) (suc i) = slot_at slots i
slot_at (present c slots) (suc i) = slot_at slots i

-- `construct_blind`: each field in order from the source; the loop over the fields that are left.
unfoldable pub fill_fields : Fields → (FieldView → Option Cell) → Value → Throws Value
unfolding set_field
fill_fields no_fields source v = ok v
fill_fields (field n t r fs) source v =
    elim (source (record { name = n; type = t; required = r })) [
      | none ↦ fill_fields fs source v
      | some c ↦ set_field v n c >>= λ v'. fill_fields fs source v'
    ]

unfoldable pub construct_blind : Schema → (FieldView → Option Cell) → Throws Value
unfolding fill_fields make_value
construct_blind s source = fill_fields (schema_fields s) source (make_value s)

-- The accessors of a cell that `get` found: `std::bad_variant_access` for another kind. A null pointer
-- has no behaviour in the source and stands for the same here.
abbrev pub bad_access : Exception
bad_access = logic_error (codes "bad_variant_access")

unfoldable pub as_int : Option Cell → Throws ℤ
as_int (some (integer n)) = ok n
as_int _ = throw bad_access

unfoldable pub as_bool : Option Cell → Throws Bool
as_bool (some (boolean b)) = ok b
as_bool _ = throw bad_access

unfoldable pub as_text : Option Cell → Throws Bytes
as_text (some (Cell.text s)) = ok s
as_text _ = throw bad_access

unfoldable pub as_list : Option Cell → Throws Cells
as_list (some (Cell.list cs)) = ok cs
as_list _ = throw bad_access

unfoldable pub as_message : Cell → Throws Value
as_message (Cell.message v) = ok v
as_message _ = throw bad_access
