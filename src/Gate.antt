-- ===== src/Gate.antt =====
-- include/zen/admission.hpp, include/zen/gate.hpp and src/gate.cpp: the one validator.
-- The counter of validator runs is state that is passed along. An `Admission` holds a value or
-- errors, never both.
pub mod Offences
pub mod Conforms
pub mod Verdict
use zen.Prelude.{Bool, List, Option, [], codes, false, if◌then◌else◌, none, not, some, true, ℕ}
use zen.Prelude.{◌++◌, ◌+◌, ◌==◌, ◌||◌, ◌∷◌}
use zen.Binary.{Bytes}
use zen.Failure.{Throws, logic_error, ok, throw, to_string}
use zen.Schema.{Fields, Kind, Schema, TypeRef, content_id, field, kind_name, kind_of, no_fields}
use zen.Schema.{schema, schema_fields, type_label, version_label, ◌==ₖ◌}
use zen.Schema.Build.{is_empty}
use zen.Value.{Cell, Cells, Value, cell, cell_kind, get_field, no_cells, value_schema}

pub data ErrorKind : Type 0 where
  none_kind schema_mismatch unknown_schema missing_field type_mismatch : ErrorKind
  null_message malformed_bytes malformed_field unknown_field : ErrorKind

pub record Error : Type 0 where
  pub kind : ErrorKind
  pub path : Bytes
  pub expected : Bytes
  pub actual : Bytes
  pub detail : Bytes

-- The members `errs`, `collect_all` and `stopped` of the validator's context.
pub record Ctx : Type 0 where
  pub errs : List Error
  pub collect_all : Bool
  pub stopped : Bool

unfoldable pub emit_error : Ctx → Error → Ctx
emit_error ctx e = record ctx {
  errs = ctx.errs ++ e ∷ [];
  stopped = if ctx.collect_all then ctx.stopped else true;
}

unfoldable pub field_path : Bytes → Bytes → Bytes
field_path [] name = name
field_path (c ∷ base) name = (c ∷ base) ++ (codes "." ++ name)

unfoldable pub index_path : Bytes → ℕ → Bytes
unfolding to_string
index_path path i = path ++ (codes "[" ++ (to_string i ++ codes "]"))

-- The errors that the validator emits.
unfoldable pub kind_error : Bytes → Cell → Bytes → Error
kind_error label c path = record {
  kind = type_mismatch;
  path = path;
  expected = label;
  actual = kind_name (cell_kind c);
  detail = [];
}

unfoldable pub null_error : Schema → Bytes → Error
null_error s path = record {
  kind = ErrorKind.null_message;
  path = path;
  expected = type_label (TypeRef.message s);
  actual = codes "null";
  detail = [];
}

unfoldable pub shape_error : Schema → Value → Bytes → Error
shape_error s nested path = record {
  kind = schema_mismatch;
  path = path;
  expected = type_label (TypeRef.message s);
  actual = version_label (value_schema nested);
  detail = codes "nested value claims a different shape";
}

unfoldable pub missing_error : TypeRef → Bytes → Error
missing_error t path = record {
  kind = missing_field;
  path = path;
  expected = type_label t;
  actual = codes "absent";
  detail = [];
}

unfoldable pub door_error : Schema → Value → Error
door_error door claimant = record {
  kind = schema_mismatch;
  path = [];
  expected = version_label door;
  actual = version_label (value_schema claimant);
  detail = codes "claimed shape does not match this door";
}

-- The first case of `validate_cell`, for the five primitive kinds.
unfoldable pub validate_primitive : Kind → Cell → Bytes → Ctx → Ctx
validate_primitive k c path ctx =
    if cell_kind c ==ₖ k then ctx else emit_error ctx (kind_error (kind_name k) c path)

-- The loop of `validate_cell` over a list, from index `i` on, for a validator of the elements.
unfoldable pub validate_cells : (Cell → Bytes → Ctx → Ctx) → Cells → ℕ → Bytes → Ctx → Ctx
unfolding index_path
validate_cells check no_cells i path ctx = ctx
validate_cells check (cell c cs) i path ctx =
    if ctx.stopped
    then ctx
    else validate_cells check cs (i + 1) path (check c (index_path path i) ctx)

-- The case of a list.
unfoldable pub validate_list : (Cell → Bytes → Ctx → Ctx) → TypeRef → Cell → Bytes → Ctx → Ctx
validate_list check t (Cell.list cs) path ctx = validate_cells check cs 0 path ctx
validate_list check t c path ctx = emit_error ctx (kind_error (type_label (TypeRef.list t)) c path)

-- One field of `validate_value`: what the claimant has in its slot.
unfoldable pub validate_slot :
    (Cell → Bytes → Ctx → Ctx) → TypeRef → Bool → Option Cell → Bytes → Ctx → Ctx
validate_slot check t required none path ctx =
    if required then emit_error ctx (missing_error t path) else ctx
validate_slot check t required (some c) path ctx = check c path ctx

-- `validate_value` runs over the fields of the door, `validate_fields`; `v.get` reads the slots by
-- the claimant's own schema.
unfoldable mutual
  pub validate_cell : TypeRef → Cell → Bytes → Ctx → Ctx
  validate_cell (TypeRef.message s) c path ctx =
      if ctx.stopped then ctx else validate_message s c path ctx
  validate_cell (TypeRef.list t) c path ctx =
      if ctx.stopped then ctx else validate_list (validate_cell t) t c path ctx
  validate_cell t c path ctx =
      if ctx.stopped then ctx else validate_primitive (kind_of t) c path ctx

  pub validate_message : Schema → Cell → Bytes → Ctx → Ctx
  validate_message (schema name version fs cid) (Cell.message nested) path ctx =
      if content_id (value_schema nested) == cid
      then validate_fields fs nested path ctx
      else emit_error ctx (shape_error (schema name version fs cid) nested path)
  validate_message s Cell.null_message path ctx = emit_error ctx (null_error s path)
  validate_message s c path ctx =
      emit_error ctx (kind_error (type_label (TypeRef.message s)) c path)

  pub validate_fields : Fields → Value → Bytes → Ctx → Ctx
  validate_fields no_fields v base ctx = ctx
  validate_fields (field n t r fs) v base ctx =
      if ctx.stopped
      then ctx
      else validate_fields fs v base
          (validate_slot (validate_cell t) t r (get_field v n) (field_path base n) ctx)

-- What the validator answers, with the number of its runs so far.
abbrev pub Counted : Type 0 → Type 0
Counted A = ℕ → A × ℕ

unfoldable pub validate_into : Value → Schema → Bool → Counted (List Error)
validate_into claimant door collect_all runs =
    if content_id (value_schema claimant) == content_id door
    then (
      (validate_fields (schema_fields door) claimant []
          (record { errs = []; collect_all = collect_all; stopped = false })).errs,
      runs + 1,
    )
    else (door_error door claimant ∷ [], runs + 1)

pub data Admission : Type 0 where
  accept : Value → Admission
  reject : List Error → Admission

-- `Admission::reject(std::vector<Error>)`: no list of errors is empty.
unfoldable pub reject_errors : List Error → Admission
reject_errors [] = reject (
    record {
      kind = none_kind;
      path = [];
      expected = [];
      actual = [];
      detail = codes "refused without detail";
    }
    ∷ [])
reject_errors (e ∷ es) = reject (e ∷ es)

unfoldable pub is_ok : Admission → Bool
is_ok (accept v) = true
is_ok (reject es) = false

unfoldable pub admitted_value : Admission → Throws Value
admitted_value (accept v) = ok v
admitted_value (reject es) =
    throw (logic_error (codes "Admission::value() called on a refused admission"))

unfoldable pub first_error : Admission → Throws Error
first_error (reject (e ∷ es)) = ok e
first_error a =
    throw (logic_error (codes "Admission::first_error() called on an accepted admission"))

pub data Report : Type 0 where
  first_only full : Report

unfoldable pub is_full : Report → Bool
is_full first_only = false
is_full full = true

unfoldable pub settle : Value → List Error → Admission
unfolding reject_errors
settle claimant [] = accept claimant
settle claimant (e ∷ es) = reject_errors (e ∷ es)

-- The gate for live values.
unfoldable pub admit : Value → Schema → Report → Counted Admission
unfolding validate_into settle is_full
admit claimant door report runs =
    let (errs, runs') = validate_into claimant door (is_full report) runs in
    (settle claimant errs, runs')

unfoldable pub diagnose : Value → Schema → Counted (List Error)
unfolding validate_into
diagnose claimant door = validate_into claimant door true

-- The rendering of an error. The dash in front of the detail is the three bytes of its UTF-8.
unfoldable pub error_kind_name : ErrorKind → Bytes
error_kind_name none_kind = codes "None"
error_kind_name schema_mismatch = codes "SchemaMismatch"
error_kind_name unknown_schema = codes "UnknownSchema"
error_kind_name missing_field = codes "MissingField"
error_kind_name type_mismatch = codes "TypeMismatch"
error_kind_name ErrorKind.null_message = codes "NullMessage"
error_kind_name malformed_bytes = codes "MalformedBytes"
error_kind_name malformed_field = codes "MalformedField"
error_kind_name unknown_field = codes "UnknownField"

unfoldable pub error_message : Error → Bytes
unfolding error_kind_name
error_message e =
    let loc = if is_empty e.path then codes "<value>" else e.path in
    let headline = loc ++ (codes ": " ++ error_kind_name e.kind) in
    let compared =
      if not (is_empty e.expected) || not (is_empty e.actual)
      then headline
        ++ (codes " (expected " ++ (e.expected ++ (codes ", got " ++ (e.actual ++ codes ")"))))
      else headline in
    if is_empty e.detail
    then compared
    else compared ++ (b' ' ∷ 0xE2 ∷ 0x80 ∷ 0x94 ∷ b' ' ∷ e.detail)
