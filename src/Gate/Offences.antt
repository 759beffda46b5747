-- ===== src/Gate/Offences.antt =====
-- src/gate.cpp: the validator as a plain list of offences. The context decides only how many of
-- them are kept: all, or the first.
use zen.Prelude.{Bool, Bool-cases, List, Option, [], ap, append-nil, append_assoc, arith, false}
use zen.Prelude.{if_false, if_true, if◌then◌else◌, inl, inr, none, refl, some, sym, true, ℕ, ◌++◌}
use zen.Prelude.{◌+◌, ◌==◌, ◌∙◌, ◌∷◌, ◌≡◌}
use zen.Binary.{Bytes}
use zen.Schema.{Fields, Kind, Schema, TypeRef, content_id, field, kind_name, kind_of, no_fields}
use zen.Schema.{schema, type_label, ◌==ₖ◌}
use zen.Value.{Cell, Cells, Value, cell, cell_kind, get_field, no_cells, value_schema}
use zen.Gate.{Ctx, Error, emit_error, field_path, index_path, kind_error, missing_error}
use zen.Gate.{null_error, shape_error, validate_cell, validate_cells, validate_fields}
use zen.Gate.{validate_list, validate_message, validate_primitive, validate_slot}

-- How a context takes a list of offences.
unfoldable pub report_errors : Ctx → List Error → Ctx
report_errors ctx [] = ctx
report_errors ctx (e ∷ es) =
    if ctx.stopped
    then ctx
    else if ctx.collect_all
    then record ctx { errs = ctx.errs ++ e ∷ es }
    else record ctx { errs = ctx.errs ++ e ∷ []; stopped = true }

pub report_errors-append :
    (ctx : Ctx) (xs ys : List Error)
    → report_errors (report_errors ctx xs) ys ≡ report_errors ctx (xs ++ ys)
unfolding report_errors
report_errors-append ctx [] ys = refl
report_errors-append ctx (x ∷ xs) [] = rw (append-nil xs)
report_errors-append ctx (x ∷ xs) (y ∷ ys) = ground (arith, append_assoc ctx.errs (x ∷ xs) (y ∷ ys))

pub report_errors_stopped :
    (ctx : Ctx) (es : List Error) → ctx.stopped ≡ true → report_errors ctx es ≡ ctx
unfolding report_errors
report_errors_stopped ctx [] h = refl
report_errors_stopped ctx (e ∷ es) h = rw h

emit_error-report_errors :
    (ctx : Ctx) (e : Error) → ctx.stopped ≡ false → emit_error ctx e ≡ report_errors ctx (e ∷ [])
unfolding emit_error report_errors
emit_error-report_errors ctx e h = ground arith

-- The offences of a cell against a type, of a value against the fields of a door.
unfoldable pub cells_offences : (Cell → Bytes → List Error) → Cells → ℕ → Bytes → List Error
cells_offences check no_cells i path = []
cells_offences check (cell c cs) i path =
    check c (index_path path i) ++ cells_offences check cs (i + 1) path

unfoldable pub list_offences : (Cell → Bytes → List Error) → TypeRef → Cell → Bytes → List Error
list_offences check t (Cell.list cs) path = cells_offences check cs 0 path
list_offences check t c path = kind_error (type_label (TypeRef.list t)) c path ∷ []

unfoldable pub primitive_offences : Kind → Cell → Bytes → List Error
primitive_offences k c path = if cell_kind c ==ₖ k then [] else kind_error (kind_name k) c path ∷ []

unfoldable pub slot_offences :
    (Cell → Bytes → List Error) → TypeRef → Bool → Option Cell → Bytes → List Error
slot_offences check t required none path = if required then missing_error t path ∷ [] else []
slot_offences check t required (some c) path = check c path

unfoldable mutual
  pub cell_offences : TypeRef → Cell → Bytes → List Error
  cell_offences (TypeRef.message s) c path = message_offences s c path
  cell_offences (TypeRef.list t) c path = list_offences (cell_offences t) t c path
  cell_offences t c path = primitive_offences (kind_of t) c path

  pub message_offences : Schema → Cell → Bytes → List Error
  message_offences (schema name version fs cid) (Cell.message nested) path =
      if content_id (value_schema nested) == cid
      then fields_offences fs nested path
      else shape_error (schema name version fs cid) nested path ∷ []
  message_offences s Cell.null_message path = null_error s path ∷ []
  message_offences s c path = kind_error (type_label (TypeRef.message s)) c path ∷ []

  pub fields_offences : Fields → Value → Bytes → List Error
  fields_offences no_fields v base = []
  fields_offences (field n t r fs) v base =
      slot_offences (cell_offences t) t r (get_field v n) (field_path base n)
      ++ fields_offences fs v base

report_errors-nil : (ctx : Ctx) → report_errors ctx [] ≡ ctx
unfolding report_errors
report_errors-nil ctx = refl

-- Every validator starts by looking whether the context has stopped.
stop_or_go :
    (ctx : Ctx) (es : List Error) {next : Ctx}
    → (ctx.stopped ≡ false → next ≡ report_errors ctx es)
    → (if ctx.stopped then ctx else next) ≡ report_errors ctx es
stop_or_go ctx es {next} h = elim (Bool-cases ctx.stopped) [
  | inl halted ↦ if_true ctx.stopped next halted ∙ sym (report_errors_stopped ctx es halted)
  | inr running ↦ if_false ctx.stopped ctx running ∙ h running
]

-- A validator that hands its offences to the context.
abbrev pub Reports : (Ctx → Ctx) → List Error → Type 0
Reports run es = (ctx : Ctx) → run ctx ≡ report_errors ctx es

validate_cells-Reports :
    (check : Cell → Bytes → Ctx → Ctx) (offences : Cell → Bytes → List Error)
    → ((c : Cell) (path : Bytes) → Reports (check c path) (offences c path))
    → (cs : Cells) (i : ℕ) (path : Bytes)
    → Reports (validate_cells check cs i path) (cells_offences offences cs i path)
unfolding validate_cells cells_offences
validate_cells-Reports check offences h no_cells i path ctx = sym (report_errors-nil ctx)
validate_cells-Reports check offences h (cell c cs) i path ctx =
    stop_or_go ctx (offences c (index_path path i) ++ cells_offences offences cs (i + 1) path)
      (λ running.
        validate_cells-Reports check offences h cs (i + 1) path _
        ∙ ap (λ (d : Ctx). report_errors d (cells_offences offences cs (i + 1) path))
            (h c (index_path path i) ctx)
        ∙ report_errors-append ctx (offences c (index_path path i)) _)

emit_error-Reports :
    (ctx : Ctx) (e : Error)
    → (if ctx.stopped then ctx else emit_error ctx e) ≡ report_errors ctx (e ∷ [])
emit_error-Reports ctx e = stop_or_go ctx (e ∷ []) (emit_error-report_errors ctx e)

validate_primitive-Reports :
    (k : Kind) (c : Cell) (path : Bytes) (ctx : Ctx)
    → ctx.stopped ≡ false
    → validate_primitive k c path ctx ≡ report_errors ctx (primitive_offences k c path)
unfolding validate_primitive primitive_offences
validate_primitive-Reports k c path ctx running = elim (Bool-cases (cell_kind c ==ₖ k)) [
  | inl same ↦ rw same (sym (report_errors-nil ctx))
  | inr other ↦ rw other (emit_error-report_errors ctx _ running)
]

validate_list-Reports :
    (t : TypeRef)
    → ((c : Cell) (path : Bytes) → Reports (validate_cell t c path) (cell_offences t c path))
    → (c : Cell) (path : Bytes) (ctx : Ctx) → ctx.stopped ≡ false
    → validate_list (validate_cell t) t c path ctx
      ≡ report_errors ctx (list_offences (cell_offences t) t c path)
unfolding validate_list list_offences
validate_list-Reports t h (Cell.list cs) path ctx running =
    validate_cells-Reports (validate_cell t) (cell_offences t) h cs 0 path ctx
validate_list-Reports t h _ path ctx running = emit_error-report_errors ctx _ running

validate_slot-Reports :
    (t : TypeRef)
    → ((c : Cell) (path : Bytes) → Reports (validate_cell t c path) (cell_offences t c path))
    → (required : Bool) (found : Option Cell) (path : Bytes) (ctx : Ctx) → ctx.stopped ≡ false
    → validate_slot (validate_cell t) t required found path ctx
      ≡ report_errors ctx (slot_offences (cell_offences t) t required found path)
unfolding validate_slot slot_offences
validate_slot-Reports t h required (some c) path ctx running = h c path ctx
validate_slot-Reports t h true none path ctx running = emit_error-report_errors ctx _ running
validate_slot-Reports t h false none path ctx running = sym (report_errors-nil ctx)

mutual
  unfolding validate_cell cell_offences

  validate_cell-Reports :
      (t : TypeRef) (c : Cell) (path : Bytes)
      → Reports (validate_cell t c path) (cell_offences t c path)
  validate_cell-Reports (TypeRef.message s) c path ctx =
      stop_or_go ctx _ (validate_message-Reports s c path ctx)
  validate_cell-Reports (TypeRef.list t) c path ctx =
      stop_or_go ctx _ (validate_list-Reports t (validate_cell-Reports t) c path ctx)
  validate_cell-Reports t c path ctx =
      stop_or_go ctx _ (validate_primitive-Reports (kind_of t) c path ctx)

  validate_message-Reports :
      (s : Schema) (c : Cell) (path : Bytes) (ctx : Ctx)
      → ctx.stopped ≡ false
      → validate_message s c path ctx ≡ report_errors ctx (message_offences s c path)
  validate_message-Reports (schema name version fs cid) (Cell.message nested) path ctx running =
      elim (Bool-cases (content_id (value_schema nested) == cid)) [
        | inl same ↦ rw same (validate_fields-Reports fs nested path ctx)
        | inr other ↦ rw other (emit_error-report_errors ctx _ running)
      ]
  validate_message-Reports s Cell.null_message path ctx running =
      emit_error-report_errors ctx _ running
  validate_message-Reports s _ path ctx running = emit_error-report_errors ctx _ running

  pub validate_fields-Reports :
      (fs : Fields) (v : Value) (base : Bytes)
      → Reports (validate_fields fs v base) (fields_offences fs v base)
  validate_fields-Reports no_fields v base ctx = sym (report_errors-nil ctx)
  validate_fields-Reports (field n t r fs) v base ctx = stop_or_go ctx _ (λ running.
      validate_fields-Reports fs v base _
      ∙ ap (λ (d : Ctx). report_errors d (fields_offences fs v base))
          (validate_slot-Reports t (validate_cell-Reports t) r (get_field v n) (field_path base n)
            ctx running)
      ∙ report_errors-append ctx _ _)
