-- ===== src/Serialize/Wire.antt =====
-- src/serialize.cpp: the bytes that the native encoder appends, and what values they stand for.
use zen.Prelude.{All, All-append, Bool, Bool-cases, IsByte, [], ap, arith, false, if◌then◌else◌}
use zen.Prelude.{inl, inr, length, ltb, ltb→lt, refl, suc, sym, true, zero, ℕ, ◌++◌, ◌+◌, ◌/◌}
use zen.Prelude.{◌<◌, ◌^◌, ◌∙◌, ◌∷◌, ◌≡◌, ◌≤◌}
use zen.Prelude.Int.{IsI64, ℤ}
use zen.Binary.{Bytes, max_binary_depth, max_field_bytes, max_list_count, put_f64le, put_uvarint}
use zen.Binary.{put_zigzag}
use zen.Binary.Fixed.{le_bytes-IsByte, put_u64le-le_bytes}
use zen.Binary.Groups.{minimal_groups, put_uvarint-minimal_groups}
use zen.Binary.Zigzag.{put_zigzag-zigzag_code, zigzag_code, zigzag_code-lt}
use zen.Binary.Float.{IsCanonicalFloat, normalize_nan, put_f64le-normalize_nan}
use zen.Schema.{Fields, Schema, TypeRef, field, field_count, no_fields, schema}
use zen.Schema.Distinct.{IsDistinct}
use zen.Value.{Cell, Cells, Slots, Value, absent, boolean, cell, cells_length, integer, no_cells}
use zen.Value.{no_slots, present, real, value}
use zen.Utf8.{valid_utf8}
use zen.Serialize.Presence.{mask_of, mask_of-IsByte, slots_length}

unfoldable mutual
  pub wire_cell : Cell → Bytes
  wire_cell (integer v) = put_zigzag [] v
  wire_cell (real bits) = put_f64le [] bits
  wire_cell (Cell.text s) = put_uvarint [] (length s) ++ s
  wire_cell (boolean b) = (if b then 1 else 0) ∷ []
  wire_cell (Cell.bytes s) = put_uvarint [] (length s) ++ s
  wire_cell (Cell.message v) = wire_value v
  wire_cell Cell.null_message = []
  wire_cell (Cell.list cs) = put_uvarint [] (cells_length cs) ++ wire_cells cs

  pub wire_cells : Cells → Bytes
  wire_cells no_cells = []
  wire_cells (cell c cs) = wire_cell c ++ wire_cells cs

  -- The mask, and the cells that are present.
  pub wire_value : Value → Bytes
  wire_value (value s slots) = mask_of slots ++ wire_slots slots

  pub wire_slots : Slots → Bytes
  wire_slots no_slots = []
  wire_slots (absent slots) = wire_slots slots
  wire_slots (present c slots) = wire_cell c ++ wire_slots slots

-- Text or bytes within the cap on a field.
abbrev pub IsRun : Bytes → Type 0
IsRun s = (length s ≤ max_field_bytes) × All IsByte s

-- What the format holds without loss, at a nesting depth: values that claim the schema of their
-- place and are within the caps of the decoder.
mutual
  pub data CellFits : ℕ → TypeRef → Cell → Type 0 where
    int_fits : {d : ℕ} {v : ℤ} → d ≤ max_binary_depth → IsI64 v → CellFits d TypeRef.int (integer v)
    float_fits :
        {d bits : ℕ}
        → d ≤ max_binary_depth
        → bits < 2 ^ 64
        → IsCanonicalFloat bits
        → CellFits d TypeRef.float (real bits)
    text_fits :
        {d : ℕ} {s : Bytes}
        → d ≤ max_binary_depth
        → IsRun s
        → valid_utf8 s ≡ true
        → CellFits d TypeRef.text (Cell.text s)
    bool_fits : {d : ℕ} (b : Bool) → d ≤ max_binary_depth → CellFits d TypeRef.bool (boolean b)
    bytes_fits :
        {d : ℕ} {s : Bytes}
        → d ≤ max_binary_depth
        → IsRun s
        → CellFits d TypeRef.bytes (Cell.bytes s)
    message_fits :
        {d : ℕ} {s : Schema} {v : Value}
        → d ≤ max_binary_depth
        → ValueFits (d + 1) s v
        → CellFits d (TypeRef.message s) (Cell.message v)
    list_fits :
        {d : ℕ} {t : TypeRef} {cs : Cells}
        → d ≤ max_binary_depth
        → cells_length cs ≤ max_list_count
        → CellsFit (d + 1) t cs
        → CellFits d (TypeRef.list t) (Cell.list cs)

  pub data CellsFit : ℕ → TypeRef → Cells → Type 0 where
    no_cells_fit : {d : ℕ} {t : TypeRef} → CellsFit d t no_cells
    cell_fits :
        {d : ℕ} {t : TypeRef} {c : Cell} {cs : Cells}
        → CellFits d t c
        → CellsFit d t cs
        → CellsFit d t (cell c cs)

  pub data ValueFits : ℕ → Schema → Value → Type 0 where
    value_fits :
        {d version cid : ℕ} {name : Bytes} {fs : Fields} {slots : Slots}
        → d ≤ max_binary_depth
        → IsDistinct fs
        → SlotsFit d fs slots
        → ValueFits d (schema name version fs cid) (value (schema name version fs cid) slots)

  pub data SlotsFit : ℕ → Fields → Slots → Type 0 where
    no_slots_fit : {d : ℕ} → SlotsFit d no_fields no_slots
    absent_fits :
        {d : ℕ} {n : Bytes} {t : TypeRef} {r : Bool} {fs : Fields} {slots : Slots}
        → SlotsFit d fs slots
        → SlotsFit d (field n t r fs) (absent slots)
    present_fits :
        {d : ℕ} {n : Bytes} {t : TypeRef} {r : Bool} {fs : Fields} {slots : Slots} {c : Cell}
        → CellFits d t c
        → SlotsFit d fs slots
        → SlotsFit d (field n t r fs) (present c slots)

pub slots_length-field_count :
    {d : ℕ} {fs : Fields} {slots : Slots}
    → SlotsFit d fs slots
    → slots_length slots ≡ field_count fs
slots_length-field_count no_slots_fit = refl
slots_length-field_count (absent_fits f) = ap suc (slots_length-field_count f)
slots_length-field_count (present_fits c f) = ap suc (slots_length-field_count f)

-- The writers append.
minimal_groups-IsByte : (k v : ℕ) → v < 128 ^ suc k → All IsByte (minimal_groups k v)
unfolding minimal_groups
minimal_groups-IsByte zero v h = (omega (arith, h), tt)
minimal_groups-IsByte (suc k) v h = elim (Bool-cases (ltb v 128)) [
  | inl small ↦ rw small (omega (arith, ltb→lt v 128 small), tt)
  | inr large ↦ rw large (omega arith, minimal_groups-IsByte k (v / 128) (grind (arith, h)))
]

pub put_uvarint-append :
    (out : Bytes) (v : ℕ) → v < 2 ^ 64 → put_uvarint out v ≡ out ++ put_uvarint [] v
put_uvarint-append out v h =
    put_uvarint-minimal_groups out v h
    ∙ ap (λ l. out ++ l) (sym (put_uvarint-minimal_groups [] v h))

pub put_uvarint-IsByte : (v : ℕ) → v < 2 ^ 64 → All IsByte (put_uvarint [] v)
put_uvarint-IsByte v h =
    rw (put_uvarint-minimal_groups [] v h) (minimal_groups-IsByte 9 v (omega (arith, h)))

pub put_zigzag-append : (out : Bytes) (v : ℤ) → IsI64 v → put_zigzag out v ≡ out ++ put_zigzag [] v
put_zigzag-append out v h =
    put_zigzag-zigzag_code out v h
    ∙ put_uvarint-append out (zigzag_code v) (zigzag_code-lt v h)
    ∙ ap (λ l. out ++ l) (sym (put_zigzag-zigzag_code [] v h))

pub put_zigzag-IsByte : (v : ℤ) → IsI64 v → All IsByte (put_zigzag [] v)
put_zigzag-IsByte v h =
    rw (put_zigzag-zigzag_code [] v h) (put_uvarint-IsByte (zigzag_code v) (zigzag_code-lt v h))

pub put_f64le-append : (out : Bytes) (bits : ℕ) → put_f64le out bits ≡ out ++ put_f64le [] bits
put_f64le-append out bits =
    rw
      (
        put_f64le-normalize_nan out bits,
        put_f64le-normalize_nan [] bits,
        put_u64le-le_bytes out (normalize_nan bits),
        put_u64le-le_bytes [] (normalize_nan bits),
      )
      refl

pub put_f64le-IsByte : (bits : ℕ) → All IsByte (put_f64le [] bits)
put_f64le-IsByte bits =
    rw (put_f64le-normalize_nan [] bits, put_u64le-le_bytes [] (normalize_nan bits))
      (le_bytes-IsByte 8 (normalize_nan bits))

-- A run fits the decoder's numbers.
pub IsRun-lt : (s : Bytes) → IsRun s → length s < 2 ^ 64
IsRun-lt s (short, octets) = omega (arith, short)

mutual
  unfolding wire_cell

  pub wire_cell-IsByte :
      {d : ℕ} {t : TypeRef} {c : Cell} → CellFits d t c → All IsByte (wire_cell c)
  wire_cell-IsByte (int_fits {d} {v} deep h) = put_zigzag-IsByte v h
  wire_cell-IsByte (float_fits {d} {bits} deep h canon) = put_f64le-IsByte bits
  wire_cell-IsByte (text_fits {d} {s} deep run utf8) =
      All-append IsByte (put_uvarint [] (length s)) s
        (put_uvarint-IsByte (length s) (IsRun-lt s run)) run.1
  wire_cell-IsByte (bool_fits true deep) = (omega arith, tt)
  wire_cell-IsByte (bool_fits false deep) = (omega arith, tt)
  wire_cell-IsByte (bytes_fits {d} {s} deep run) =
      All-append IsByte (put_uvarint [] (length s)) s
        (put_uvarint-IsByte (length s) (IsRun-lt s run)) run.1
  wire_cell-IsByte (message_fits deep v) = wire_value-IsByte v
  wire_cell-IsByte (list_fits {d} {t} {cs} deep few fits) =
      All-append IsByte (put_uvarint [] (cells_length cs)) (wire_cells cs)
        (put_uvarint-IsByte (cells_length cs) (omega (arith, few))) (wire_cells-IsByte fits)

  pub wire_cells-IsByte :
      {d : ℕ} {t : TypeRef} {cs : Cells} → CellsFit d t cs → All IsByte (wire_cells cs)
  wire_cells-IsByte no_cells_fit = tt
  wire_cells-IsByte (cell_fits {d} {t} {c} {cs} f fs) =
      All-append IsByte (wire_cell c) (wire_cells cs) (wire_cell-IsByte f) (wire_cells-IsByte fs)

  pub wire_value-IsByte :
      {d : ℕ} {s : Schema} {v : Value} → ValueFits d s v → All IsByte (wire_value v)
  wire_value-IsByte (value_fits {slots = slots} deep distinct fits) =
      All-append IsByte (mask_of slots) (wire_slots slots) (mask_of-IsByte slots)
        (wire_slots-IsByte fits)

  pub wire_slots-IsByte :
      {d : ℕ} {fs : Fields} {slots : Slots} → SlotsFit d fs slots → All IsByte (wire_slots slots)
  wire_slots-IsByte no_slots_fit = tt
  wire_slots-IsByte (absent_fits f) = wire_slots-IsByte f
  wire_slots-IsByte (present_fits {slots = slots} {c = c} f fs) =
      All-append IsByte (wire_cell c) (wire_slots slots) (wire_cell-IsByte f) (wire_slots-IsByte fs)
