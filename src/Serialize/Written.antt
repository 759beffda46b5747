-- ===== src/Serialize/Written.antt =====
-- src/serialize.cpp: the encoder writes the wire form.
use zen.Prelude.{[], ap, append-nil, append_assoc, arith, length, refl, replicate, suc, sym, zero}
use zen.Prelude.{ℕ, ◌%◌, ◌*◌, ◌++◌, ◌+◌, ◌/◌, ◌<◌, ◌^◌, ◌∙◌, ◌∷◌, ◌≡◌, ◌≤◌}
use zen.Binary.{Bytes, put_u8, put_uvarint}
use zen.Failure.{ok}
use zen.Schema.{Fields, Schema, TypeRef, field_count}
use zen.Value.{Cell, Cells, Slots, Value, cells_length}
use zen.Serialize.Encode.{encode_body, encode_cell, encode_cells, encode_slots, mask_size, or_at}
use zen.Serialize.Mask.{length-or_at, set_bit}
use zen.Serialize.Presence.{fill, length-replicate, new_mask, slots_length}
use zen.Serialize.Wire.{CellFits, CellsFit, IsRun-lt, SlotsFit, ValueFits, absent_fits, bool_fits}
use zen.Serialize.Wire.{bytes_fits, cell_fits, float_fits, int_fits, list_fits, message_fits}
use zen.Serialize.Wire.{no_cells_fit, no_slots_fit, present_fits, put_f64le-append}
use zen.Serialize.Wire.{put_uvarint-append, put_zigzag-append, slots_length-field_count}
use zen.Serialize.Wire.{text_fits, value_fits, wire_cell, wire_cells, wire_slots, wire_value}

or_at-append :
    (pre mask rest : Bytes) (k bits : ℕ)
    → k < length mask
    → or_at (pre ++ (mask ++ rest)) (length pre + k) bits ≡ pre ++ (or_at mask k bits ++ rest)
unfolding or_at
or_at-append [] [] rest k bits h = absurd (omega arith)
or_at-append [] (b ∷ mask) rest zero bits h = refl
or_at-append [] (b ∷ mask) rest (suc k) bits h =
    let shifted : 0 + suc k ≡ suc (0 + k) = omega arith in
    rw shifted (ap (λ l. b ∷ l) (or_at-append [] mask rest k bits (omega (arith, h))))
or_at-append (p ∷ pre) mask rest k bits h =
    let shifted : suc (length pre) + k ≡ suc (length pre + k) = omega arith in
    rw shifted (ap (λ l. p ∷ l) (or_at-append pre mask rest k bits h))

-- One cell more behind the body.
behind_body :
    (pre mask body c : Bytes) → (pre ++ (mask ++ body)) ++ c ≡ pre ++ (mask ++ (body ++ c))
behind_body pre mask body c =
    append_assoc pre (mask ++ body) c ∙ ap (λ l. pre ++ l) (append_assoc mask body c)

mutual
  unfolding encode_cell wire_cell put_u8 fill

  encode_cell-wire_cell :
      {d : ℕ} {t : TypeRef} {c : Cell}
      → CellFits d t c
      → (out : Bytes) → encode_cell c t out ≡ ok (out ++ wire_cell c)
  encode_cell-wire_cell (int_fits {d} {v} deep h) out = ap ok (put_zigzag-append out v h)
  encode_cell-wire_cell (float_fits {d} {bits} deep h canon) out = ap ok (put_f64le-append out bits)
  encode_cell-wire_cell (text_fits {d} {s} deep run utf8) out =
      rw (put_uvarint-append out (length s) (IsRun-lt s run), append_assoc out) refl
  encode_cell-wire_cell (bool_fits b deep) out = refl
  encode_cell-wire_cell (bytes_fits {d} {s} deep run) out =
      rw (put_uvarint-append out (length s) (IsRun-lt s run), append_assoc out) refl
  encode_cell-wire_cell (message_fits deep v) out = encode_body-wire_value v out
  encode_cell-wire_cell (list_fits {d} {t} {cs} deep few fits) out =
      encode_cells-wire_cells fits (put_uvarint out (cells_length cs))
      ∙ rw (put_uvarint-append out (cells_length cs) (omega (arith, few)), append_assoc out) refl

  encode_cells-wire_cells :
      {d : ℕ} {t : TypeRef} {cs : Cells}
      → CellsFit d t cs
      → (out : Bytes) → encode_cells cs t out ≡ ok (out ++ wire_cells cs)
  encode_cells-wire_cells no_cells_fit out = ap ok (sym (append-nil out))
  encode_cells-wire_cells (cell_fits {d} {t} {c} {cs} f fs) out = rw (encode_cell-wire_cell f out) (
      encode_cells-wire_cells fs (out ++ wire_cell c)
      ∙ ap ok (append_assoc out (wire_cell c) (wire_cells cs)))

  -- What the encoder appends for a value that fits is its wire form.
  pub encode_body-wire_value :
      {d : ℕ} {s : Schema} {v : Value}
      → ValueFits d s v
      → (out : Bytes) → encode_body v out ≡ ok (out ++ wire_value v)
  encode_body-wire_value (value_fits {fs = fs} {slots = slots} deep distinct fits) out =
      let count = slots_length-field_count fits in
      let whole : out ++ replicate (mask_size (field_count fs)) 0
          ≡ out ++ (new_mask (slots_length slots) ++ []) =
        rw (append-nil, count) refl in
      rw whole (
        encode_slots-wire_slots fits out (new_mask (slots_length slots)) [] 0
          (omega (arith, count, length-replicate (mask_size (slots_length slots)))))

  encode_slots-wire_slots :
      {d : ℕ} {fs : Fields} {slots : Slots}
      → SlotsFit d fs slots
      → (pre mask body : Bytes) (i : ℕ) → i + slots_length slots ≤ 8 * length mask
      → encode_slots slots fs i (length pre) (pre ++ (mask ++ body))
        ≡ ok (pre ++ (fill slots i mask ++ (body ++ wire_slots slots)))
  encode_slots-wire_slots no_slots_fit pre mask body i room =
      ap (λ (l : Bytes). ok (pre ++ (mask ++ l))) (sym (append-nil body))
  encode_slots-wire_slots (absent_fits f) pre mask body i room =
      encode_slots-wire_slots f pre mask body (i + 1) (omega (arith, room))
  encode_slots-wire_slots (present_fits {slots = slots} {c = c} f fs) pre mask body i room =
      rw
        (
          or_at-append pre mask body (i / 8) (1 * 2 ^ (i % 8) % 256) (omega (arith, room)),
          encode_cell-wire_cell f (pre ++ (set_bit mask i ++ body)),
          behind_body pre (set_bit mask i) body (wire_cell c),
        )
        (encode_slots-wire_slots fs pre (set_bit mask i) (body ++ wire_cell c) (i + 1)
            (omega (arith, room, length-or_at mask (i / 8) (1 * 2 ^ (i % 8) % 256)))
          ∙ ap (λ (l : Bytes). ok (pre ++ (fill slots (i + 1) (set_bit mask i) ++ l)))
              (append_assoc body (wire_cell c) (wire_slots slots)))
