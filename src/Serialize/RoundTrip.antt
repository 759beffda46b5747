-- ===== src/Serialize/RoundTrip.antt =====
-- src/serialize.cpp: the decoder reads the wire form back.
use zen.Prelude.{All, All-append, IsByte, [], ap, append_assoc, arith, codes, drop-length_append}
use zen.Prelude.{false, if_false, if◌then◌else◌, length, length-append, ltb, refl, some, subst}
use zen.Prelude.{sym, take-length_append, true, ℕ, ◌++◌, ◌+◌, ◌<◌, ◌^◌, ◌||◌, ◌∙◌, ◌≡◌, ◌≤◌}
use zen.Binary.{Bytes, max_binary_depth, max_field_bytes, max_list_count, put_uvarint, put_zigzag}
use zen.Binary.{take_bytes, u8, uvarint}
use zen.Binary.Varint.{uvarint_iff}
use zen.Binary.Zigzag.{zigzag_iff}
use zen.Binary.Float.{f64le-put_f64le, normalize_nan_id}
use zen.Failure.{ok, throw}
use zen.Schema.{Fields, Schema, TypeRef, field, field_count, no_fields, schema}
use zen.Schema.Distinct.{IsDistinct}
use zen.Value.{Cell, Cells, Slots, Value, absent, cells_length, empty_slots, make_value, no_slots}
use zen.Value.{present, set_field, set_found, set_slot, value}
use zen.Gate.{field_path, index_path}
use zen.Utf8.{valid_utf8}
use zen.Serialize.Encode.{mask_size}
use zen.Serialize.Decode.{Outcome, decode_body, decode_bool, decode_cell, decode_elements}
use zen.Serialize.Decode.{decode_fields, decode_list, decode_mask, decode_primitive, decode_run}
use zen.Serialize.Decode.{decode_slot, decode_text, done, padding_clear, store_field, then_do}
use zen.Serialize.Decode.{uncaught}
use zen.Serialize.Header.{take_bytes-some}
use zen.Serialize.Presence.{Marks, length-mask_of, mask_of, mask_of-Marks, mask_of-padding_clear}
use zen.Serialize.Presence.{slots_length}
use zen.Serialize.Wire.{CellFits, CellsFit, IsRun, IsRun-lt, SlotsFit, ValueFits, absent_fits}
use zen.Serialize.Wire.{bool_fits, bytes_fits, cell_fits, float_fits, int_fits, list_fits}
use zen.Serialize.Wire.{message_fits, no_cells_fit, no_slots_fit, present_fits}
use zen.Serialize.Wire.{put_uvarint-IsByte, put_zigzag-IsByte, slots_length-field_count}
use zen.Serialize.Wire.{text_fits, value_fits, wire_cell, wire_cells, wire_cells-IsByte}
use zen.Serialize.Wire.{wire_slots, wire_slots-IsByte, wire_value}
use zen.Serialize.Filling.{Aligned, Aligned-absent, Aligned-present, join_fields}
use zen.Serialize.Filling.{join_fields_next, join_slots, join_slots_absent, join_slots_present}
use zen.Serialize.Filling.{set_slot_next}

deep_ok :
    {A : Type 0} (d : ℕ) (x : A) {y : A}
    → d ≤ max_binary_depth
    → (if ltb max_binary_depth d then x else y) ≡ y
deep_ok d x h = if_false (ltb max_binary_depth d) x (ground (arith, h))

uvarint_written :
    (v : ℕ) (rest : Bytes)
    → v < 2 ^ 64
    → All IsByte rest
    → uvarint (put_uvarint [] v ++ rest) ≡ some (v, rest)
uvarint_written v rest h octets =
    (uvarint_iff _ v rest
        (All-append IsByte (put_uvarint [] v) rest (put_uvarint-IsByte v h) octets)).1
      (h, refl)

decode_run_written :
    (label path s rest : Bytes)
    → IsRun s
    → All IsByte rest
    → decode_run label path ((put_uvarint [] (length s) ++ s) ++ rest) ≡ done s rest
unfolding decode_run
decode_run_written label path s rest run octets =
    rw
      (
        append_assoc (put_uvarint [] (length s)) s rest,
        uvarint_written (length s) (s ++ rest) (IsRun-lt s run)
            (All-append IsByte s rest run.1 octets),
        within,
        take-length_append s rest,
        drop-length_append s rest,
      )
      refl
  where
    within : (ltb max_field_bytes (length s) || ltb (length (s ++ rest)) (length s)) ≡ false
    within = ground (arith, run.0, length-append s rest)

decode_text_written :
    (path s rest : Bytes)
    → IsRun s
    → valid_utf8 s ≡ true
    → All IsByte rest
    → decode_text path ((put_uvarint [] (length s) ++ s) ++ rest) ≡ done (Cell.text s) rest
unfolding decode_text
decode_text_written path s rest run utf8 octets =
    rw (decode_run_written (codes "Text") path s rest run octets, utf8) refl

decode_mask_written :
    (slots : Slots) (n : ℕ) (base rest : Bytes)
    → slots_length slots ≡ n
    → decode_mask n base (mask_of slots ++ rest) ≡ done (mask_of slots) rest
unfolding decode_mask
decode_mask_written slots n base rest e =
    rw (taken, ap (padding_clear (mask_of slots)) (sym e) ∙ mask_of-padding_clear slots) refl
  where
    taken : take_bytes (mask_size n) (mask_of slots ++ rest) ≡ some (mask_of slots, rest)
    taken =
        ap (λ (k : ℕ). take_bytes k (mask_of slots ++ rest))
          (sym (length-mask_of slots ∙ ap (λ (k : ℕ). mask_size k) e))
        ∙ take_bytes-some (mask_of slots) rest

decode_slot_present :
    (decode : Bytes → Bytes → Outcome Cell) (n : Bytes) (s : Schema) (ps qs : Slots) (c : Cell)
    (base r r' : Bytes)
    → decode (field_path base n) r ≡ done c r'
    → set_field (value s ps) n c ≡ ok (value s qs)
    → decode_slot decode n true (value s ps) base r ≡ done (value s qs) r'
unfolding decode_slot
decode_slot_present decode n s ps qs c base r r' e h =
    ap (λ o. then_do o λ c' r''. store_field (value s ps) n c' r'') e
    ∙ ap (λ stored. elim stored [ ok out ↦ done out r' | throw x ↦ uncaught x ]) h

pub set_field_stored :
    (name : Bytes) (version cid : ℕ) (all : Fields) (ps qs : Slots) (n : Bytes) (c : Cell)
    → set_slot all ps n c ≡ some qs
    → set_field (value (schema name version all cid) ps) n c
      ≡ ok (value (schema name version all cid) qs)
unfolding set_field set_found
set_field_stored name version cid all ps qs n c h = rw h refl

mutual
  unfolding wire_cell decode_cell decode_primitive decode_elements decode_list decode_slot u8
      decode_bool empty_slots make_value

  decode_cell-wire_cell :
      {d : ℕ} {t : TypeRef} {c : Cell}
      → CellFits d t c
      → (path rest : Bytes) → All IsByte rest
      → decode_cell t d path (wire_cell c ++ rest) ≡ done c rest
  decode_cell-wire_cell (int_fits {d} {v} deep h) path rest octets =
      deep_ok d _ deep
      ∙ rw
          ((zigzag_iff (put_zigzag [] v ++ rest) v rest
              (All-append IsByte (put_zigzag [] v) rest (put_zigzag-IsByte v h) octets)).1
            (h, refl))
          refl
  decode_cell-wire_cell (float_fits {d} {bits} deep h canon) path rest octets =
      deep_ok d _ deep ∙ rw (f64le-put_f64le bits rest h octets, normalize_nan_id bits canon) refl
  decode_cell-wire_cell (text_fits {d} {s} deep run utf8) path rest octets =
      deep_ok d _ deep ∙ decode_text_written path s rest run utf8 octets
  decode_cell-wire_cell (bool_fits {d} true deep) path rest octets = deep_ok d _ deep ∙ refl
  decode_cell-wire_cell (bool_fits {d} false deep) path rest octets = deep_ok d _ deep ∙ refl
  decode_cell-wire_cell (bytes_fits {d} {s} deep run) path rest octets =
      deep_ok d _ deep ∙ rw (decode_run_written (codes "Bytes") path s rest run octets) refl
  decode_cell-wire_cell (message_fits {d} {s} {v} deep fits) path rest octets =
      deep_ok d _ deep ∙ rw (decode_body-wire_value fits path rest octets) refl
  decode_cell-wire_cell (list_fits {d} {t} {cs} deep few fits) path rest octets =
      deep_ok d _ deep
      ∙ rw
          (
            append_assoc (put_uvarint [] (cells_length cs)) (wire_cells cs) rest,
            uvarint_written (cells_length cs) (wire_cells cs ++ rest) (omega (arith, few))
                (All-append IsByte (wire_cells cs) rest (wire_cells-IsByte fits) octets),
            few_enough,
            decode_elements-wire_cells fits 0 path rest octets,
          )
          refl
    where
      few_enough : ltb max_list_count (cells_length cs) ≡ false
      few_enough = ground (arith, few)

  decode_elements-wire_cells :
      {d : ℕ} {t : TypeRef} {cs : Cells}
      → CellsFit d t cs
      → (k : ℕ) (path rest : Bytes) → All IsByte rest
      → decode_elements (decode_cell t d) (cells_length cs) k path (wire_cells cs ++ rest)
        ≡ done cs rest
  decode_elements-wire_cells no_cells_fit k path rest octets = refl
  decode_elements-wire_cells (cell_fits {d} {t} {c} {cs} f fs) k path rest octets =
      rw
        (
          append_assoc (wire_cell c) (wire_cells cs) rest,
          decode_cell-wire_cell f (index_path path k) (wire_cells cs ++ rest)
              (All-append IsByte (wire_cells cs) rest (wire_cells-IsByte fs) octets),
          decode_elements-wire_cells fs (k + 1) path rest octets,
        )
        refl

  -- The decoder gives a value that fits back from its wire form, and leaves what follows.
  pub decode_body-wire_value :
      {d : ℕ} {s : Schema} {v : Value}
      → ValueFits d s v
      → (base rest : Bytes) → All IsByte rest
      → decode_body s d base (wire_value v ++ rest) ≡ done v rest
  decode_body-wire_value (value_fits {d} {version} {cid} {name} {fs} {slots} deep distinct fits)
        base rest octets =
      deep_ok d _ deep
      ∙ rw
          (
            append_assoc (mask_of slots) (wire_slots slots) rest,
            decode_mask_written slots (field_count fs) base (wire_slots slots ++ rest)
                (slots_length-field_count fits),
          )
          (decode_fields-wire_slots fits name version cid fs no_fields no_slots 0 (mask_of slots)
            base rest refl refl distinct (mask_of-Marks slots) octets)

  decode_fields-wire_slots :
      {d : ℕ} {fs : Fields} {slots : Slots}
      → SlotsFit d fs slots
      → (name : Bytes) (version cid : ℕ) (all pf : Fields) (ps : Slots) (i : ℕ)
        (mask base rest : Bytes)
      → all ≡ join_fields pf fs
      → Aligned pf ps
      → IsDistinct all
      → Marks mask i slots
      → All IsByte rest
      → decode_fields fs d i mask
          (value (schema name version all cid) (join_slots ps (empty_slots fs)))
          base
          (wire_slots slots ++ rest)
        ≡ done (value (schema name version all cid) (join_slots ps slots)) rest
  decode_fields-wire_slots no_slots_fit name version cid all pf ps i mask base rest e aligned
        distinct marks octets =
      refl
  decode_fields-wire_slots (absent_fits {d} {n} {t} {r} {fs} {slots} f) name version cid all pf ps i
        mask base rest e aligned distinct marks octets =
      let w = wire_slots slots ++ rest in
      let ps' = join_slots ps (absent no_slots) in
      rw marks.0 (
        ap (λ l. decode_fields fs d (i + 1) mask (value (schema name version all cid) l) base w)
          (sym (join_slots_absent ps (empty_slots fs)))
        ∙ decode_fields-wire_slots f name version cid all (join_fields pf (field n t r no_fields))
            ps' (i + 1) mask base rest (e ∙ sym (join_fields_next pf n t r fs))
            (Aligned-absent pf ps n t r aligned) distinct marks.1 octets
        ∙ ap (λ l. done (value (schema name version all cid) l) rest) (join_slots_absent ps slots))
  decode_fields-wire_slots (present_fits {d} {n} {t} {r} {fs} {slots} {c} f gs) name version cid all
        pf ps i mask base rest e aligned distinct marks octets =
      let w = wire_slots slots ++ rest in
      let ps' = join_slots ps (present c no_slots) in
      let stored : set_slot all (join_slots ps (absent (empty_slots fs))) n c
          ≡ some (join_slots ps (present c (empty_slots fs))) =
        rw e
          (set_slot_next pf ps n t r fs (empty_slots fs) c aligned (subst IsDistinct e distinct)) in
      rw (marks.0, append_assoc (wire_cell c) (wire_slots slots) rest)
        (ap (λ o. then_do o λ out' r'. decode_fields fs d (i + 1) mask out' base r')
            (decode_slot_present (decode_cell t d) n (schema name version all cid)
              (join_slots ps (absent (empty_slots fs))) (join_slots ps (present c (empty_slots fs)))
              c base (wire_cell c ++ w) w
              (decode_cell-wire_cell f (field_path base n) w
                (All-append IsByte (wire_slots slots) rest (wire_slots-IsByte gs) octets))
              (set_field_stored name version cid all _ _ n c stored))
          ∙ ap (λ l. decode_fields fs d (i + 1) mask (value (schema name version all cid) l) base w)
              (sym (join_slots_present ps (empty_slots fs) c))
          ∙ decode_fields-wire_slots gs name version cid all
              (join_fields pf (field n t r no_fields)) ps' (i + 1) mask base rest
              (e ∙ sym (join_fields_next pf n t r fs)) (Aligned-present pf ps n t r c aligned)
              distinct marks.1 octets
          ∙ ap (λ l. done (value (schema name version all cid) l) rest)
              (join_slots_present ps slots c))
