-- ===== src/Examples/Crossing.antt =====
-- Runs of the boundary to libraries: schemas as values, and a send of a library.
use zen.Prelude.{List, [], arith, bytes_eq, codes, false, none, refl, true, ℕ, ◌++◌, ◌∷◌, ◌≡◌}
use zen.Binary.{Bytes, or_le, read_le, take_bytes, u16le, u32le, u64le, u8, uvarint, uvarint_loop}
use zen.Failure.{ok}
use zen.Schema.{Fields, Kind, Schema, TypeRef, compute_content_id, field, kind_code, kind_of}
use zen.Schema.{no_fields, schema, ◌==ₖ◌}
use zen.Schema.Build.{RawField, check_fields, contains_name, is_empty, make_schema, no_element}
use zen.Schema.Build.{raw, validate_typeref}
use zen.Schema.Distinct.{IsDistinct}
use zen.Value.{Value, cell_kind, empty_slots, get_field, get_slot, make_value, set_field}
use zen.Value.{set_found, set_slot}
use zen.Gate.{validate_cell, validate_fields, validate_into, validate_primitive, validate_slot}
use zen.Registry.{find_schema, key_eq, lookup_schema}
use zen.Utf8.{continuation, in_range, lead_of, utf8_loop, valid_utf8}
use zen.Serialize.Decode.{decode_body, decode_mask, decode_primitive, decode_run, decode_slot}
use zen.Serialize.Decode.{decode_text, mask_bit, padding_clear}
use zen.Serialize.Envelope.{admit_bytes, finish, finish_first, parse}
use zen.Switchboard.State.{Bus, enqueue, enqueue_directed, new_bus}
use zen.Kernel.Codec.{decode_schema, encode_schema, type_token_schema}
use zen.Kernel.Rebuilt.{decode_schema-encode_schema}
use zen.Kernel.Host.{Status, emit_resolved, host_emit, zen_host_send, zen_ok}
use zen.Kernel.Boundary.{Emission, zen_host_send-Emission}
use zen.Examples.Gating.{ada, cons_ne, head_ne, one_published, player_found, player_schema}

-- A schema that refers to the schema of players.
abbrev roster_fields : Fields
roster_fields =
    field (codes "players") (TypeRef.list (TypeRef.message player_schema)) true
      (field (codes "open") TypeRef.bool false no_fields)

roster-IsDistinct : IsDistinct roster_fields
roster-IsDistinct =
    (cons_ne _ _, (head_ne 112 111 _ _ (λ e. absurd (omega (arith, e))), tt), (cons_ne _ _, tt, tt))

abbrev roster : Schema
roster =
    schema (codes "Roster") 2 roster_fields (compute_content_id (codes "Roster") 2 roster_fields)

decode_schema-encode_schema_example :
    (desc : Value) × (encode_schema roster ≡ ok desc)
    × (decode_schema desc one_published ≡ ok roster)
decode_schema-encode_schema_example =
    decode_schema-encode_schema (codes "Roster") 2 roster_fields one_published roster-IsDistinct
      (omega arith) ((player_found, omega arith), (tt, tt))

-- The builder makes the fixed schemas.
abbrev token_raw_fields : List RawField
token_raw_fields =
    record { name = codes "kind"; type = raw Kind.int none no_element; required = true }
    ∷ record { name = codes "ref_name"; type = raw Kind.text none no_element; required = false }
    ∷ record { name = codes "ref_version"; type = raw Kind.int none no_element; required = false }
    ∷ []

token_schema_built : make_schema (codes "zen.TypeToken") 1 token_raw_fields ≡ ok type_token_schema
unfolding make_schema check_fields is_empty contains_name validate_typeref bytes_eq
token_schema_built = refl

abbrev host_bus : Bus ℕ
host_bus = record (new_bus ℕ) { registry = one_published }

-- A player named Ada, as a library hands it over.
abbrev ada_message : Bytes
ada_message =
    0x5A ∷ 0x4E ∷ 1 ∷ 6 ∷ 0 ∷ codes "Player"
    ++ 1 ∷ 0 ∷ 0 ∷ 0 ∷ 0x92 ∷ 0x10 ∷ 0 ∷ 0 ∷ 0 ∷ 0 ∷ 0 ∷ 0 ∷ 1 ∷ 3 ∷ codes "Ada"

zen_host_send-Emission_example :
    (st : Status) × (b' : Bus ℕ) × (zen_host_send host_bus 7 4 0 5 ada_message ≡ ok (st, b'))
    × Emission host_bus 7 4 0 5 b' st
zen_host_send-Emission_example = zen_host_send-Emission host_bus 7 4 0 5 ada_message

abbrev sent_bus : Bus ℕ
sent_bus =
    enqueue (record host_bus { gate_runs = 1 }) 4
      (record { payload = ada; sender = 7; reply_to = 0; correlation = 5 }) true

ada_sent : zen_host_send host_bus 7 4 0 5 ada_message ≡ ok (zen_ok, sent_bus)
unfolding zen_host_send host_emit emit_resolved parse admit_bytes lookup_schema find_schema key_eq
    bytes_eq u8 u16le read_le or_le u32le u64le decode_body decode_mask take_bytes padding_clear
    decode_slot mask_bit decode_primitive decode_text decode_run uvarint uvarint_loop valid_utf8
    utf8_loop lead_of continuation in_range set_field set_slot set_found make_value empty_slots
    validate_into validate_fields validate_cell validate_primitive validate_slot kind_code kind_of
    ◌==ₖ◌ cell_kind get_field get_slot finish finish_first enqueue enqueue_directed
ada_sent = refl
