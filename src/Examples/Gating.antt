-- ===== src/Examples/Gating.antt =====
-- Runs of the gate, the registry and the schema constructor.
use zen.Prelude.{[], ap, arith, bytes_eq, codes, false, if◌then◌else◌, refl, some, true, ℕ, ◌+◌}
use zen.Prelude.{◌∷◌, ◌≡◌, ◌≢◌}
use zen.Binary.{Bytes}
use zen.Failure.{ok, schema_conflict, throw}
use zen.Schema.{Fields, Schema, TypeRef, compute_content_id, content_id, field, find_field}
use zen.Schema.{no_fields, schema}
use zen.Schema.Build.{make_schema}
use zen.Schema.Distinct.{IsDistinct, erase_fields, make_schema_iff}
use zen.Value.{Cell, Value, absent, get_field, get_slot, no_slots, present, set_field, set_found}
use zen.Value.{set_slot, value}
use zen.Value.Access.{set_field-get_field}
use zen.Gate.{Admission, accept, admit, diagnose, emit_error, field_path, first_only, full}
use zen.Gate.{is_full, missing_error, reject, reject_errors, settle, validate_fields}
use zen.Gate.{validate_into, validate_slot}
use zen.Gate.Conforms.{CellConforms, all_done, filled_in, left_out, text_cell}
use zen.Gate.Verdict.{IsInstance, admit-eq-accept_iff, admit-eq-reject, admit-find_field, kept}
use zen.Registry.{Registry, find_schema, key_eq, lookup_schema, register_found, register_schema}
use zen.Registry.{registry_size, schema_key}
use zen.Registry.Publish.{lookup_schema-register_schema, register_schema-conflict_iff}
use zen.Registry.Publish.{register_schema_frozen}

abbrev pub player_fields : Fields
player_fields =
    field (codes "name") TypeRef.text true (field (codes "score") TypeRef.int false no_fields)

abbrev pub player_schema : Schema
player_schema = schema (codes "Player") 1 player_fields 4242

abbrev pub ada : Value
ada = value player_schema (present (Cell.text (codes "Ada")) (absent no_slots))

abbrev nobody : Value
nobody = value player_schema (absent (absent no_slots))

pub ada-IsInstance : IsInstance ada player_schema
ada-IsInstance =
    unfold get_field get_slot bytes_eq in
    record {
      identity = refl;
      structure = filled_in refl (text_cell (codes "Ada")) (left_out refl all_done);
    }

admit-eq-accept_iff_example : (admit ada player_schema first_only 0).0 ≡ accept ada
admit-eq-accept_iff_example =
    (admit-eq-accept_iff ada ada player_schema first_only 0).1 (refl, ada-IsInstance)

nobody_refused :
    (admit nobody player_schema full 3).0 ≡ reject (missing_error TypeRef.text (codes "name") ∷ [])
nobody_refused =
    unfold admit validate_into validate_fields validate_slot settle reject_errors emit_error is_full
      get_field get_slot bytes_eq field_path in
    refl

admit-eq-reject_example :
    (missing_error TypeRef.text (codes "name") ∷ []
      ≡ kept (is_full full) (diagnose nobody player_schema 3).0)
    × (missing_error TypeRef.text (codes "name") ∷ [] ≢ [])
    × ((admit nobody player_schema full 3).1 ≡ 3 + 1)
admit-eq-reject_example = admit-eq-reject nobody player_schema full 3 nobody_refused

ada_accepted : (admit ada player_schema full 3).0 ≡ Admission.accept ada
ada_accepted = (admit-eq-accept_iff ada ada player_schema full 3).1 (refl, ada-IsInstance)

admit-find_field_example :
    (c : Cell) × (get_field ada (codes "name") ≡ some c) × CellConforms TypeRef.text c
admit-find_field_example =
    admit-find_field ada ada player_schema full 3 (codes "name")
      {f = record { name = codes "name"; type = TypeRef.text; required = true }} ada_accepted
      (unfold find_field bytes_eq in refl) refl

ada_set : set_field nobody (codes "name") (Cell.text (codes "Ada")) ≡ ok ada
ada_set = unfold set_field set_slot set_found bytes_eq in refl

set_field-get_field_example : get_field ada (codes "name") ≡ (
    if bytes_eq (codes "name") (codes "name")
    then some (Cell.text (codes "Ada"))
    else get_field nobody (codes "name"))
set_field-get_field_example =
    set_field-get_field nobody (codes "name") (codes "name") (Cell.text (codes "Ada")) ada_set

abbrev other_player : Schema
other_player = schema (codes "Player") 1 no_fields 17

abbrev pub one_published : Registry
one_published = ((codes "Player", 1), player_schema) ∷ []

pub player_found : lookup_schema one_published (codes "Player") 1 ≡ some player_schema
player_found = unfold lookup_schema find_schema key_eq bytes_eq in refl

apart : content_id player_schema ≢ content_id other_player
apart e = absurd (omega (arith, e))

register_schema-conflict_iff_example :
    register_schema one_published (some other_player)
    ≡ throw (schema_conflict (codes "Player") 1 4242 17)
register_schema-conflict_iff_example =
    (register_schema-conflict_iff one_published other_player
        (schema_conflict (codes "Player") 1 4242 17)).1
      (player_schema, player_found, apart, refl)

registered_first :
    register_schema [] (some player_schema)
    ≡ ok (record { canonical = player_schema; inserted = true }, one_published)
registered_first = unfold register_schema register_found find_schema in refl

lookup_schema-register_schema_example :
    (lookup_schema one_published (codes "Player") 1 ≡ (
      if key_eq (schema_key player_schema) (codes "Player", 1)
      then some player_schema
      else lookup_schema [] (codes "Player") 1))
    × (content_id player_schema ≡ content_id player_schema)
    × (registry_size one_published ≡ registry_size [] + 1)
lookup_schema-register_schema_example =
    lookup_schema-register_schema [] player_schema (codes "Player") 1 registered_first

registered_again :
    register_schema one_published (some player_schema)
    ≡ ok (record { canonical = player_schema; inserted = false }, one_published)
registered_again = unfold register_schema register_found find_schema key_eq bytes_eq in refl

register_schema_frozen_example : lookup_schema one_published (codes "Player") 1 ≡ some player_schema
register_schema_frozen_example =
    register_schema_frozen one_published (some player_schema) (codes "Player") 1 player_found
      registered_again

abbrev pub front : Bytes → ℕ
front [] = 0
front (a ∷ xs) = a

pub head_ne : (a b : ℕ) (xs ys : Bytes) → a ≢ b → a ∷ xs ≢ b ∷ ys
head_ne a b xs ys ne e = ne (ap front e)

pub cons_ne : (a : ℕ) (xs : Bytes) → a ∷ xs ≢ []
cons_ne a xs e = cc

pub player-IsDistinct : IsDistinct player_fields
player-IsDistinct =
    (cons_ne _ _, (head_ne 110 115 _ _ (λ e. absurd (omega (arith, e))), tt), (cons_ne _ _, tt, tt))

make_schema_iff_example :
    make_schema (codes "Player") 1 (erase_fields player_fields)
    ≡ ok (
        schema
          (codes "Player")
          1
          player_fields
          (compute_content_id (codes "Player") 1 player_fields))
make_schema_iff_example =
    (make_schema_iff (codes "Player") 1 (erase_fields player_fields) _).1
      (player_fields, refl, refl, player-IsDistinct)
