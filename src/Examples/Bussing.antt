-- ===== src/Examples/Bussing.antt =====
-- Runs of src/switchboard/switchboard.cpp with a shard that counts what it handles.
use zen.Prelude.{[], arith, bytes_eq, codes, false, inl, inr, refl, some, suc, true, ℕ, ◌+◌, ◌∷◌}
use zen.Prelude.{◌≡◌, ◌≢◌, ◌⊎◌}
use zen.Prelude.Int.{pos}
use zen.Binary.{Bytes, take_bytes, u8, uvarint, uvarint_loop}
use zen.Failure.{ok}
use zen.Schema.{compute_content_id, kind_code, kind_of, ◌==ₖ◌}
use zen.Value.{Value, as_bool, as_int, boolean, cell_kind, empty_slots, get_field, get_slot}
use zen.Value.{integer, make_value, no_slots, present, set_field, set_found, set_slot, value}
use zen.Gate.{accept, admit, first_only, is_full, malformed_bytes, reject, settle, validate_cell}
use zen.Gate.{validate_fields, validate_into, validate_primitive, validate_slot}
use zen.Gate.Verdict.{IsInstance}
use zen.Registry.{find_schema, key_eq, register_found, register_schema}
use zen.Utf8.{continuation, in_range, lead_of, utf8_loop, valid_utf8}
use zen.Serialize.Decode.{decode_body, decode_mask, decode_primitive, decode_run, decode_slot}
use zen.Serialize.Decode.{decode_text, mask_bit, padding_clear}
use zen.Serialize.Envelope.{admit_bytes, claim, finish, finish_first, malformed_envelope, parse}
use zen.Serialize.Trust.{admit_bytes-IsInstance}
use zen.Grant.{Grant, no_grant, permits}
use zen.Grant.Authority.{permits_iff}
use zen.Switchboard.State.{Bus, Envelope, Message, ShardMethods, ShardRecord, accept_match}
use zen.Switchboard.State.{delivered, emit_event, enqueue, enqueue_directed, find_shard, finished}
use zen.Switchboard.State.{gating, halting, is_recipient, new_bus, no_such_target, notify}
use zen.Switchboard.State.{outcome, pending, pending_outcome, publishing, put_shard}
use zen.Switchboard.State.{record_outcome, refused, run_action, send, send_as, sending}
use zen.Switchboard.Deliver.{deliver_admitted, deliver_door, deliver_found, deliver_one}
use zen.Switchboard.Deliver.{gate_refusal, is_permitted, pump, pump_loop, refusal_of}
use zen.Switchboard.Deliver.{refuse_delivery, run_handler}
use zen.Switchboard.Lifecycle.{ReviveOutcome, add_seeded, judge_state, lifecycle_policy_schema}
use zen.Switchboard.Lifecycle.{read_policy, register_accepted, register_shard, reload}
use zen.Switchboard.Lifecycle.{reload_budgeted, reload_found, reload_judged, reload_policy}
use zen.Switchboard.Lifecycle.{revived_from_last_good}
use zen.Switchboard.Sends.{addressed, effect_of, handler_effect}
use zen.Switchboard.Sends.{stamp}
use zen.Switchboard.Fate.{IsRouted, gated_bus, payload_door, unknown}
use zen.Switchboard.Outcomes.{deliver_one-TurnedAway, deliver_one-gate_runs}
use zen.Switchboard.Outcomes.{deliver_one-outcome_iff}
use zen.Switchboard.Settled.{deliver_one_keeps}
use zen.Switchboard.Revival.{IsSound, reload-IsSound}
use zen.Switchboard.Reachable.{IsReachable, IsReachable-IsSound, fresh_bus, host_sending}
use zen.Switchboard.Reachable.{host_sending_as, one_call, pumping, registering}
use zen.Switchboard.Numbering.{IsNumberedBus}
use zen.Switchboard.Journal.{IsReachable-IsNumberedBus, deliver_one_settles}
use zen.Examples.Gating.{ada, ada-IsInstance, player_schema}

abbrev two_reloads : Value
two_reloads =
    value lifecycle_policy_schema (present (integer (pos 2)) (present (boolean true) no_slots))

abbrev pub counter_methods : ShardMethods ℕ
counter_methods = record {
  accepted = λ n. some player_schema ∷ [];
  handle = λ n m. finished (suc n);
  snapshot = λ n runs. ok (ada, runs);
  policy = λ n runs. ok (two_reloads, runs);
  revive = λ n v. ok 0;
}

abbrev pub counter : ShardRecord ℕ
counter = record {
  id = 1;
  shard = 0;
  accept_set = player_schema ∷ [];
  state_schema = player_schema;
  last_known_good = ada;
  grant = no_grant;
  reloads_used = 0;
  alive = true;
}

abbrev pub busy : Bus ℕ
busy = record (new_bus ℕ) {
  shards = counter ∷ [];
  next_shard_id = 2;
  next_seq = 2;
  journal = pending_outcome ∷ pending_outcome ∷ [];
}

abbrev pub hello : Message
hello = record { payload = ada; sender = 0; reply_to = 0; correlation = 0 }

abbrev pub letter : Envelope
letter = record { msg = hello; target = 1; seq = 1; gated = false }

letter_found : find_shard busy.shards 1 ≡ some counter
letter_found = unfold find_shard in refl

letter_permitted : is_permitted busy letter ≡ true
letter_permitted = unfold is_permitted in refl

letter_matched : payload_door counter letter ≡ some player_schema
letter_matched = unfold accept_match bytes_eq in refl

abbrev letter_routed : IsRouted busy letter
letter_routed = record {
  rec = counter;
  door = player_schema;
  found = letter_found;
  living = refl;
  permitted = letter_permitted;
  matched = letter_matched;
}

deliver_one-outcome_iff_example :
    (outcome (deliver_one counter_methods busy letter) 1).disposition ≡ delivered
deliver_one-outcome_iff_example =
    (deliver_one-outcome_iff counter_methods busy letter (omega arith, omega arith)).1
      (letter_routed, ada-IsInstance)

-- A letter to a shard that is not there.
abbrev lost : Envelope
lost = record { msg = hello; target = 9; seq = 1; gated = false }

deliver_one-TurnedAway_example :
    let after = deliver_one counter_methods busy lost in
    (outcome after 1 ≡ record { disposition = refused; refusal = refusal_of no_such_target })
    × (after.shards ≡ busy.shards)
    × (after.queue ≡ busy.queue)
    × (after.gate_runs ≡ busy.gate_runs)
deliver_one-TurnedAway_example =
    deliver_one-TurnedAway counter_methods busy lost no_such_target (omega arith, omega arith)
      (unknown (unfold find_shard in refl))

-- A shard that answers what it handles, publishes the answer too, runs the gate once and asks for a
-- stop.
abbrev pub chatty_methods : ShardMethods ℕ
chatty_methods = record counter_methods {
  handle = λ n m.
      sending 9 hello (λ ticket. gating (publishing hello (λ k. halting (finished (n + k)))));
}

deliver_one-gate_runs_example :
    ((¬ IsInstance ada player_schema)
      × ((deliver_one chatty_methods busy letter).gate_runs ≡ 0 + 1))
    ⊎ (IsInstance ada player_schema
        × ((deliver_one chatty_methods busy letter).gate_runs
            ≡ 0 + 1 + (handler_effect chatty_methods (gated_bus busy) counter letter).runs))
deliver_one-gate_runs_example = deliver_one-gate_runs chatty_methods busy letter letter_routed

-- The answer goes to shard 9, and the publication to the shard itself.
chatty_effect : effect_of (chatty_methods.handle 0 hello) 1 busy.registry busy.shards 2 ≡ record {
  sent =
      record { msg = stamp 1 hello; target = 9; seq = 2; gated = true }
      ∷ record { msg = stamp 1 hello; target = 1; seq = 3; gated = true }
      ∷ [];
  runs = 1;
  halts = true;
}
chatty_effect = unfold effect_of addressed is_recipient accept_match bytes_eq in refl

abbrev registered : Bus ℕ
registered = record (new_bus ℕ) {
  registry = ((codes "Player", 1), player_schema) ∷ [];
  shards = counter ∷ [];
  next_shard_id = 2;
  gate_runs = 1;
}

registered_now : register_shard counter_methods (new_bus ℕ) 0 no_grant ≡ ok (registered, 1)
registered_now =
    unfold register_shard register_accepted register_schema register_found find_schema key_eq
      bytes_eq add_seeded admit validate_into validate_fields validate_cell validate_primitive
      validate_slot settle get_field get_slot is_full cell_kind ◌==ₖ◌ kind_code kind_of in
    refl

registered_reached : IsReachable counter_methods registered
registered_reached =
    one_call (new_bus ℕ) registered fresh_bus (registering 0 no_grant registered 1 registered_now)

sent_reached : IsReachable counter_methods (send registered 1 hello).0
sent_reached = one_call registered _ registered_reached (host_sending 1 hello)

-- The host sends, sends as a shard, and pumps.
abbrev both_sent : Bus ℕ
both_sent = (send_as (send registered 1 hello).0 1 9 hello).0

abbrev pumped : Bus ℕ
pumped =
    let begun = record both_sent { in_dispatch = true; stop_requested = false } in
    let first =
      deliver_one counter_methods
        (record begun {
          queue = record { msg = stamp 1 hello; target = 9; seq = 2; gated = true } ∷ [];
        })
        letter in
    let second =
      deliver_one counter_methods (record first { queue = [] })
        (record { msg = stamp 1 hello; target = 9; seq = 2; gated = true }) in
    record second { in_dispatch = false }

pumped_now : pump counter_methods 2 both_sent ≡ some pumped
pumped_now =
    unfold pump pump_loop send send_as enqueue_directed enqueue deliver_one deliver_found find_shard
      refuse_delivery record_outcome emit_event notify is_permitted accept_match bytes_eq
      deliver_door deliver_admitted run_handler run_action put_shard admit validate_into
      validate_fields validate_cell validate_primitive validate_slot settle get_field get_slot
      is_full cell_kind ◌==ₖ◌ kind_code kind_of in
    refl

pumped_reached : IsReachable counter_methods pumped
pumped_reached =
    one_call both_sent pumped
      (one_call (send registered 1 hello).0 both_sent sent_reached (host_sending_as 1 9 hello))
      (pumping 2 pumped pumped_now)

IsReachable-IsSound_example : IsSound pumped
IsReachable-IsSound_example = IsReachable-IsSound counter_methods pumped_reached

-- Bytes that are no envelope: the counter falls back to its last known good state.
abbrev fallen_back : Bus ℕ × ReviveOutcome
fallen_back =
    revived_from_last_good (record busy { gate_runs = 1 }) counter 0
      (gate_refusal (
        reject (
          record {
            kind = malformed_bytes;
            path = [];
            expected = [];
            actual = [];
            detail = codes "truncated magic";
          }
          ∷ [])))

reloaded : reload counter_methods busy 1 [] ≡ ok fallen_back
reloaded =
    unfold reload reload_found reload_policy reload_budgeted reload_judged judge_state read_policy
      as_int as_bool admit_bytes parse u8 malformed_envelope find_shard admit validate_into
      validate_fields validate_cell validate_primitive validate_slot settle get_field get_slot
      bytes_eq is_full cell_kind ◌==ₖ◌ kind_code kind_of lifecycle_policy_schema
      compute_content_id in
    refl

reload-IsSound_example : IsSound fallen_back.0
reload-IsSound_example = reload-IsSound counter_methods busy 1 [] (ada-IsInstance, tt) reloaded

-- The octets of `ada` after the header.
abbrev ada_body : Bytes
ada_body = 1 ∷ 3 ∷ codes "Ada"

ada_admitted :
    admit_bytes (claim (codes "Player") 1 4242 ada_body) (some player_schema) first_only 0
    ≡ ok (accept ada, 1)
ada_admitted =
    unfold admit_bytes bytes_eq decode_body decode_mask take_bytes padding_clear decode_slot
      mask_bit decode_primitive decode_text decode_run uvarint uvarint_loop valid_utf8 utf8_loop
      lead_of continuation in_range set_field set_slot set_found make_value empty_slots
      validate_into validate_fields validate_cell validate_primitive validate_slot kind_code kind_of
      ◌==ₖ◌ cell_kind get_field get_slot finish finish_first in
    refl

admit_bytes-IsInstance_example : IsInstance ada player_schema
admit_bytes-IsInstance_example =
    admit_bytes-IsInstance (claim (codes "Player") 1 4242 ada_body) player_schema first_only 0
      ada_admitted

-- A shard that may send `Ping` to shard 5, and nothing else.
abbrev pinger : Grant
pinger = record no_grant {
  rules =
      record {
        any_shape = false;
        shape_name = codes "Ping";
        shape_version = 1;
        any_target = false;
        target = 5;
      }
      ∷ [];
}

permits_iff_example : permits pinger (codes "Ping") 1 5 ≡ true
permits_iff_example = (permits_iff pinger (codes "Ping") 1 5).1 (inl (inr (refl, refl), inr refl))

IsReachable-IsNumberedBus_example : IsNumberedBus pumped
IsReachable-IsNumberedBus_example = IsReachable-IsNumberedBus counter_methods pumped_reached

queued_letter : (send registered 1 hello).0.queue ≡ letter ∷ []
queued_letter = unfold send enqueue_directed enqueue in refl

deliver_one_settles_example :
    (outcome
      (deliver_one counter_methods (record ((send registered 1 hello).0) { queue = [] }) letter)
      1).disposition
    ≢ pending
deliver_one_settles_example =
    deliver_one_settles counter_methods ((send registered 1 hello).0) letter [] sent_reached
      queued_letter

-- Two letters are queued; the second stays pending while the first is delivered.
abbrev pub two_pending : Bus ℕ
two_pending = record busy {
  next_seq = 3;
  journal = pending_outcome ∷ pending_outcome ∷ pending_outcome ∷ [];
}

one_ne_two : letter.seq ≢ 2
one_ne_two e = absurd (omega (arith, e))

deliver_one_keeps_example :
    outcome (deliver_one counter_methods two_pending letter) 2 ≡ outcome two_pending 2
deliver_one_keeps_example =
    deliver_one_keeps counter_methods two_pending letter 2 one_ne_two (omega arith)
