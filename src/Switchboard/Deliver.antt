-- ===== src/Switchboard/Deliver.antt =====
-- src/switchboard/switchboard.cpp: `deliver_one` and `pump`.
use zen.Prelude.{Bool, List, Option, [], false, if◌then◌else◌, none, not, option_map, some, suc}
use zen.Prelude.{true, zero, ℕ, ◌||◌, ◌∷◌}
use zen.Failure.{ok, throw}
use zen.Schema.{Schema, schema_name, schema_version}
use zen.Value.{Value, value_schema}
use zen.Gate.{Admission, admit, first_error, first_only, reject}
use zen.Grant.{permits}
use zen.Switchboard.State.{Action, Bus, BusEvent, Envelope, EventKind, Refusal, RefusalReason}
use zen.Switchboard.State.{ShardMethods, ShardRecord, accept_match, capability_denied, delivered}
use zen.Switchboard.State.{delivered_event, emit_event, find_shard, gate_refused, no_such_target}
use zen.Switchboard.State.{not_accepted, put_shard, record_outcome, refused, refused_event}
use zen.Switchboard.State.{run_action, target_unavailable, unrefused}

abbrev pub refusal_of : RefusalReason → Refusal
refusal_of reason = record { reason = reason; error = none }

-- The first error of a refused admission.
abbrev pub gate_refusal : Admission → Refusal
gate_refusal a = elim (first_error a) [
  | ok e ↦ record { reason = gate_refused; error = some e }
  | throw x ↦ record { reason = gate_refused; error = none }
]

-- The event about an envelope, without its fate.
abbrev pub envelope_event : Envelope → EventKind → Refusal → Option Value → BusEvent
envelope_event env k r p = record {
  kind = k;
  seq = env.seq;
  target = env.target;
  sender = env.msg.sender;
  schema_name = schema_name (value_schema env.msg.payload);
  schema_version = schema_version (value_schema env.msg.payload);
  refusal = r;
  from_last_known_good = false;
  payload = p;
}

module _ {S : Type 0} where
  -- The four lines that every refusal of a delivery runs.
  unfoldable pub refuse_delivery : Bus S → Envelope → Refusal → Bus S
  refuse_delivery b env r =
      emit_event (record_outcome b env.seq refused r) (envelope_event env refused_event r none)

  -- The capability test, for gated messages only.
  unfoldable pub is_permitted : Bus S → Envelope → Bool
  is_permitted b env = not env.gated || (elim (find_shard b.shards env.msg.sender) [
    | none ↦ false
    | some sender ↦
        permits sender.grant (schema_name (value_schema env.msg.payload))
          (schema_version (value_schema env.msg.payload)) env.target
  ])

-- A handler threw: its calls until then are done, its object is as it left it, and no outcome is
-- recorded.
unfoldable pub abandon : {S : Type 0} → Bus S → ShardRecord S → Envelope → Action S → Bus S
abandon b rec env a =
    let (b', shard') = run_action a env.target b in
    record b' { shards = put_shard b'.shards (record rec { shard = shard' }) }

module _ {S : Type 0} (methods : ShardMethods S) where
  -- The handler runs on the admitted message, and the shard it leaves is stored.
  unfoldable pub run_handler : Bus S → ShardRecord S → Envelope → Value → Bus S
  run_handler b rec env trusted =
      let (b', shard') =
        run_action (methods.handle rec.shard (record (env.msg) { payload = trusted })) env.target
          b in
      let b'' = record b' { shards = put_shard b'.shards (record rec { shard = shard' }) } in
      emit_event (record_outcome b'' env.seq delivered unrefused)
        (envelope_event env delivered_event unrefused (some trusted))

  -- What the gate answered for the door of the target.
  unfoldable pub deliver_admitted : Bus S → ShardRecord S → Envelope → Admission → Bus S
  deliver_admitted b rec env (Admission.accept trusted) = run_handler b rec env trusted
  deliver_admitted b rec env (reject es) = refuse_delivery b env (gate_refusal (reject es))

  unfoldable pub deliver_door : Bus S → ShardRecord S → Envelope → Option Schema → Bus S
  deliver_door b rec env none = refuse_delivery b env (refusal_of not_accepted)
  deliver_door b rec env (some door) =
      let (a, runs) = admit env.msg.payload door first_only b.gate_runs in
      deliver_admitted (record b { gate_runs = runs }) rec env a

  unfoldable pub deliver_found : Bus S → Envelope → Option (ShardRecord S) → Bus S
  deliver_found b env none = refuse_delivery b env (refusal_of no_such_target)
  deliver_found b env (some rec) =
      if not rec.alive
      then refuse_delivery b env (refusal_of target_unavailable)
      else if not (is_permitted b env)
      then refuse_delivery b env (refusal_of capability_denied)
      else deliver_door b rec env (
          accept_match rec.accept_set (schema_name (value_schema env.msg.payload))
            (schema_version (value_schema env.msg.payload)))

  unfoldable pub deliver_one : Bus S → Envelope → Bus S
  deliver_one b env = deliver_found b env (find_shard b.shards env.target)

  -- The loop of `pump`. `none`: the fuel ran out, which the program has no counterpart for.
  unfoldable pub pump_loop : ℕ → Bus S → List Envelope → Option (Bus S)
  pump_loop fuel b [] = some b
  pump_loop zero b (env ∷ queue) = none
  pump_loop (suc fuel) b (env ∷ queue) = elim b.stop_requested [
    | true ↦ some b
    | false ↦ let b' = deliver_one (record b { queue = queue }) env in pump_loop fuel b' b'.queue
  ]

  unfoldable pub pump : ℕ → Bus S → Option (Bus S)
  pump fuel b =
      if b.in_dispatch
      then some b
      else option_map {A = Bus S} (λ b'. record b' { in_dispatch = false })
          (pump_loop fuel (record b { in_dispatch = true; stop_requested = false }) b.queue)
