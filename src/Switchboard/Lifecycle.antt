-- ===== src/Switchboard/Lifecycle.antt =====
-- src/switchboard/switchboard.cpp: registration, death and revival of shards.
use zen.Prelude.{Bool, List, Option, [], codes, false, if◌then◌else◌, none, some, true, ℕ, ◌++◌}
use zen.Prelude.{◌+◌, ◌∷◌}
use zen.Prelude.Int.{leb_ℤ, pos, ℤ}
use zen.Binary.{Bytes}
use zen.Failure.{Throws, invalid_argument, ok, throw, ◌>>=◌}
use zen.Schema.{Fields, Schema, TypeRef, compute_content_id, field, no_fields, schema}
use zen.Schema.{schema_name, schema_version}
use zen.Value.{Value, as_bool, as_int, get_field, value_schema}
use zen.Gate.{Admission, admit, error_message, first_error, first_only, reject}
use zen.Registry.{Registry, register_schema}
use zen.Serialize.Envelope.{admit_bytes, parse, serialize}
use zen.Grant.{Grant, ShardId}
use zen.Switchboard.State.{Bus, BusEvent, EventKind, Refusal, ShardMethods, ShardRecord}
use zen.Switchboard.State.{died_event, emit_event, erase_shard, find_shard, no_such_target}
use zen.Switchboard.State.{put_shard, refused_event, revived_event, unrefused}
use zen.Switchboard.Deliver.{gate_refusal, refusal_of}

pub record ReviveOutcome : Type 0 where
  pub revived : Bool
  pub from_last_known_good : Bool
  pub reloads_exhausted : Bool
  pub policy_malformed : Bool
  pub refusal : Refusal

abbrev pub no_revival : ReviveOutcome
no_revival = record {
  revived = false;
  from_last_known_good = false;
  reloads_exhausted = false;
  policy_malformed = false;
  refusal = unrefused;
}

abbrev pub policy_fields : Fields
policy_fields =
    field (codes "max_reloads") TypeRef.int true
      (field (codes "revive_from_last_good") TypeRef.bool true no_fields)

-- What the builder makes of the two fields.
unfoldable pub lifecycle_policy_schema : Schema
lifecycle_policy_schema =
    schema (codes "LifecyclePolicy") 1 policy_fields
      (compute_content_id (codes "LifecyclePolicy") 1 policy_fields)

unfoldable pub read_policy : Value → Throws (ℤ × Bool)
unfolding as_int as_bool
read_policy v = do
  max_reloads ← as_int (get_field v (codes "max_reloads"))
  from_last_good ← as_bool (get_field v (codes "revive_from_last_good"))
  ok (max_reloads, from_last_good)

module _ {S : Type 0} where
  -- The event about a shard's life, for its state schema.
  abbrev pub shard_event : ShardRecord S → EventKind → Bool → Refusal → BusEvent
  shard_event rec k from_lkg r = record {
    kind = k;
    seq = 0;
    target = rec.id;
    sender = 0;
    schema_name = schema_name rec.state_schema;
    schema_version = schema_version rec.state_schema;
    refusal = r;
    from_last_known_good = from_lkg;
    payload = none;
  }

  unfoldable pub kill_found : Bus S → Option (ShardRecord S) → Bus S
  kill_found b none = b
  kill_found b (some rec) =
      let b' = record b { shards = put_shard b.shards (record rec { alive = false }) } in
      emit_event b' (shard_event rec died_event false unrefused)

  unfoldable pub kill : Bus S → ShardId → Bus S
  unfolding kill_found
  kill b id = kill_found b (find_shard b.shards id)

  unfoldable pub unregister_found : Bus S → ShardId → Option (ShardRecord S) → Bus S × Option S
  unregister_found b id none = (b, none)
  unregister_found b id (some rec) = (record b { shards = erase_shard b.shards id }, some rec.shard)

  unfoldable pub unregister_shard : Bus S → ShardId → Bus S × Option S
  unfolding unregister_found
  unregister_shard b id = unregister_found b id (find_shard b.shards id)

  -- The object came back with its last known good state.
  abbrev pub revived_from_last_good : Bus S → ShardRecord S → S → Refusal → Bus S × ReviveOutcome
  revived_from_last_good b rec s why =
      let rec' = record rec { shard = s; reloads_used = rec.reloads_used + 1; alive = true } in
      (
        emit_event (record b { shards = put_shard b.shards rec' })
            (shard_event rec revived_event true why),
        record no_revival { revived = true; from_last_known_good = true; refusal = why },
      )

-- The loop of `register_shard` over the declared schemas.
unfoldable pub register_accepted : Registry → List (Option Schema) → Throws (List Schema × Registry)
register_accepted r [] = ok ([], r)
register_accepted r (none ∷ declared) =
    throw (invalid_argument (codes "register_shard: a declared accept schema is null"))
register_accepted r (some s ∷ declared) = register_schema r (some s) >>= λ (g, r').
    register_accepted r' declared >>= λ (accept_set, r''). ok (g.canonical ∷ accept_set, r'')

module _ {S : Type 0} (methods : ShardMethods S) where
  -- The shard is added if its first snapshot is an instance of its own schema.
  unfoldable pub add_seeded :
      Bus S → S → Grant → List Schema → Schema → Admission → Throws (Bus S × ShardId)
  unfolding first_error error_message
  add_seeded b s g accept_set state (Admission.accept seed) = ok (
    record b {
      shards =
          b.shards
          ++ record {
            id = b.next_shard_id;
            shard = s;
            accept_set = accept_set;
            state_schema = state;
            last_known_good = seed;
            grant = g;
            reloads_used = 0;
            alive = true;
          }
            ∷ [];
      next_shard_id = b.next_shard_id + 1;
    },
    b.next_shard_id,
  )
  add_seeded b s g accept_set state (reject es) = first_error (reject es) >>= λ e. throw (
      invalid_argument (
        codes "register_shard: initial snapshot does not conform to its own schema: "
        ++ error_message e))

  -- On a shard that is not null.
  unfoldable pub register_shard : Bus S → S → Grant → Throws (Bus S × ShardId)
  unfolding add_seeded register_accepted
  register_shard b s g = register_accepted b.registry (methods.accepted s) >>= λ (accept_set, r).
      methods.snapshot s b.gate_runs >>= λ (snap, snap_runs).
      let state = value_schema snap in
      register_schema r (some state) >>= λ (registered, r').
      let (seeded, runs) = admit snap state first_only snap_runs in
      add_seeded (record b { registry = r'; gate_runs = runs }) s g accept_set state seeded

  unfoldable pub snapshot_found : Bus S → Option (ShardRecord S) → Throws (Bus S × Bytes)
  snapshot_found b none = throw (invalid_argument (codes "snapshot_bytes: no such shard"))
  snapshot_found b (some rec) = methods.snapshot rec.shard b.gate_runs >>= λ (snap, runs).
      serialize snap >>= λ octets. ok (record b { gate_runs = runs }, octets)

  unfoldable pub snapshot_bytes : Bus S → ShardId → Throws (Bus S × Bytes)
  unfolding snapshot_found
  snapshot_bytes b id = snapshot_found b (find_shard b.shards id)

  -- The candidate state was admitted.
  unfoldable pub revive_with : Bus S → ShardRecord S → Value → ℕ → Throws (Bus S × ReviveOutcome)
  revive_with b rec state used = methods.revive rec.shard state >>= λ s'.
      let rec' = record rec {
        shard = s';
        last_known_good = state;
        reloads_used = used;
        alive = true;
      } in
      ok (
        emit_event (record b { shards = put_shard b.shards rec' })
            (shard_event rec revived_event false unrefused),
        record no_revival { revived = true },
      )

  -- The candidate was refused, and the policy decides.
  unfoldable pub fall_back : Bus S → ShardRecord S → Bool → Refusal → Throws (Bus S × ReviveOutcome)
  fall_back b rec true why = methods.revive rec.shard rec.last_known_good >>= λ s'.
      ok (revived_from_last_good b rec s' why)
  fall_back b rec false why =
      ok (
        emit_event b (shard_event rec refused_event false why),
        record no_revival { refusal = why },
      )

  unfoldable pub reload_judged :
      Bus S → ShardRecord S → Bool → Admission → Throws (Bus S × ReviveOutcome)
  unfolding revive_with fall_back
  reload_judged b rec from_last_good (Admission.accept state) =
      revive_with b rec state (rec.reloads_used + 1)
  reload_judged b rec from_last_good (reject es) =
      fall_back b rec from_last_good (gate_refusal (reject es))

  -- `parse`, and the gate for bytes under the state schema.
  unfoldable pub judge_state : Bus S → ShardRecord S → Bytes → Throws (Admission × ℕ)
  judge_state b rec candidate =
      admit_bytes (parse candidate) (some rec.state_schema) first_only b.gate_runs

  -- The policy is well formed: its budget, then the candidate.
  unfoldable pub reload_budgeted :
      Bus S → ShardRecord S → ℤ → Bool → Bytes → Throws (Bus S × ReviveOutcome)
  unfolding reload_judged judge_state
  reload_budgeted b rec max_reloads from_last_good candidate =
      if leb_ℤ max_reloads (pos rec.reloads_used)
      then ok (b, record no_revival { reloads_exhausted = true })
      else (judge_state b rec candidate >>= λ (a, runs).
          reload_judged (record b { gate_runs = runs }) rec from_last_good a)

  unfoldable pub reload_policy :
      Bus S → ShardRecord S → Bytes → Admission → Throws (Bus S × ReviveOutcome)
  unfolding reload_budgeted
  reload_policy b rec candidate (reject es) =
      ok (b, record no_revival { policy_malformed = true; refusal = gate_refusal (reject es) })
  reload_policy b rec candidate (Admission.accept pol) =
      read_policy pol >>= λ (max_reloads, from_last_good).
      reload_budgeted b rec max_reloads from_last_good candidate

  unfoldable pub reload_found :
      Bus S → Option (ShardRecord S) → Bytes → Throws (Bus S × ReviveOutcome)
  unfolding reload_policy
  reload_found b none candidate = ok (b, record no_revival { refusal = refusal_of no_such_target })
  reload_found b (some rec) candidate =
      methods.policy rec.shard b.gate_runs >>= λ (policy, policy_runs).
      let (pol, runs) = admit policy lifecycle_policy_schema first_only policy_runs in
      reload_policy (record b { gate_runs = runs }) rec candidate pol

  unfoldable pub reload : Bus S → ShardId → Bytes → Throws (Bus S × ReviveOutcome)
  unfolding reload_found
  reload b id candidate = reload_found b (find_shard b.shards id) candidate

  unfoldable pub swap_judged : Bus S → ShardRecord S → Admission → Throws (Bus S × ReviveOutcome)
  unfolding revive_with
  swap_judged b rec (Admission.accept state) = revive_with b rec state rec.reloads_used
  swap_judged b rec (reject es) = ok (
    emit_event b (shard_event rec refused_event false (gate_refusal (reject es))),
    record no_revival { refusal = gate_refusal (reject es) },
  )

  unfoldable pub swap_found :
      Bus S → Option (ShardRecord S) → Bytes → Throws (Bus S × ReviveOutcome)
  unfolding swap_judged judge_state
  swap_found b none candidate = ok (b, record no_revival { refusal = refusal_of no_such_target })
  swap_found b (some rec) candidate =
      judge_state b rec candidate >>= λ (a, runs). swap_judged (record b { gate_runs = runs }) rec a

  unfoldable pub swap_state : Bus S → ShardId → Bytes → Throws (Bus S × ReviveOutcome)
  unfolding swap_found
  swap_state b id candidate = swap_found b (find_shard b.shards id) candidate
