-- ===== src/Switchboard/State.antt =====
-- src/switchboard/switchboard.cpp: the state of the bus, registration and sending.
use zen.Prelude.{Bool, List, Option, [], bytes_eq, false, get_elem?, if◌then◌else◌, length, ltb}
use zen.Prelude.{map, none, set, some, true, ℕ, ◌&&◌, ◌++◌, ◌+◌, ◌==◌, ◌∷◌}
use zen.Binary.{Bytes}
use zen.Failure.{Throws}
use zen.Schema.{Schema, schema_name, schema_version}
use zen.Value.{Value, value_schema}
use zen.Gate.{Error}
use zen.Registry.{Registry, empty_registry, lookup_schema}
use zen.Grant.{Grant, ShardId}

pub record Message : Type 0 where
  pub payload : Value
  pub sender : ShardId
  pub reply_to : ShardId
  pub correlation : ℕ

pub data RefusalReason : Type 0 where
  no_refusal no_such_target target_unavailable not_accepted gate_refused : RefusalReason
  capability_denied : RefusalReason

-- The gate's error, if the gate refused.
pub record Refusal : Type 0 where
  pub reason : RefusalReason
  pub error : Option Error

abbrev pub unrefused : Refusal
unrefused = record { reason = no_refusal; error = none }

pub data Disposition : Type 0 where
  pending delivered refused : Disposition

pub record DeliveryOutcome : Type 0 where
  pub disposition : Disposition
  pub refusal : Refusal

abbrev pub pending_outcome : DeliveryOutcome
pending_outcome = record { disposition = pending; refusal = unrefused }

pub data EventKind : Type 0 where
  delivered_event refused_event died_event revived_event : EventKind

pub record BusEvent : Type 0 where
  pub kind : EventKind
  pub seq : ℕ
  pub target : ShardId
  pub sender : ShardId
  pub schema_name : Bytes
  pub schema_version : ℕ
  pub refusal : Refusal
  pub from_last_known_good : Bool
  pub payload : Option Value

-- What a handler that returns does to the bus, down to the shard it leaves. It works out a verdict
-- of the gate by itself; what the bus sees of it is the count.
pub data Action (S : Type 0) : Type 0 where
  finished : S → Action S
  sending : ShardId → Message → (ℕ → Action S) → Action S
  publishing : Message → (ℕ → Action S) → Action S
  resolving : Bytes → ℕ → (Option Schema → Action S) → Action S
  gating halting : Action S → Action S

-- The virtual methods. `snapshot` and `policy` may run the gate, whose counter passes through them,
-- and they and `revive` may throw.
pub record ShardMethods (S : Type 0) : Type 0 where
  pub accepted : S → List (Option Schema)
  pub handle : S → Message → Action S
  pub snapshot : S → ℕ → Throws (Value × ℕ)
  pub policy : S → ℕ → Throws (Value × ℕ)
  pub revive : S → Value → Throws S

pub record ShardRecord (S : Type 0) : Type 0 where
  pub id : ShardId
  pub shard : S
  pub accept_set : List Schema
  pub state_schema : Schema
  pub last_known_good : Value
  pub grant : Grant
  pub reloads_used : ℕ
  pub alive : Bool

pub record Envelope : Type 0 where
  pub msg : Message
  pub target : ShardId
  pub seq : ℕ
  pub gated : Bool

-- The shards are in ascending order of their ids, as the map holds them. `gate_runs` is the
-- counter of the validator, `notified` the log of what each observer was told.
pub record Bus (S : Type 0) : Type 0 where
  pub registry : Registry
  pub shards : List (ShardRecord S)
  pub next_shard_id : ℕ
  pub queue : List Envelope
  pub journal : List DeliveryOutcome
  pub next_seq : ℕ
  pub observers : List (ℕ × Bool)
  pub next_observer_id : ℕ
  pub in_dispatch : Bool
  pub stop_requested : Bool
  pub notified : List (ℕ × BusEvent)
  pub gate_runs : ℕ

-- The constructor: slot 0 of the journal is unused.
abbrev pub new_bus : (S : Type 0) → Bus S
new_bus S = record {
  registry = empty_registry;
  shards = [];
  next_shard_id = 1;
  queue = [];
  journal = pending_outcome ∷ [];
  next_seq = 1;
  observers = [];
  next_observer_id = 1;
  in_dispatch = false;
  stop_requested = false;
  notified = [];
  gate_runs = 0;
}

-- `accept_match`.
unfoldable pub accept_match : List Schema → Bytes → ℕ → Option Schema
accept_match [] name version = none
accept_match (s ∷ ss) name version =
    if bytes_eq (schema_name s) name && schema_version s == version
    then some s
    else accept_match ss name version

-- `emit`: an observer with no function is passed over.
unfoldable pub notify : List (ℕ × Bool) → BusEvent → List (ℕ × BusEvent)
notify [] ev = []
notify ((id, callable) ∷ os) ev = if callable then (id, ev) ∷ notify os ev else notify os ev

unfoldable pub erase_observer : List (ℕ × Bool) → ℕ → List (ℕ × Bool)
erase_observer [] id = []
erase_observer ((i, c) ∷ os) id = if i == id then os else (i, c) ∷ erase_observer os id

module _ {S : Type 0} where
  unfoldable pub find_shard : List (ShardRecord S) → ShardId → Option (ShardRecord S)
  find_shard [] id = none
  find_shard (r ∷ rs) id = if r.id == id then some r else find_shard rs id

  -- A write through the pointer that `find` returned.
  unfoldable pub put_shard : List (ShardRecord S) → ShardRecord S → List (ShardRecord S)
  put_shard [] rec = []
  put_shard (r ∷ rs) rec = if r.id == rec.id then rec ∷ rs else r ∷ put_shard rs rec

  unfoldable pub erase_shard : List (ShardRecord S) → ShardId → List (ShardRecord S)
  erase_shard [] id = []
  erase_shard (r ∷ rs) id = if r.id == id then rs else r ∷ erase_shard rs id

  unfoldable pub emit_event : Bus S → BusEvent → Bus S
  emit_event b ev = record b { notified = b.notified ++ notify b.observers ev }

  unfoldable pub record_outcome : Bus S → ℕ → Disposition → Refusal → Bus S
  record_outcome b seq d r =
      if ltb seq (length b.journal)
      then record b { journal = set b.journal seq (record { disposition = d; refusal = r }) }
      else b

  unfoldable pub outcome : Bus S → ℕ → DeliveryOutcome
  outcome b seq =
      if seq == 0
      then pending_outcome
      else elim (get_elem? b.journal seq) [ none ↦ pending_outcome | some o ↦ o ]

  -- Both ways to send come to this: a new sequence number, pending, at the end of the queue.
  unfoldable pub enqueue : Bus S → ShardId → Message → Bool → Bus S
  enqueue b to m g = record b {
    next_seq = b.next_seq + 1;
    journal = b.journal ++ pending_outcome ∷ [];
    queue = b.queue ++ record { msg = m; target = to; seq = b.next_seq; gated = g } ∷ [];
  }

  unfoldable pub enqueue_directed : Bus S → ShardId → Message → Bool → Bus S × ℕ
  unfolding enqueue
  enqueue_directed b to m g = (enqueue b to m g, b.next_seq)

  unfoldable pub is_recipient : ShardRecord S → Message → Bool
  is_recipient r m =
      r.alive
      && (elim (accept_match r.accept_set (schema_name (value_schema m.payload))
          (schema_version (value_schema m.payload))) [ none ↦ false | some s ↦ true ])

  -- The loop of `fanout` over the shards that are left, with the recipients so far.
  unfoldable pub fanout_loop : List (ShardRecord S) → Bus S → Message → Bool → ℕ → Bus S × ℕ
  fanout_loop [] b m g n = (b, n)
  fanout_loop (r ∷ rs) b m g n =
      if is_recipient r m
      then fanout_loop rs (enqueue b r.id m g) m g (n + 1)
      else fanout_loop rs b m g n

  unfoldable pub fanout : Bus S → Message → Bool → Bus S × ℕ
  fanout b m g = fanout_loop b.shards b m g 0

  -- The host's own sends are not gated.
  unfoldable pub send : Bus S → ShardId → Message → Bus S × ℕ
  send b to m = enqueue_directed b to m false

  unfoldable pub publish : Bus S → Message → Bus S × ℕ
  publish b m = fanout b m false

  unfoldable pub send_as : Bus S → ShardId → ShardId → Message → Bus S × ℕ
  send_as b self to m = enqueue_directed b to (record m { sender = self }) true

  unfoldable pub publish_as : Bus S → ShardId → Message → Bus S × ℕ
  publish_as b self m = fanout b (record m { sender = self }) true

  unfoldable pub resolve_schema : Bus S → Bytes → ℕ → Option Schema
  resolve_schema b name version = lookup_schema b.registry name version

  unfoldable pub stop : Bus S → Bus S
  stop b = record b { stop_requested = true }

  -- A handler's calls on its `ShardBus`, which is bound to its own id, and on the bus itself.
  unfoldable pub run_action : Action S → ShardId → Bus S → Bus S × S
  run_action (finished s) self b = (b, s)
  run_action (sending to m next) self b =
      let (b', ticket) = send_as b self to m in run_action (next ticket) self b'
  run_action (publishing m next) self b =
      let (b', recipients) = publish_as b self m in run_action (next recipients) self b'
  run_action (resolving name version next) self b =
      run_action (next (resolve_schema b name version)) self b
  run_action (gating next) self b = run_action next self (record b { gate_runs = b.gate_runs + 1 })
  run_action (halting next) self b = run_action next self (stop b)

  unfoldable pub add_observer : Bus S → Bool → Bus S × ℕ
  add_observer b callable = (
    record b {
      observers = b.observers ++ (b.next_observer_id, callable) ∷ [];
      next_observer_id = b.next_observer_id + 1;
    },
    b.next_observer_id,
  )

  unfoldable pub remove_observer : Bus S → ℕ → Bus S
  remove_observer b id = record b { observers = erase_observer b.observers id }

  unfoldable pub is_alive : Bus S → ShardId → Bool
  is_alive b id = elim (find_shard b.shards id) [ none ↦ false | some r ↦ r.alive ]

  unfoldable pub list_shards : Bus S → List ShardId
  list_shards b = map (λ r. r.id) b.shards

  unfoldable pub accepted_schemas : Bus S → ShardId → List Schema
  accepted_schemas b id = elim (find_shard b.shards id) [ none ↦ [] | some r ↦ r.accept_set ]

  unfoldable pub pending_count : Bus S → ℕ
  pending_count b = length b.queue
