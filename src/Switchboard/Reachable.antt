-- ===== src/Switchboard/Reachable.antt =====
-- include/zen/switchboard/switchboard.hpp: the calls of a host on the bus, in any order.
use zen.Prelude.{All, Bool, List, false, some, subst, sym, true, ℕ, ◌∷◌, ◌≡◌}
use zen.Binary.{Bytes}
use zen.Failure.{ok}
use zen.Gate.Verdict.{IsInstance}
use zen.Registry.{Registry}
use zen.Grant.{Grant, ShardId}
use zen.Switchboard.State.{Action, Bus, Envelope, Message, ShardMethods, ShardRecord}
use zen.Switchboard.State.{add_observer, enqueue, enqueue_directed, fanout, find_shard, new_bus}
use zen.Switchboard.State.{publish, publish_as, put_shard, remove_observer, send, send_as, stop}
use zen.Switchboard.Deliver.{abandon, deliver_one, pump}
use zen.Switchboard.Lifecycle.{ReviveOutcome, kill, register_shard, reload, snapshot_bytes}
use zen.Switchboard.Lifecycle.{swap_state, unregister_shard}
use zen.Switchboard.Fate.{IsRouted, gated_bus}
use zen.Switchboard.Revival.{IsSafe, IsSound, find_shard-All, put_shard-All, reload-IsSound}
use zen.Switchboard.Invariant.{pump_keeps}
use zen.Switchboard.Kept.{abandon-IsSound, deliver_one-IsSound, fanout_loop-shards}
use zen.Switchboard.Kept.{kill_found-IsSound, register_shard-IsSound, snapshot_found-IsSound}
use zen.Switchboard.Kept.{swap_found-IsSound, unregister_found-IsSound}

-- One call on the bus, or a part of `pump`: its beginning, one delivery, or a delivery whose handler
-- throws, which ends the pump. A registration that throws may leave schemas and runs of the gate, a
-- revival whose `policy` or `revive` throws an object that changed.
pub data Step {S : Type 0} (methods : ShardMethods S) (b : Bus S) : Bus S → Type 0 where
  registering :
      (s : S) (g : Grant) (b' : Bus S) (id : ShardId)
      → register_shard methods b s g ≡ ok (b', id)
      → Step methods b b'
  registering_failed :
      (r : Registry) (runs : ℕ) → Step methods b (record b { registry = r; gate_runs = runs })
  snapshotting :
      (id : ShardId) (b' : Bus S) (octets : Bytes)
      → snapshot_bytes methods b id ≡ ok (b', octets)
      → Step methods b b'
  unregistering : (id : ShardId) → Step methods b (unregister_shard b id).0
  host_sending_as : (self to : ShardId) (m : Message) → Step methods b (send_as b self to m).0
  host_publishing_as : (self : ShardId) (m : Message) → Step methods b (publish_as b self m).0
  host_sending : (to : ShardId) (m : Message) → Step methods b (send b to m).0
  host_publishing : (m : Message) → Step methods b (publish b m).0
  delivering :
      (env : Envelope) (rest : List Envelope)
      → b.queue ≡ env ∷ rest
      → Step methods b (deliver_one methods (record b { queue = rest }) env)
  pumping : (fuel : ℕ) (b' : Bus S) → pump methods fuel b ≡ some b' → Step methods b b'
  entering :
      b.in_dispatch ≡ false
      → Step methods b (record b { in_dispatch = true; stop_requested = false })
  throwing_out :
      (env : Envelope) (rest : List Envelope) (way : IsRouted (record b { queue = rest }) env)
      (a : Action S)
      → b.queue ≡ env ∷ rest
      → IsInstance env.msg.payload way.door
      → Step methods b (abandon (gated_bus (record b { queue = rest })) way.rec env a)
  stopping : Step methods b (stop b)
  killing : (id : ShardId) → Step methods b (kill b id)
  reloading :
      (id : ShardId) (candidate : Bytes) (b' : Bus S) (out : ReviveOutcome)
      → reload methods b id candidate ≡ ok (b', out)
      → Step methods b b'
  swapping :
      (id : ShardId) (candidate : Bytes) (b' : Bus S) (out : ReviveOutcome)
      → swap_state methods b id candidate ≡ ok (b', out)
      → Step methods b b'
  revival_failed :
      (id : ShardId) (rec : ShardRecord S) (s : S) (runs : ℕ)
      → find_shard b.shards id ≡ some rec
      → Step methods b
          (record b { shards = put_shard b.shards (record rec { shard = s }); gate_runs = runs })
  observing : (callable : Bool) → Step methods b (add_observer b callable).0
  unobserving : (id : ℕ) → Step methods b (remove_observer b id)

-- What a new bus becomes by such calls.
pub data IsReachable {S : Type 0} (methods : ShardMethods S) : Bus S → Type 0 where
  fresh_bus : IsReachable methods (new_bus S)
  one_call : (b b' : Bus S) → IsReachable methods b → Step methods b b' → IsReachable methods b'

module _ {S : Type 0} (methods : ShardMethods S) where
  Step-IsSound : {b b' : Bus S} → Step methods b b' → IsSound b → IsSound b'
  unfolding stop snapshot_bytes swap_state kill unregister_shard send publish send_as publish_as
      enqueue_directed enqueue fanout add_observer remove_observer
  Step-IsSound (registering s g b' id e) sound = register_shard-IsSound methods _ s g sound e
  Step-IsSound {b} (snapshotting id b' octets e) sound =
      snapshot_found-IsSound methods b (find_shard b.shards id) sound e
  Step-IsSound (registering_failed r runs) sound = sound
  Step-IsSound {b} (unregistering id) sound =
      unregister_found-IsSound methods b id (find_shard b.shards id) sound
  Step-IsSound (host_sending to m) sound = sound
  Step-IsSound {b} (host_publishing m) sound =
      subst (λ l. All IsSafe l) (sym (fanout_loop-shards b.shards b m false 0)) sound
  Step-IsSound (delivering env rest e) sound = deliver_one-IsSound methods _ env sound
  Step-IsSound (host_sending_as self to m) sound = sound
  Step-IsSound {b} (host_publishing_as self m) sound =
      subst (λ l. All IsSafe l)
        (sym (fanout_loop-shards b.shards b (record m { sender = self }) true 0)) sound
  Step-IsSound {b} (pumping fuel b' e) sound =
      pump_keeps methods IsSound fuel b (λ c env rest front h. deliver_one-IsSound methods _ env h)
        (λ c d s h. h) sound e
  Step-IsSound (entering idle) sound = sound
  Step-IsSound {b} (throwing_out env rest way a front i) sound =
      abandon-IsSound methods (gated_bus (record b { queue = rest })) way.rec env a sound
        (find_shard-All IsSafe b.shards env.target sound way.found)
  Step-IsSound stopping sound = sound
  Step-IsSound {b} (killing id) sound =
      kill_found-IsSound b (find_shard b.shards id) sound
        (λ rec found. find_shard-All IsSafe b.shards id sound found)
  Step-IsSound (reloading id candidate b' out e) sound =
      reload-IsSound methods _ id candidate sound e
  Step-IsSound (swapping id candidate b' out e) sound =
      swap_found-IsSound methods _ _ candidate sound e
  Step-IsSound {b} (revival_failed id rec s runs found) sound =
      put_shard-All IsSafe b.shards _ sound (find_shard-All IsSafe b.shards id sound found)
  Step-IsSound (observing callable) sound = sound
  Step-IsSound (unobserving id) sound = sound

  -- Whatever calls a host makes on a new bus, in any order and whatever the shards do, with calls and
  -- handlers that throw included: the last known good state of every shard is an instance of the
  -- shard's state schema, between the calls and between the deliveries of a `pump`.
  pub IsReachable-IsSound : {b : Bus S} → IsReachable methods b → IsSound b
  IsReachable-IsSound fresh_bus = tt
  IsReachable-IsSound (one_call b b' before step) = Step-IsSound step (IsReachable-IsSound before)
