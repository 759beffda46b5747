-- ===== src/Switchboard/Journal.antt =====
-- src/switchboard/switchboard.cpp: the numbers of a bus after any calls.
use zen.Prelude.{All, List, ap, arith, false, refl, subst, sym, true, ◌∙◌, ◌∷◌, ◌≡◌, ◌≢◌}
use zen.Switchboard.State.{Bus, DeliveryOutcome, Envelope, ShardMethods, add_observer, delivered}
use zen.Switchboard.State.{enqueue_directed, fanout, find_shard, outcome, pending, publish}
use zen.Switchboard.State.{publish_as, refused, remove_observer, send, send_as, stop}
use zen.Switchboard.Deliver.{abandon, deliver_one, refusal_of}
use zen.Switchboard.Lifecycle.{kill, reload, snapshot_bytes, swap_state, unregister_shard}
use zen.Switchboard.Fate.{IsJournaled, deliver_one-Delivery, gated_bus, gated_out, handled}
use zen.Switchboard.Fate.{outcome-refuse_delivery, outcome-run_handler, turned_away}
use zen.Switchboard.Invariant.{pump_keeps}
use zen.Switchboard.Reachable.{IsReachable, Step, delivering, entering, fresh_bus}
use zen.Switchboard.Reachable.{host_publishing, host_publishing_as, host_sending, host_sending_as}
use zen.Switchboard.Reachable.{killing, observing, one_call, pumping, registering}
use zen.Switchboard.Reachable.{registering_failed, reloading, revival_failed, snapshotting}
use zen.Switchboard.Reachable.{stopping, swapping, throwing_out, unobserving, unregistering}
use zen.Switchboard.Numbering.{IsNumberedBus, carried, deliver_one-IsNumberedBus}
use zen.Switchboard.Numbering.{enqueue-IsNumberedBus, fanout_loop-IsNumberedBus}
use zen.Switchboard.Numbering.{run_action-IsNumberedBus}
use zen.Switchboard.Mail.{SameMail-IsNumberedBus, kill_found-SameMail, register_shard-SameMail}
use zen.Switchboard.Mail.{reload_found-SameMail, snapshot_found-SameMail, swap_found-SameMail}
use zen.Switchboard.Mail.{unregister_found-SameMail}

refused-neq-pending : refused ≢ pending
refused-neq-pending e = cc

delivered-neq-pending : delivered ≢ pending
delivered-neq-pending e = cc

module _ {S : Type 0} (methods : ShardMethods S) where
  front-IsNumberedBus :
      (b : Bus S) (env : Envelope) (rest : List Envelope)
      → b.queue ≡ env ∷ rest
      → IsNumberedBus b
      → IsNumberedBus (record b { queue = rest })
  front-IsNumberedBus b env rest front h = record {
    counted = h.counted;
    started = h.started;
    queued = (subst (λ q. All (λ (x : Envelope). IsJournaled b x.seq) q) front h.queued).1;
  }

  Step-IsNumberedBus : {b b' : Bus S} → Step methods b b' → IsNumberedBus b → IsNumberedBus b'
  unfolding stop snapshot_bytes swap_state reload kill unregister_shard send publish send_as
      publish_as enqueue_directed fanout abandon add_observer remove_observer
  Step-IsNumberedBus (registering s g b' id e) h =
      SameMail-IsNumberedBus (register_shard-SameMail methods _ s g e) h
  Step-IsNumberedBus {b} (snapshotting id b' octets e) h =
      SameMail-IsNumberedBus (snapshot_found-SameMail methods b (find_shard b.shards id) e) h
  Step-IsNumberedBus (registering_failed r runs) h = SameMail-IsNumberedBus (refl, refl, refl) h
  Step-IsNumberedBus {b} (unregistering id) h =
      SameMail-IsNumberedBus (unregister_found-SameMail b id (find_shard b.shards id)) h
  Step-IsNumberedBus {b} (host_sending to m) h = enqueue-IsNumberedBus b to m false h
  Step-IsNumberedBus {b} (host_publishing m) h = fanout_loop-IsNumberedBus b.shards b m false 0 h
  Step-IsNumberedBus {b} (delivering env rest e) h =
      deliver_one-IsNumberedBus methods (record b { queue = rest }) env
        (front-IsNumberedBus b env rest e h)
  Step-IsNumberedBus {b} (host_sending_as self to m) h =
      enqueue-IsNumberedBus b to (record m { sender = self }) true h
  Step-IsNumberedBus {b} (host_publishing_as self m) h =
      fanout_loop-IsNumberedBus b.shards b (record m { sender = self }) true 0 h
  Step-IsNumberedBus {b} (pumping fuel b' e) h =
      pump_keeps methods IsNumberedBus fuel b
        (λ c env rest front held.
          deliver_one-IsNumberedBus methods (record c { queue = rest }) env
            (front-IsNumberedBus c env rest front held))
        (λ c d s held. SameMail-IsNumberedBus (refl, refl, refl) held) h e
  Step-IsNumberedBus (entering idle) h = SameMail-IsNumberedBus (refl, refl, refl) h
  Step-IsNumberedBus {b} (throwing_out env rest way a front i) h = carried refl refl refl (
      run_action-IsNumberedBus a env.target (gated_bus (record b { queue = rest }))
        (carried refl refl refl (front-IsNumberedBus b env rest front h)))
  Step-IsNumberedBus stopping h = SameMail-IsNumberedBus (refl, refl, refl) h
  Step-IsNumberedBus {b} (killing id) h =
      SameMail-IsNumberedBus (kill_found-SameMail b (find_shard b.shards id)) h
  Step-IsNumberedBus (reloading id candidate b' out e) h =
      SameMail-IsNumberedBus (reload_found-SameMail methods _ _ candidate e) h
  Step-IsNumberedBus (swapping id candidate b' out e) h =
      SameMail-IsNumberedBus (swap_found-SameMail methods _ _ candidate e) h
  Step-IsNumberedBus (revival_failed id rec s runs found) h =
      SameMail-IsNumberedBus (refl, refl, refl) h
  Step-IsNumberedBus (observing callable) h = SameMail-IsNumberedBus (refl, refl, refl) h
  Step-IsNumberedBus (unobserving id) h = SameMail-IsNumberedBus (refl, refl, refl) h

  -- Whatever calls a host makes on a new bus, in any order and whatever the shards do, with calls and
  -- handlers that throw included: between the calls and between the deliveries of a `pump`, the
  -- journal has an entry for every number below the next one, and every queued envelope
  -- carries a number, not zero, that has one.
  pub IsReachable-IsNumberedBus : {b : Bus S} → IsReachable methods b → IsNumberedBus b
  IsReachable-IsNumberedBus fresh_bus = record {
    counted = refl;
    started = omega arith;
    queued = tt;
  }
  IsReachable-IsNumberedBus (one_call b b' before step) =
      Step-IsNumberedBus step (IsReachable-IsNumberedBus before)

  -- The envelope in front of the queue is not pending any more once it was delivered: on a bus that
  -- such calls have led to, also in the middle of a `pump` and after handlers that threw, a delivery
  -- whose own handler returns ends as delivered or as refused.
  pub deliver_one_settles :
      (b : Bus S) (env : Envelope) (rest : List Envelope)
      → IsReachable methods b
      → b.queue ≡ env ∷ rest
      → (outcome (deliver_one methods (record b { queue = rest }) env) env.seq).disposition
        ≢ pending
  deliver_one_settles b env rest reached front =
      elim (deliver_one-Delivery methods (record b { queue = rest }) env) [
        | turned_away reason why same ↦
            settled_by same
              (outcome-refuse_delivery (record b { queue = rest }) env (refusal_of reason)
                journaled)
              refused-neq-pending
        | gated_out way es bad same ↦
            settled_by same
              (outcome-refuse_delivery (gated_bus (record b { queue = rest })) env _ journaled)
              refused-neq-pending
        | handled way i same ↦
            settled_by same
              (outcome-run_handler methods (gated_bus (record b { queue = rest })) way.rec env _
                journaled)
              delivered-neq-pending
      ]
    where
      journaled : IsJournaled b env.seq
      journaled =
          (subst (λ q. All (λ (x : Envelope). IsJournaled b x.seq) q) front
            (IsReachable-IsNumberedBus reached).queued).0

      settled_by :
          {b' b'' : Bus S} {o : DeliveryOutcome}
          → b' ≡ b''
          → outcome b'' env.seq ≡ o
          → o.disposition ≢ pending
          → (outcome b' env.seq).disposition ≢ pending
      settled_by same known settled p = settled (
          ap (λ (o : DeliveryOutcome). o.disposition) (sym known)
          ∙ ap (λ x. (outcome x env.seq).disposition) (sym same)
          ∙ p)
