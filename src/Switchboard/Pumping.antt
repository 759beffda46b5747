-- ===== src/Switchboard/Pumping.antt =====
-- src/switchboard/switchboard.cpp: the loop of `pump`, one delivery after the other.
use zen.Prelude.{Bool, Bool-cases, List, ap, append-nil, false, if_false, if_true, inl}
use zen.Prelude.{inr, length, ltb, refl, some, subst, suc, sym, true, ℕ, ◌++◌}
use zen.Prelude.{◌||◌, ◌∷◌, ◌≡◌, ◌⊎◌}
use zen.Gate.{reject}
use zen.Gate.Verdict.{IsInstance}
use zen.Switchboard.State.{Bus, BusEvent, Disposition, Envelope, Refusal, ShardMethods}
use zen.Switchboard.State.{ShardRecord, delivered, emit_event, record_outcome, refused}
use zen.Switchboard.State.{unrefused}
use zen.Switchboard.Deliver.{deliver_one, gate_refusal, pump_loop, refusal_of}
use zen.Switchboard.Deliver.{refuse_delivery, run_handler}
use zen.Switchboard.Sends.{Effect, enlarge, handler_effect, no_effect}
use zen.Switchboard.Sends.{run_action-effect_of}
use zen.Switchboard.Fate.{IsRouted, deliver_one-Delivery, gated_bus, gated_out, handled}
use zen.Switchboard.Fate.{turned_away}
use zen.Switchboard.Outcomes.{IsRouted_door, TurnedAway-IsRouted}

module _ {S : Type 0} where
  -- A bus on which a handler had an effect, in the same dispatch.
  pub record IsAfter (b : Bus S) (e : Effect) (b' : Bus S) : Type 0 where
    pub behind : b'.queue ≡ b.queue ++ e.sent
    pub same_dispatch : b'.in_dispatch ≡ b.in_dispatch
    pub halted : b'.stop_requested ≡ (e.halts || b.stop_requested)

  IsAfter-refl : (b : Bus S) → IsAfter b no_effect b
  IsAfter-refl b = record { behind = sym (append-nil b.queue); same_dispatch = refl; halted = refl }

  record_outcome-IsAfter :
      (b c : Bus S) (e : Effect) (seq : ℕ) (d : Disposition) (r : Refusal)
      → IsAfter b e c
      → IsAfter b e (record_outcome c seq d r)
  unfolding record_outcome
  record_outcome-IsAfter b c e seq d r h = elim (Bool-cases (ltb seq (length c.journal))) [
    | inl within ↦
        subst (IsAfter b e) (sym (if_true (ltb seq (length c.journal)) c within))
          (record { behind = h.behind; same_dispatch = h.same_dispatch; halted = h.halted })
    | inr beyond ↦ subst (IsAfter b e) (sym (if_false (ltb seq (length c.journal)) _ beyond)) h
  ]

  emit_event-IsAfter :
      (b c : Bus S) (e : Effect) (ev : BusEvent) → IsAfter b e c → IsAfter b e (emit_event c ev)
  unfolding emit_event
  emit_event-IsAfter b c e ev h = record {
    behind = h.behind;
    same_dispatch = h.same_dispatch;
    halted = h.halted;
  }

  refuse_delivery-IsAfter :
      (b c : Bus S) (env : Envelope) (r : Refusal)
      → IsAfter b no_effect c
      → IsAfter b no_effect (refuse_delivery c env r)
  unfolding refuse_delivery
  refuse_delivery-IsAfter b c env r h =
      emit_event-IsAfter b _ no_effect _ (record_outcome-IsAfter b c no_effect env.seq refused r h)

  enlarge-IsAfter : (b : Bus S) (e : Effect) → IsAfter b e (enlarge (gated_bus b) e)
  unfolding enlarge
  enlarge-IsAfter b e = record { behind = refl; same_dispatch = refl; halted = refl }

module _ {S : Type 0} (methods : ShardMethods S) where
  run_handler-IsAfter :
      (b : Bus S) (rec : ShardRecord S) (env : Envelope)
      → IsAfter b
          (handler_effect methods (gated_bus b) rec env)
          (run_handler methods (gated_bus b) rec env env.msg.payload)
  unfolding run_handler
  run_handler-IsAfter b rec env =
      let e = handler_effect methods (gated_bus b) rec env in
      let h =
        subst (IsAfter b e)
          (sym (run_action-effect_of (methods.handle rec.shard env.msg) env.target (gated_bus b)))
          (enlarge-IsAfter b e) in
      emit_event-IsAfter b _ e _ (
        record_outcome-IsAfter b _ e env.seq delivered unrefused
          (record { behind = h.behind; same_dispatch = h.same_dispatch; halted = h.halted }))

  gated_bus-IsAfter : (b : Bus S) → IsAfter b no_effect (gated_bus b)
  gated_bus-IsAfter b = record {
    behind = sym (append-nil b.queue);
    same_dispatch = refl;
    halted = refl;
  }

  -- A delivery that hands its message to a handler, routed and an instance of the door, has the
  -- effect of the handler's calls: behind the queue stands exactly what they send, in their order,
  -- and a stop is asked for exactly if it was or they ask for one. Every other delivery puts nothing
  -- behind the queue and asks for no stop. The handlers are ones that return. No delivery ends the
  -- dispatch.
  pub deliver_one_fifo :
      (b : Bus S) (env : Envelope)
      → ((way : IsRouted b env) × IsInstance env.msg.payload way.door
          × IsAfter b
              (handler_effect methods (gated_bus b) way.rec env)
              (deliver_one methods b env))
        ⊎ ((¬ ((way : IsRouted b env) × IsInstance env.msg.payload way.door))
            × IsAfter b no_effect (deliver_one methods b env))
  deliver_one_fifo b env = elim (deliver_one-Delivery methods b env) [
    | turned_away reason why same ↦ inr (
      λ (way, i). TurnedAway-IsRouted reason why way,
      subst (IsAfter b no_effect) (sym same)
          (refuse_delivery-IsAfter b b env (refusal_of reason) (IsAfter-refl b)),
    )
    | gated_out way es bad same ↦ inr (
      λ (way', i). bad (subst (IsInstance env.msg.payload) (IsRouted_door way' way) i),
      subst (IsAfter b no_effect) (sym same) (
          refuse_delivery-IsAfter b (gated_bus b) env (gate_refusal (reject es))
            (gated_bus-IsAfter b)),
    )
    | handled way i same ↦ inl (
      way,
      i,
      subst (IsAfter b (handler_effect methods (gated_bus b) way.rec env)) (sym same)
          (run_handler-IsAfter b way.rec env),
    )
  ]

  pub pump_loop_step :
      (fuel : ℕ) (b : Bus S) (env : Envelope) (queue : List Envelope)
      → b.stop_requested ≡ false
      → pump_loop methods (suc fuel) b (env ∷ queue)
        ≡ pump_loop methods fuel
            (deliver_one methods (record b { queue = queue }) env)
            (deliver_one methods (record b { queue = queue }) env).queue
  unfolding pump_loop
  pump_loop_step fuel b env queue going =
      let b' = deliver_one methods (record b { queue = queue }) env in
      ap
        (λ (halted : Bool). elim halted [
          | true ↦ some b
          | false ↦ pump_loop methods fuel b' b'.queue
        ])
        going
