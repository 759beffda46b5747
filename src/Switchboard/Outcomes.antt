-- ===== src/Switchboard/Outcomes.antt =====
-- src/switchboard/switchboard.cpp: what a delivery leaves in the journal and counts at the gate.
use zen.Prelude.{Bool-cases, ap, inl, inr, length, ltb, none-neq-some, refl, some_injective}
use zen.Prelude.{subst, sym, true-neq-false, ◌+◌, ◌↔◌, ◌∙◌, ◌≡◌, ◌≢◌, ◌⊎◌}
use zen.Value.{Value}
use zen.Gate.{reject}
use zen.Gate.Verdict.{IsInstance}
use zen.Switchboard.State.{Bus, DeliveryOutcome, Envelope, Refusal, RefusalReason, ShardMethods}
use zen.Switchboard.State.{ShardRecord, delivered, emit_event, outcome, record_outcome, refused}
use zen.Switchboard.State.{run_action}
use zen.Switchboard.Deliver.{deliver_one, gate_refusal, refusal_of, refuse_delivery, run_handler}
use zen.Switchboard.Sends.{effect_of, enlarge, handler_effect, run_action-effect_of}
use zen.Switchboard.Fate.{IsJournaled, IsRouted, TurnedAway, TurnedAway-deliver_one, dead}
use zen.Switchboard.Fate.{deliver_one-Delivery, denied, gated_bus, gated_out, handled}
use zen.Switchboard.Fate.{outcome-refuse_delivery, outcome-run_handler, payload_door}
use zen.Switchboard.Fate.{refused-neq-delivered, turned_away, unaccepted, unknown}

pub IsRouted_door :
    {S : Type 0} {b : Bus S} {env : Envelope} (p q : IsRouted b env) → p.door ≡ q.door
IsRouted_door {S} {b} {env} p q =
    let same : p.rec ≡ q.rec = some_injective (sym p.found ∙ q.found) in
    some_injective (sym p.matched ∙ ap (λ r. payload_door r env) same ∙ q.matched)

pub TurnedAway-IsRouted :
    {S : Type 0} {b : Bus S} {env : Envelope} (reason : RefusalReason)
    → TurnedAway b env reason
    → ¬ IsRouted b env
TurnedAway-IsRouted reason (unknown e) way = cc (way.found, e)
TurnedAway-IsRouted reason (dead rec e down) way =
    let same : rec ≡ way.rec = some_injective (sym e ∙ way.found) in
    true-neq-false (sym way.living ∙ ap (λ (r : ShardRecord _). r.alive) (sym same) ∙ down)
TurnedAway-IsRouted reason (denied rec e living shut) way =
    true-neq-false (sym way.permitted ∙ shut)
TurnedAway-IsRouted {S} {b} {env} reason (unaccepted rec e living open_way shut) way =
    let same : rec ≡ way.rec = some_injective (sym e ∙ way.found) in
    none-neq-some (sym shut ∙ ap (λ r. payload_door r env) same ∙ way.matched)

module _ {S : Type 0} where
  pub refuse_delivery_rest :
      (b : Bus S) (env : Envelope) (r : Refusal)
      → ((refuse_delivery b env r).shards ≡ b.shards)
        × ((refuse_delivery b env r).queue ≡ b.queue)
        × ((refuse_delivery b env r).gate_runs ≡ b.gate_runs)
  unfolding refuse_delivery emit_event record_outcome
  refuse_delivery_rest b env r = elim (Bool-cases (ltb env.seq (length b.journal))) [
    | inl within ↦ rw within (refl, refl, refl)
    | inr beyond ↦ rw beyond (refl, refl, refl)
  ]

module _ {S : Type 0} (methods : ShardMethods S) where
  run_handler-gate_runs :
      (b : Bus S) (rec : ShardRecord S) (env : Envelope) (v : Value)
      → (run_handler methods b rec env v).gate_runs
        ≡ b.gate_runs
          + (effect_of
              (methods.handle rec.shard (record (env.msg) { payload = v }))
              env.target
              b.registry
              b.shards
              b.next_seq).runs
  unfolding run_handler emit_event record_outcome enlarge
  run_handler-gate_runs b rec env v =
      let ran =
        run_action (methods.handle rec.shard (record (env.msg) { payload = v })) env.target b in
      let kept_runs =
        ap (λ (x : Bus S). x.gate_runs)
          (run_action-effect_of (methods.handle rec.shard (record (env.msg) { payload = v }))
            env.target b) in
      elim (Bool-cases (ltb env.seq (length ran.0.journal))) [
        | inl within ↦ rw within kept_runs
        | inr beyond ↦ rw beyond kept_runs
      ]

  -- On a number in the journal: the outcome of a delivery is `delivered` exactly when the target is
  -- known and alive, a gated message is permitted by its sender's grant, the target accepts the
  -- claimed shape, and the payload is an instance of the schema it accepts it as.
  pub deliver_one-outcome_iff :
      (b : Bus S) (env : Envelope)
      → IsJournaled b env.seq
      → ((outcome (deliver_one methods b env) env.seq).disposition ≡ delivered)
        ↔ ((way : IsRouted b env) × IsInstance env.msg.payload way.door)
  deliver_one-outcome_iff b env h = elim (deliver_one-Delivery methods b env) [
    | turned_away reason why same ↦ (
      λ d. absurd (refused_it b (refusal_of reason) h same d),
      λ (way, i). absurd (TurnedAway-IsRouted reason why way),
    )
    | gated_out way es bad same ↦ (
      λ d. absurd (refused_it (gated_bus b) (gate_refusal (reject es)) h same d),
      λ (way', i). absurd (bad (subst (IsInstance env.msg.payload) (IsRouted_door way' way) i)),
    )
    | handled way i same ↦ (
      λ d. (way, i),
      λ _.
          ap (λ x. (outcome x env.seq).disposition) same
          ∙ ap (λ (o : DeliveryOutcome). o.disposition)
              (outcome-run_handler methods (gated_bus b) way.rec env env.msg.payload h),
    )
  ]
    where
      refused_it :
          (c : Bus S) (r : Refusal)
          → IsJournaled c env.seq
          → deliver_one methods b env ≡ refuse_delivery c env r
          → (outcome (deliver_one methods b env) env.seq).disposition ≢ delivered
      refused_it c r hc same d = refused-neq-delivered (
          sym (ap (λ (o : DeliveryOutcome). o.disposition) (outcome-refuse_delivery c env r hc))
          ∙ sym (ap (λ x. (outcome x env.seq).disposition) same)
          ∙ d)

  -- On a number in the journal: a delivery that is turned away ends with the reason that applies first: no such target, then a
  -- dead target, then a missing capability, then a shape that is not accepted. It leaves every
  -- shard and the queue as they were, and the gate does not run.
  pub deliver_one-TurnedAway :
      (b : Bus S) (env : Envelope) (reason : RefusalReason)
      → IsJournaled b env.seq
      → TurnedAway b env reason
      → let b' = deliver_one methods b env in
        (outcome b' env.seq ≡ record { disposition = refused; refusal = refusal_of reason })
        × (b'.shards ≡ b.shards)
        × (b'.queue ≡ b.queue)
        × (b'.gate_runs ≡ b.gate_runs)
  deliver_one-TurnedAway b env reason h why =
      let untouched = refuse_delivery_rest b env (refusal_of reason) in
      subst
        (λ x.
          (outcome x env.seq ≡ record { disposition = refused; refusal = refusal_of reason })
          × (x.shards ≡ b.shards)
          × (x.queue ≡ b.queue)
          × (x.gate_runs ≡ b.gate_runs))
        (sym (TurnedAway-deliver_one methods reason why))
        (outcome-refuse_delivery b env _ h, untouched.0, untouched.1, untouched.2)

  -- The gate runs once for a delivery that is routed to a door, when it refuses the payload. When
  -- the payload is an instance of the door, the handler's own runs of it come on top, of a handler
  -- that returns.
  pub deliver_one-gate_runs :
      (b : Bus S) (env : Envelope) (way : IsRouted b env)
      → ((¬ IsInstance env.msg.payload way.door)
          × ((deliver_one methods b env).gate_runs ≡ b.gate_runs + 1))
        ⊎ (IsInstance env.msg.payload way.door
            × ((deliver_one methods b env).gate_runs
                ≡ b.gate_runs + 1 + (handler_effect methods (gated_bus b) way.rec env).runs))
  deliver_one-gate_runs b env way = elim (deliver_one-Delivery methods b env) [
    | turned_away reason why same ↦ absurd (TurnedAway-IsRouted reason why way)
    | gated_out at_door es bad same ↦ inl (
      λ i. bad (subst (IsInstance env.msg.payload) (IsRouted_door way at_door) i),
      ap (λ (x : Bus S). x.gate_runs) same ∙ (refuse_delivery_rest (gated_bus b) env _).2,
    )
    | handled at_door i same ↦ inr (
      subst (IsInstance env.msg.payload) (IsRouted_door at_door way) i,
      subst
          (λ (r : ShardRecord S).
            (deliver_one methods b env).gate_runs
            ≡ b.gate_runs + 1 + (handler_effect methods (gated_bus b) r env).runs)
          (some_injective (sym at_door.found ∙ way.found))
          (ap (λ (x : Bus S). x.gate_runs) same
            ∙ run_handler-gate_runs (gated_bus b) at_door.rec env _),
    )
  ]
