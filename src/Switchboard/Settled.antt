-- ===== src/Switchboard/Settled.antt =====
-- src/switchboard/switchboard.cpp: the journal entries that a delivery leaves alone.
use zen.Prelude.{Bool-cases, ap, get_elem?, inl, inr, length, ltb, refl, ℕ, ◌<◌, ◌∙◌, ◌≡◌, ◌≢◌}
use zen.Value.{Value}
use zen.Switchboard.State.{Bus, BusEvent, Disposition, Envelope, Refusal, ShardMethods}
use zen.Switchboard.State.{ShardRecord, delivered, emit_event, outcome, put_shard, record_outcome}
use zen.Switchboard.State.{refused, run_action, unrefused}
use zen.Switchboard.Deliver.{deliver_one, refusal_of, refuse_delivery, run_handler}
use zen.Switchboard.Sends.{Effect, enlarge, run_action-effect_of}
use zen.Switchboard.Fate.{deliver_one-Delivery, gated_bus, gated_out, get_elem?-append}
use zen.Switchboard.Fate.{get_elem?-set_ne, handled, turned_away}

module _ {S : Type 0} where
  pub outcome_by_entry :
      (b b' : Bus S) (n : ℕ)
      → get_elem? b'.journal n ≡ get_elem? b.journal n
      → outcome b' n ≡ outcome b n
  unfolding outcome
  outcome_by_entry b b' n same = rw same refl

  record_outcome_keeps :
      (b : Bus S) (seq n : ℕ) (d : Disposition) (r : Refusal) (ev : BusEvent)
      → seq ≢ n
      → get_elem? (emit_event (record_outcome b seq d r) ev).journal n ≡ get_elem? b.journal n
  unfolding record_outcome emit_event
  record_outcome_keeps b seq n d r ev other = elim (Bool-cases (ltb seq (length b.journal))) [
    | inl within ↦ rw within (get_elem?-set_ne b.journal seq n _ other)
    | inr beyond ↦ rw beyond refl
  ]

  refuse_delivery_keeps :
      (b : Bus S) (env : Envelope) (r : Refusal) (n : ℕ)
      → env.seq ≢ n
      → outcome (refuse_delivery b env r) n ≡ outcome b n
  unfolding refuse_delivery
  refuse_delivery_keeps b env r n other =
      outcome_by_entry b _ n (record_outcome_keeps b env.seq n refused r _ other)

  pub enlarge_keeps :
      (b : Bus S) {b' : Bus S} (n : ℕ) (e : Effect)
      → b' ≡ enlarge b e
      → n < length b.journal
      → get_elem? b'.journal n ≡ get_elem? b.journal n
  unfolding enlarge
  enlarge_keeps b {b'} n e grown within =
      ap (λ (x : Bus S). get_elem? x.journal n) grown ∙ get_elem?-append b.journal _ n within

module _ {S : Type 0} (methods : ShardMethods S) where
  run_handler_keeps :
      (b : Bus S) (rec : ShardRecord S) (env : Envelope) (v : Value) (n : ℕ)
      → env.seq ≢ n
      → n < length b.journal
      → outcome (run_handler methods b rec env v) n ≡ outcome b n
  unfolding run_handler
  run_handler_keeps b rec env v n other within =
      let ran =
        run_action (methods.handle rec.shard (record (env.msg) { payload = v })) env.target b in
      outcome_by_entry b _ n (
        record_outcome_keeps
          (record (ran.0) { shards = put_shard ran.0.shards (record rec { shard = ran.1 }) })
          env.seq n delivered unrefused _ other
        ∙ enlarge_keeps b n _ (run_action-effect_of _ env.target b) within)

  -- A delivery leaves the outcome of every other number in the journal as it was, whatever the
  -- handler sends meanwhile.
  pub deliver_one_keeps :
      (b : Bus S) (env : Envelope) (n : ℕ)
      → env.seq ≢ n
      → n < length b.journal
      → outcome (deliver_one methods b env) n ≡ outcome b n
  deliver_one_keeps b env n other within = elim (deliver_one-Delivery methods b env) [
    | turned_away reason why same ↦
        ap (λ x. outcome x n) same ∙ refuse_delivery_keeps b env (refusal_of reason) n other
    | gated_out way es bad same ↦
        ap (λ x. outcome x n) same
        ∙ refuse_delivery_keeps (gated_bus b) env _ n other
        ∙ outcome_by_entry b (gated_bus b) n refl
    | handled way i same ↦
        ap (λ x. outcome x n) same
        ∙ run_handler_keeps (gated_bus b) way.rec env env.msg.payload n other within
        ∙ outcome_by_entry b (gated_bus b) n refl
  ]
