-- ===== src/Switchboard/Numbering.antt =====
-- src/switchboard/switchboard.cpp: the sequence numbers of the queue and the journal.
-- Every number below the next one has an entry in the journal, and every queued envelope carries
-- such a number.
use zen.Prelude.{All, All-append, Bool, Bool-cases, List, [], arith, inl, inr, length}
use zen.Prelude.{length-append, ltb, refl, subst, sym, true, ℕ, ◌++◌, ◌+◌, ◌<◌, ◌∙◌, ◌∷◌, ◌≡◌}
use zen.Value.{Value}
use zen.Grant.{ShardId}
use zen.Switchboard.State.{Action, Bus, BusEvent, Disposition, Envelope, Message, Refusal}
use zen.Switchboard.State.{ShardMethods, ShardRecord, delivered, emit_event, enqueue}
use zen.Switchboard.State.{enqueue_directed, fanout, fanout_loop, finished, gating, halting}
use zen.Switchboard.State.{is_recipient, pending_outcome, publish_as, publishing, record_outcome}
use zen.Switchboard.State.{refused, resolve_schema, resolving, run_action, send_as, sending, stop}
use zen.Switchboard.State.{unrefused}
use zen.Switchboard.Deliver.{deliver_one, refuse_delivery, run_handler}
use zen.Switchboard.Fate.{IsJournaled, deliver_one-Delivery, gated_bus, gated_out, handled}
use zen.Switchboard.Fate.{length-set, turned_away}

pub record IsNumberedBus {S : Type 0} (b : Bus S) : Type 0 where
  pub counted : b.next_seq ≡ length b.journal
  pub started : 0 < b.next_seq
  pub queued : All (λ (e : Envelope). IsJournaled b e.seq) b.queue

All-map {ℓ κ} :
    {A : Type ℓ} {P Q : A → Type κ} (stronger : (a : A) → P a → Q a) (rows : List A)
    → All P rows
    → All Q rows
All-map stronger [] t = tt
All-map stronger (a ∷ rows) (here, front) = (stronger a here, All-map stronger rows front)

module _ {S : Type 0} where
  -- The queue, the journal's length and the next number are all that it is about.
  pub carried :
      {b b' : Bus S}
      → b'.next_seq ≡ b.next_seq
      → length b'.journal ≡ length b.journal
      → b'.queue ≡ b.queue
      → IsNumberedBus b
      → IsNumberedBus b'
  carried {b} {b'} same_seq same_length same_queue h = record {
    counted = same_seq ∙ h.counted ∙ sym same_length;
    started = omega (arith, same_seq, h.started);
    queued =
        subst (λ q. All (λ (e : Envelope). IsJournaled b' e.seq) q) (sym same_queue)
          (All-map (λ e (low, high). (low, omega (arith, high, same_length))) b.queue h.queued);
  }

  pub enqueue-IsNumberedBus :
      (b : Bus S) (to : ShardId) (m : Message) (g : Bool)
      → IsNumberedBus b
      → IsNumberedBus (enqueue b to m g)
  unfolding enqueue
  enqueue-IsNumberedBus b to m g h =
      let longer : length (b.journal ++ pending_outcome ∷ []) ≡ length b.journal + 1 =
        length-append b.journal (pending_outcome ∷ []) in
      record {
        counted = omega (arith, h.counted, longer);
        started = omega (arith, h.started);
        queued =
            All-append _ b.queue _
              (All-map (λ e (low, high). (low, omega (arith, high, longer))) b.queue h.queued)
              ((h.started, omega (arith, h.counted, longer)), tt);
      }

  pub fanout_loop-IsNumberedBus :
      (rs : List (ShardRecord S)) (b : Bus S) (m : Message) (g : Bool) (n : ℕ)
      → IsNumberedBus b
      → IsNumberedBus (fanout_loop rs b m g n).0
  unfolding fanout_loop
  fanout_loop-IsNumberedBus [] b m g n h = h
  fanout_loop-IsNumberedBus (r ∷ rs) b m g n h = elim (Bool-cases (is_recipient r m)) [
    | inl yes_one ↦ rw yes_one (
        fanout_loop-IsNumberedBus rs (enqueue b r.id m g) m g (n + 1)
          (enqueue-IsNumberedBus b r.id m g h))
    | inr no_one ↦ rw no_one (fanout_loop-IsNumberedBus rs b m g n h)
  ]

  pub run_action-IsNumberedBus :
      (a : Action S) (self : ShardId) (b : Bus S)
      → IsNumberedBus b
      → IsNumberedBus (run_action a self b).0
  unfolding run_action send_as publish_as enqueue_directed fanout stop
  run_action-IsNumberedBus (finished s) self b h = h
  run_action-IsNumberedBus (sending to m next) self b h =
      run_action-IsNumberedBus (next b.next_seq) self _ (enqueue-IsNumberedBus b to _ true h)
  run_action-IsNumberedBus (publishing m next) self b h =
      let sent = fanout_loop b.shards b (record m { sender = self }) true 0 in
      run_action-IsNumberedBus (next sent.1) self sent.0
        (fanout_loop-IsNumberedBus b.shards b _ true 0 h)
  run_action-IsNumberedBus (resolving name version next) self b h =
      run_action-IsNumberedBus (next (resolve_schema b name version)) self b h
  run_action-IsNumberedBus (gating next) self b h =
      run_action-IsNumberedBus next self _ (carried refl refl refl h)
  run_action-IsNumberedBus (halting next) self b h =
      run_action-IsNumberedBus next self _ (carried refl refl refl h)

  record_outcome-IsNumberedBus :
      (b : Bus S) (seq : ℕ) (d : Disposition) (r : Refusal) (ev : BusEvent)
      → IsNumberedBus b
      → IsNumberedBus (emit_event (record_outcome b seq d r) ev)
  unfolding record_outcome emit_event
  record_outcome-IsNumberedBus b seq d r ev h = elim (Bool-cases (ltb seq (length b.journal))) [
    | inl within ↦ rw within (carried refl (length-set b.journal seq _) refl h)
    | inr beyond ↦ rw beyond (carried refl refl refl h)
  ]

module _ {S : Type 0} (methods : ShardMethods S) where
  run_handler-IsNumberedBus :
      (b : Bus S) (rec : ShardRecord S) (env : Envelope) (v : Value)
      → IsNumberedBus b
      → IsNumberedBus (run_handler methods b rec env v)
  unfolding run_handler
  run_handler-IsNumberedBus b rec env v h =
      let ran =
        run_action (methods.handle rec.shard (record (env.msg) { payload = v })) env.target b in
      record_outcome-IsNumberedBus _ env.seq delivered unrefused _
        (carried {b = ran.0} refl refl refl (run_action-IsNumberedBus _ env.target b h))

  pub deliver_one-IsNumberedBus :
      (b : Bus S) (env : Envelope) → IsNumberedBus b → IsNumberedBus (deliver_one methods b env)
  unfolding refuse_delivery
  deliver_one-IsNumberedBus b env h = elim (deliver_one-Delivery methods b env) [
    | turned_away reason why same ↦
        subst (λ x. IsNumberedBus x) (sym same)
          (unfold refuse_delivery in record_outcome-IsNumberedBus b env.seq refused _ _ h)
    | gated_out way es bad same ↦
        subst (λ x. IsNumberedBus x) (sym same)
          (unfold refuse_delivery in
            record_outcome-IsNumberedBus (gated_bus b) env.seq refused _ _
              (carried refl refl refl h))
    | handled way i same ↦
        subst (λ x. IsNumberedBus x) (sym same)
          (run_handler-IsNumberedBus (gated_bus b) way.rec env _ (carried refl refl refl h))
  ]
