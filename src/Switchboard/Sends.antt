-- ===== src/Switchboard/Sends.antt =====
-- src/switchboard/switchboard.cpp: what a handler's calls on its bus do.
use zen.Prelude.{Bool, Bool-cases, List, [], ap, append-nil, append_assoc, arith, false}
use zen.Prelude.{if◌then◌else◌, inl, inr, length, length-append, refl, replicate, subst, suc, sym}
use zen.Prelude.{true, zero, ℕ, ◌++◌, ◌+◌, ◌||◌, ◌∙◌, ◌∷◌, ◌≡◌}
use zen.Registry.{Registry, lookup_schema}
use zen.Grant.{ShardId}
use zen.Switchboard.State.{Action, Bus, Envelope, Message, ShardMethods, ShardRecord, enqueue}
use zen.Switchboard.State.{enqueue_directed, fanout, fanout_loop, finished, gating, halting}
use zen.Switchboard.State.{is_recipient, pending_outcome, publish_as, publishing, resolve_schema}
use zen.Switchboard.State.{resolving, run_action, send_as, sending, stop}

-- What a handler leaves behind on its bus: the envelopes it sent, how often it ran the gate, and
-- whether it asked for a stop.
pub record Effect : Type 0 where
  pub sent : List Envelope
  pub runs : ℕ
  pub halts : Bool

abbrev pub no_effect : Effect
no_effect = record { sent = []; runs = 0; halts = false }

abbrev pub joined : Effect → Effect → Effect
joined e f = record { sent = e.sent ++ f.sent; runs = e.runs + f.runs; halts = f.halts || e.halts }

-- A message as a shard's bus sends it.
abbrev pub stamp : ShardId → Message → Message
stamp self m = record m { sender = self }

abbrev pub sent_only : List Envelope → Effect
sent_only es = record no_effect { sent = es }

module _ {S : Type 0} where
  -- An envelope for each shard of the list that takes the message, with consecutive numbers.
  unfoldable pub addressed : List (ShardRecord S) → Message → ℕ → List Envelope
  addressed [] m n = []
  addressed (r ∷ rs) m n =
      if is_recipient r m
      then record { msg = m; target = r.id; seq = n; gated = true } ∷ addressed rs m (n + 1)
      else addressed rs m n

  -- The effect of a handler on a bus with such schemas and shards, told from its calls alone: `n`
  -- is the next number.
  unfoldable pub effect_of : Action S → ShardId → Registry → List (ShardRecord S) → ℕ → Effect
  effect_of (finished s) self reg rs n = no_effect
  effect_of (sending to m next) self reg rs n =
      joined (sent_only (record { msg = stamp self m; target = to; seq = n; gated = true } ∷ []))
        (effect_of (next n) self reg rs (n + 1))
  effect_of (publishing m next) self reg rs n =
      let es = addressed rs (stamp self m) n in
      joined (sent_only es) (effect_of (next (length es)) self reg rs (n + length es))
  effect_of (resolving name version next) self reg rs n =
      effect_of (next (lookup_schema reg name version)) self reg rs n
  effect_of (gating next) self reg rs n =
      joined (record no_effect { runs = 1 }) (effect_of next self reg rs n)
  effect_of (halting next) self reg rs n =
      joined (record no_effect { halts = true }) (effect_of next self reg rs n)

  -- A bus with more envelopes behind its queue, each pending under a new number.
  unfoldable pub enlarge : Bus S → Effect → Bus S
  enlarge b e = record b {
    queue = b.queue ++ e.sent;
    journal = b.journal ++ replicate (length e.sent) pending_outcome;
    next_seq = b.next_seq + length e.sent;
    gate_runs = b.gate_runs + e.runs;
    stop_requested = e.halts || b.stop_requested;
  }

replicate-add {ℓ} :
    {A : Type ℓ} (m n : ℕ) (a : A) → replicate m a ++ replicate n a ≡ replicate (m + n) a
replicate-add zero n a = ap (λ (k : ℕ). replicate k a) (omega arith)
replicate-add (suc m) n a =
    ap (λ l. a ∷ l) (replicate-add m n a)
    ∙ ap (λ (k : ℕ). replicate k a) {x = suc (m + n)} (omega arith)

or_assoc : (p q r : Bool) → p || (q || r) ≡ (p || q) || r
or_assoc true q r = refl
or_assoc false q r = refl

module _ {S : Type 0} where
  enlarge-nil : (b : Bus S) → enlarge b no_effect ≡ b
  unfolding enlarge
  enlarge-nil b = ground (arith, append-nil b.queue, append-nil b.journal)

  enlarge-joined : (b : Bus S) (e f : Effect) → enlarge (enlarge b e) f ≡ enlarge b (joined e f)
  unfolding enlarge
  enlarge-joined b e f = ground (
    arith,
    append_assoc b.queue e.sent f.sent,
    append_assoc b.journal (replicate (length e.sent) pending_outcome)
        (replicate (length f.sent) pending_outcome),
    replicate-add (length e.sent) (length f.sent) pending_outcome,
    length-append e.sent f.sent,
    or_assoc f.halts e.halts b.stop_requested,
  )

  -- One thing after the other.
  after :
      (b : Bus S) (e f : Effect) {c d : Bus S}
      → c ≡ enlarge b e
      → d ≡ enlarge c f
      → d ≡ enlarge b (joined e f)
  after b e f p q = q ∙ ap (λ (x : Bus S). enlarge x f) p ∙ enlarge-joined b e f

  enqueue-sent_only :
      (b : Bus S) (to : ShardId) (m : Message)
      → enqueue b to m true
        ≡ enlarge b
            (sent_only (record { msg = m; target = to; seq = b.next_seq; gated = true } ∷ []))
  unfolding enqueue enlarge
  enqueue-sent_only b to m = ground arith

  fanout_loop-addressed :
      (rs : List (ShardRecord S)) (b : Bus S) (m : Message) (k : ℕ)
      → ((fanout_loop rs b m true k).0 ≡ enlarge b (sent_only (addressed rs m b.next_seq)))
        × ((fanout_loop rs b m true k).1 ≡ k + length (addressed rs m b.next_seq))
  unfolding fanout_loop addressed enqueue
  fanout_loop-addressed [] b m k = (sym (enlarge-nil b), omega arith)
  fanout_loop-addressed (r ∷ rs) b m k = elim (Bool-cases (is_recipient r m)) [
    | inl yes_one ↦ rw yes_one (
        let (grown, counted) = fanout_loop-addressed rs (enqueue b r.id m true) m (k + 1) in
        (after b _ _ (enqueue-sent_only b r.id m) grown, omega (arith, counted)))
    | inr no_one ↦ rw no_one (fanout_loop-addressed rs b m k)
  ]

  gated-effect :
      (b : Bus S)
      → record b { gate_runs = b.gate_runs + 1 } ≡ enlarge b (record no_effect { runs = 1 })
  unfolding enlarge
  gated-effect b = ground (arith, append-nil b.queue, append-nil b.journal)

  stopped-effect : (b : Bus S) → stop b ≡ enlarge b (record no_effect { halts = true })
  unfolding enlarge stop
  stopped-effect b = ground (arith, append-nil b.queue, append-nil b.journal)

  pub run_action-effect_of :
      (a : Action S) (self : ShardId) (b : Bus S)
      → (run_action a self b).0 ≡ enlarge b (effect_of a self b.registry b.shards b.next_seq)
  unfolding run_action send_as publish_as enqueue_directed fanout resolve_schema stop effect_of
      enqueue enlarge
  run_action-effect_of (finished s) self b = sym (enlarge-nil b)
  run_action-effect_of (sending to m next) self b =
      after b _ _ (enqueue-sent_only b to (stamp self m))
        (run_action-effect_of (next b.next_seq) self _)
  run_action-effect_of (publishing m next) self b =
      let (grown, counted) = fanout_loop-addressed b.shards b (stamp self m) 0 in
      let es = addressed b.shards (stamp self m) b.next_seq in
      let fan = fanout_loop b.shards b (stamp self m) true 0 in
      let many : length es ≡ fan.1 = omega (arith, counted) in
      subst
        (λ (o : Bus S × ℕ).
          (run_action (next o.1) self o.0).0
          ≡ enlarge b (effect_of (publishing m next) self b.registry b.shards b.next_seq))
        (ap (λ x. (x, length es)) (sym grown) ∙ ap (λ k. (fan.0, k)) many)
        (after b (sent_only es)
          (effect_of (next (length es)) self b.registry b.shards (b.next_seq + length es)) refl
          (run_action-effect_of (next (length es)) self (enlarge b (sent_only es))))
  run_action-effect_of (resolving name version next) self b =
      run_action-effect_of (next (lookup_schema b.registry name version)) self b
  run_action-effect_of (gating next) self b =
      after b _ _ (gated-effect b) (run_action-effect_of next self _)
  run_action-effect_of (halting next) self b =
      after b _ _ (stopped-effect b) (run_action-effect_of next self _)

-- The effect of a shard's handler on the message of an envelope.
abbrev pub handler_effect :
    {S : Type 0} → ShardMethods S → Bus S → ShardRecord S → Envelope → Effect
handler_effect methods b rec env =
    effect_of (methods.handle rec.shard env.msg) env.target b.registry b.shards b.next_seq
