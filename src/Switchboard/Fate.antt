-- ===== src/Switchboard/Fate.antt =====
-- src/switchboard/switchboard.cpp: what becomes of one envelope.
use zen.Prelude.{==_iff, Bool-cases, List, Option, [], ap, arith, false, get_elem?, if_false}
use zen.Prelude.{if_true, inl, inr, length, length-append, lt→ltb, none, not, refl, replicate}
use zen.Prelude.{set, some, subst, suc, sym, true, zero, ℕ, ◌++◌, ◌+◌, ◌<◌, ◌==◌, ◌∙◌, ◌∷◌, ◌≡◌}
use zen.Prelude.{◌≢◌}
use zen.Schema.{Schema, schema_name, schema_version}
use zen.Value.{Value, value_schema}
use zen.Gate.{Admission, Error, admit, first_only, reject}
use zen.Gate.Verdict.{IsInstance, admit-eq-accept_iff, admit_runs}
use zen.Switchboard.State.{Bus, DeliveryOutcome, Disposition, Envelope, Refusal, RefusalReason}
use zen.Switchboard.State.{ShardMethods, ShardRecord, accept_match, capability_denied, delivered}
use zen.Switchboard.State.{emit_event, find_shard, no_such_target, not_accepted, outcome}
use zen.Switchboard.State.{pending_outcome, put_shard, record_outcome, refused, run_action}
use zen.Switchboard.State.{target_unavailable, unrefused}
use zen.Switchboard.Deliver.{deliver_admitted, deliver_door, deliver_found, deliver_one}
use zen.Switchboard.Deliver.{gate_refusal, is_permitted, refusal_of, refuse_delivery, run_handler}
use zen.Switchboard.Sends.{Effect, enlarge, run_action-effect_of}

-- A number that the journal holds.
abbrev pub IsJournaled : {S : Type 0} → Bus S → ℕ → Type 0
IsJournaled b seq = (0 < seq) × (seq < length b.journal)

get_elem?-set_self {ℓ} :
    {A : Type ℓ} (xs : List A) (i : ℕ) (v : A) → i < length xs → get_elem? (set xs i v) i ≡ some v
get_elem?-set_self [] i v h = elim h [ ]
get_elem?-set_self (x ∷ xs) zero v h = refl
get_elem?-set_self (x ∷ xs) (suc i) v h = get_elem?-set_self xs i v (omega arith)

pub get_elem?-set_ne {ℓ} :
    {A : Type ℓ} (xs : List A) (i j : ℕ) (v : A) → i ≢ j → get_elem? (set xs i v) j ≡ get_elem? xs j
get_elem?-set_ne [] i j v h = refl
get_elem?-set_ne (x ∷ xs) zero zero v h = absurd (h refl)
get_elem?-set_ne (x ∷ xs) zero (suc j) v h = refl
get_elem?-set_ne (x ∷ xs) (suc i) zero v h = refl
get_elem?-set_ne (x ∷ xs) (suc i) (suc j) v h = get_elem?-set_ne xs i j v (λ e. h (ap suc e))

pub length-set {ℓ} : {A : Type ℓ} (xs : List A) (i : ℕ) (v : A) → length (set xs i v) ≡ length xs
length-set [] i v = refl
length-set (x ∷ xs) zero v = refl
length-set (x ∷ xs) (suc i) v = ap suc (length-set xs i v)

pub get_elem?-append {ℓ} :
    {A : Type ℓ} (xs ys : List A) (i : ℕ) → i < length xs → get_elem? (xs ++ ys) i ≡ get_elem? xs i
get_elem?-append [] ys i h = elim h [ ]
get_elem?-append (x ∷ xs) ys zero h = refl
get_elem?-append (x ∷ xs) ys (suc i) h = get_elem?-append xs ys i (omega arith)

module _ {S : Type 0} where
  outcome-journal :
      (b : Bus S) (seq : ℕ) {o : DeliveryOutcome}
      → 0 < seq
      → get_elem? b.journal seq ≡ some o
      → outcome b seq ≡ o
  unfolding outcome
  outcome-journal b zero h found = elim h [ ]
  outcome-journal b (suc seq) h found =
      rw found (if_false (suc seq == 0) _ (ground (arith, ==_iff (suc seq) 0)))

  outcome-record_outcome :
      (b : Bus S) (seq : ℕ) (d : Disposition) (r : Refusal)
      → IsJournaled b seq
      → outcome (record_outcome b seq d r) seq ≡ record { disposition = d; refusal = r }
  unfolding record_outcome
  outcome-record_outcome b seq d r (positive, within) =
      rw (lt→ltb seq (length b.journal) within)
        (outcome-journal _ seq positive (get_elem?-set_self b.journal seq _ within))

  grown_journal :
      (b : Bus S) {b' : Bus S} (seq : ℕ) (e : Effect)
      → b' ≡ enlarge b e
      → seq < length b.journal
      → seq < length b'.journal
  unfolding enlarge
  grown_journal b {b'} seq e grown within = omega (
    arith,
    ap (λ (x : Bus S). length x.journal) grown,
    length-append b.journal (replicate (length e.sent) pending_outcome),
  )

  pub outcome-refuse_delivery :
      (b : Bus S) (env : Envelope) (r : Refusal)
      → IsJournaled b env.seq
      → outcome (refuse_delivery b env r) env.seq ≡ record { disposition = refused; refusal = r }
  unfolding refuse_delivery emit_event outcome
  outcome-refuse_delivery b env r h = unfold outcome in outcome-record_outcome b env.seq refused r h

module _ {S : Type 0} (methods : ShardMethods S) where
  pub outcome-run_handler :
      (b : Bus S) (rec : ShardRecord S) (env : Envelope) (v : Value)
      → IsJournaled b env.seq
      → outcome (run_handler methods b rec env v) env.seq
        ≡ record { disposition = delivered; refusal = unrefused }
  unfolding run_handler emit_event
  outcome-run_handler b rec env v (positive, within) =
      let ran =
        run_action (methods.handle rec.shard (record (env.msg) { payload = v })) env.target b in
      let longer : env.seq < length ran.0.journal =
        grown_journal b env.seq _ (run_action-effect_of _ env.target b) within in
      unfold outcome in
      outcome-record_outcome
        (record (ran.0) { shards = put_shard ran.0.shards (record rec { shard = ran.1 }) }) env.seq
        delivered unrefused (positive, longer)

-- The door of a shard for the shape that the payload claims.
abbrev pub payload_door : {S : Type 0} → ShardRecord S → Envelope → Option Schema
payload_door rec env =
    accept_match rec.accept_set (schema_name (value_schema env.msg.payload))
      (schema_version (value_schema env.msg.payload))

-- Why an envelope is turned away before the gate sees it.
pub data TurnedAway {S : Type 0} (b : Bus S) (env : Envelope) : RefusalReason → Type 0 where
  unknown : find_shard b.shards env.target ≡ none → TurnedAway b env no_such_target
  dead :
      (rec : ShardRecord S)
      → find_shard b.shards env.target ≡ some rec
      → rec.alive ≡ false
      → TurnedAway b env target_unavailable
  denied :
      (rec : ShardRecord S)
      → find_shard b.shards env.target ≡ some rec
      → rec.alive ≡ true
      → is_permitted b env ≡ false
      → TurnedAway b env capability_denied
  unaccepted :
      (rec : ShardRecord S)
      → find_shard b.shards env.target ≡ some rec
      → rec.alive ≡ true
      → is_permitted b env ≡ true
      → payload_door rec env ≡ none
      → TurnedAway b env not_accepted

-- What it takes for an envelope to reach the gate: its target is there and alive, it is
-- permitted, and the target has a door for its shape.
pub record IsRouted {S : Type 0} (b : Bus S) (env : Envelope) : Type 0 where
  pub rec : ShardRecord S
  pub door : Schema
  pub found : find_shard b.shards env.target ≡ some rec
  pub living : rec.alive ≡ true
  pub permitted : is_permitted b env ≡ true
  pub matched : payload_door rec env ≡ some door

-- The bus with one more run of the gate.
abbrev pub gated_bus : {S : Type 0} → Bus S → Bus S
gated_bus b = record b { gate_runs = b.gate_runs + 1 }

-- The three things that a delivery can be.
pub data Delivery {S : Type 0} (methods : ShardMethods S) (b : Bus S) (env : Envelope) (b' : Bus S)
    : Type 0 where
  turned_away :
      (reason : RefusalReason)
      → TurnedAway b env reason
      → b' ≡ refuse_delivery b env (refusal_of reason)
      → Delivery methods b env b'
  gated_out :
      (way : IsRouted b env) (es : List Error)
      → ¬ IsInstance env.msg.payload way.door
      → b' ≡ refuse_delivery (gated_bus b) env (gate_refusal (reject es))
      → Delivery methods b env b'
  handled :
      (way : IsRouted b env)
      → IsInstance env.msg.payload way.door
      → b' ≡ run_handler methods (gated_bus b) way.rec env env.msg.payload
      → Delivery methods b env b'

pub refused-neq-delivered : refused ≢ delivered
refused-neq-delivered e = cc

reject-neq-accept : {es : List Error} {w : Value} → Admission.reject es ≢ Admission.accept w
reject-neq-accept e = cc

module _ {S : Type 0} (methods : ShardMethods S) where
  deliver_admitted-Delivery :
      (b : Bus S) (env : Envelope) (way : IsRouted b env) (a : Admission)
      → (admit env.msg.payload way.door first_only b.gate_runs).0 ≡ a
      → Delivery methods b env (deliver_admitted methods (gated_bus b) way.rec env a)
  unfolding deliver_admitted
  deliver_admitted-Delivery b env way (Admission.accept w) e =
      let (same, instance_of) =
        (admit-eq-accept_iff env.msg.payload w way.door first_only b.gate_runs).0 e in
      handled way instance_of (ap (λ u. run_handler methods (gated_bus b) way.rec env u) same)
  deliver_admitted-Delivery b env way (reject es) e =
      gated_out way es
        (λ i.
          reject-neq-accept
            (sym e ∙ (admit-eq-accept_iff _ _ way.door first_only b.gate_runs).1 (refl, i)))
        refl

  deliver_door-Delivery :
      (b : Bus S) (env : Envelope) (way : IsRouted b env)
      → Delivery methods b env (deliver_door methods b way.rec env (some way.door))
  unfolding deliver_door
  deliver_door-Delivery b env way =
      let a = (admit env.msg.payload way.door first_only b.gate_runs).0 in
      subst
        (λ n.
          Delivery methods b env
            (deliver_admitted methods (record b { gate_runs = n }) way.rec env a))
        (sym (admit_runs env.msg.payload way.door first_only b.gate_runs))
        (deliver_admitted-Delivery b env way a refl)

  deliver_permitted-Delivery :
      (b : Bus S) (env : Envelope) (rec : ShardRecord S)
      → find_shard b.shards env.target ≡ some rec
      → rec.alive ≡ true
      → is_permitted b env ≡ true
      → (door : Option Schema) → payload_door rec env ≡ door
      → Delivery methods b env (deliver_door methods b rec env door)
  unfolding deliver_door
  deliver_permitted-Delivery b env rec e living permitted none shut =
      turned_away not_accepted (unaccepted rec e living permitted shut) refl
  deliver_permitted-Delivery b env rec e living permitted (some door) open_door =
      unfold deliver_door in
      deliver_door-Delivery b env (record {
        rec = rec;
        door = door;
        found = e;
        living = living;
        permitted = permitted;
        matched = open_door;
      })

  deliver_found-Delivery :
      (b : Bus S) (env : Envelope) (found : Option (ShardRecord S))
      → find_shard b.shards env.target ≡ found
      → Delivery methods b env (deliver_found methods b env found)
  unfolding deliver_found
  deliver_found-Delivery b env none e = turned_away no_such_target (unknown e) refl
  deliver_found-Delivery b env (some rec) e = elim (Bool-cases rec.alive) [
    | inr down ↦
        turned_away target_unavailable (dead rec e down) (if_true (not rec.alive) _ (ap not down))
    | inl living ↦ elim (Bool-cases (is_permitted b env)) [
      | inr refused_it ↦ turned_away capability_denied (denied rec e living refused_it) (
          if_false (not rec.alive) _ (ap not living)
          ∙ if_true (not (is_permitted b env)) _ (ap not refused_it))
      | inl permitted ↦
          subst (λ b'. Delivery methods b env b')
            (sym (
              if_false (not rec.alive) _ (ap not living)
              ∙ if_false (not (is_permitted b env)) _ (ap not permitted)))
            (deliver_permitted-Delivery b env rec e living permitted (payload_door rec env) refl)
    ]
  ]

  -- A delivery is one of three things, each with what it takes.
  pub deliver_one-Delivery :
      (b : Bus S) (env : Envelope) → Delivery methods b env (deliver_one methods b env)
  unfolding deliver_one
  deliver_one-Delivery b env = deliver_found-Delivery b env (find_shard b.shards env.target) refl

  pub TurnedAway-deliver_one :
      {b : Bus S} {env : Envelope} (reason : RefusalReason)
      → TurnedAway b env reason
      → deliver_one methods b env ≡ refuse_delivery b env (refusal_of reason)
  unfolding deliver_one deliver_found deliver_door
  TurnedAway-deliver_one reason (unknown e) = rw e
  TurnedAway-deliver_one reason (dead rec e down) = rw e (if_true (not rec.alive) _ (ap not down))
  TurnedAway-deliver_one {b} {env} reason (denied rec e living shut) = rw e (
      if_false (not rec.alive) _ (ap not living)
      ∙ if_true (not (is_permitted b env)) _ (ap not shut))
  TurnedAway-deliver_one {b} {env} reason (unaccepted rec e living open_way shut) = rw e (
      if_false (not rec.alive) _ (ap not living)
      ∙ if_false (not (is_permitted b env)) _ (ap not open_way)
      ∙ ap (λ d. unfold deliver_door in deliver_door methods b rec env d) shut)
