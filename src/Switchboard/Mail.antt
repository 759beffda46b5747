-- ===== src/Switchboard/Mail.antt =====
-- src/switchboard/switchboard.cpp: the calls that leave the queue, the journal and the next number
-- alone.
use zen.Prelude.{Bool, Bool-cases, List, Option, ap, false, inl, inr, length, none, refl, some}
use zen.Prelude.{subst, true, ℕ, ◌≡◌}
use zen.Prelude.Int.{leb_ℤ, pos, ℤ}
use zen.Binary.{Bytes}
use zen.Failure.{>>=-eq-ok, ok, ok-injective, throw-neq-ok}
use zen.Schema.{Schema}
use zen.Value.{Value, value_schema}
use zen.Gate.{Admission, first_error, reject}
use zen.Registry.{register_schema}
use zen.Serialize.Envelope.{serialize}
use zen.Grant.{Grant, ShardId}
use zen.Switchboard.State.{Bus, Refusal, ShardMethods, ShardRecord, emit_event}
use zen.Switchboard.Lifecycle.{ReviveOutcome, add_seeded, fall_back, judge_state, kill_found}
use zen.Switchboard.Lifecycle.{read_policy, register_accepted, register_shard, reload_budgeted}
use zen.Switchboard.Lifecycle.{reload_found, reload_judged, reload_policy, revive_with}
use zen.Switchboard.Lifecycle.{snapshot_found, swap_found, swap_judged, unregister_found}
use zen.Switchboard.Numbering.{IsNumberedBus, carried}

abbrev pub SameMail : {S : Type 0} → Bus S → Bus S → Type 0
SameMail b b' = (b'.next_seq ≡ b.next_seq) × (b'.journal ≡ b.journal) × (b'.queue ≡ b.queue)

pub SameMail-IsNumberedBus :
    {S : Type 0} {b b' : Bus S} → SameMail b b' → IsNumberedBus b → IsNumberedBus b'
SameMail-IsNumberedBus (seqs, journals, queues) h = carried seqs (ap length journals) queues h

module _ {S : Type 0} where
  pub kill_found-SameMail :
      (b : Bus S) (found : Option (ShardRecord S)) → SameMail b (kill_found b found)
  unfolding kill_found emit_event
  kill_found-SameMail b none = (refl, refl, refl)
  kill_found-SameMail b (some rec) = (refl, refl, refl)

  pub unregister_found-SameMail :
      (b : Bus S) (id : ShardId) (found : Option (ShardRecord S))
      → SameMail b (unregister_found b id found).0
  unfolding unregister_found
  unregister_found-SameMail b id none = (refl, refl, refl)
  unregister_found-SameMail b id (some rec) = (refl, refl, refl)

  ended_SameMail :
      (b : Bus S) {b' : Bus S} {result : ReviveOutcome} {out : Bus S × ReviveOutcome}
      → ok (b', result) ≡ ok out
      → SameMail b b'
      → SameMail b out.0
  ended_SameMail b ended h =
      subst (λ (o : Bus S × ReviveOutcome). SameMail b o.0) (ok-injective ended) h

module _ {S : Type 0} (methods : ShardMethods S) where
  add_seeded-SameMail :
      (b : Bus S) (s : S) (g : Grant) (accept_set : List Schema) (state : Schema) (a : Admission)
      {out : Bus S × ShardId}
      → add_seeded methods b s g accept_set state a ≡ ok out
      → SameMail b out.0
  unfolding add_seeded
  add_seeded-SameMail b s g accept_set state (Admission.accept seed) h =
      subst (λ (o : Bus S × ShardId). SameMail b o.0) (ok-injective h) (refl, refl, refl)
  add_seeded-SameMail b s g accept_set state (reject es) h =
      absurd (throw-neq-ok (>>=-eq-ok (first_error (reject es)) _ h).2)

  pub register_shard-SameMail :
      (b : Bus S) (s : S) (g : Grant) {out : Bus S × ShardId}
      → register_shard methods b s g ≡ ok out
      → SameMail b out.0
  unfolding register_shard
  register_shard-SameMail b s g h =
      let ((accept_set, r), accepted, rest) =
        >>=-eq-ok (register_accepted b.registry (methods.accepted s)) _ h in
      let ((snap, runs), taken, later) = >>=-eq-ok (methods.snapshot s b.gate_runs) _ rest in
      let ((registered, r'), entered, seeding) =
        >>=-eq-ok (register_schema r (some (value_schema snap))) _ later in
      add_seeded-SameMail _ s g accept_set (value_schema snap) _ seeding

  fall_back-SameMail :
      (b : Bus S) (rec : ShardRecord S) (from_last_good : Bool) (why : Refusal)
      {out : Bus S × ReviveOutcome}
      → fall_back methods b rec from_last_good why ≡ ok out
      → SameMail b out.0
  unfolding fall_back emit_event
  fall_back-SameMail b rec true why h =
      let (s', revived, ended) = >>=-eq-ok (methods.revive rec.shard rec.last_known_good) _ h in
      ended_SameMail b ended (refl, refl, refl)
  fall_back-SameMail b rec false why h = ended_SameMail b h (refl, refl, refl)

  revive_with-SameMail :
      (b : Bus S) (rec : ShardRecord S) (state : Value) (used : ℕ) {out : Bus S × ReviveOutcome}
      → revive_with methods b rec state used ≡ ok out
      → SameMail b out.0
  unfolding revive_with emit_event
  revive_with-SameMail b rec state used h =
      let (s', revived, ended) = >>=-eq-ok (methods.revive rec.shard state) _ h in
      ended_SameMail b ended (refl, refl, refl)

  reload_judged-SameMail :
      (b : Bus S) (rec : ShardRecord S) (from_last_good : Bool) (a : Admission)
      {out : Bus S × ReviveOutcome}
      → reload_judged methods b rec from_last_good a ≡ ok out
      → SameMail b out.0
  unfolding reload_judged
  reload_judged-SameMail b rec from_last_good (Admission.accept w) h =
      revive_with-SameMail b rec w _ h
  reload_judged-SameMail b rec from_last_good (reject es) h =
      fall_back-SameMail b rec from_last_good _ h

  swap_judged-SameMail :
      (b : Bus S) (rec : ShardRecord S) (a : Admission) {out : Bus S × ReviveOutcome}
      → swap_judged methods b rec a ≡ ok out
      → SameMail b out.0
  unfolding swap_judged emit_event
  swap_judged-SameMail b rec (Admission.accept w) h = revive_with-SameMail b rec w _ h
  swap_judged-SameMail b rec (reject es) h = ended_SameMail b h (refl, refl, refl)

  pub snapshot_found-SameMail :
      (b : Bus S) (found : Option (ShardRecord S)) {out : Bus S × Bytes}
      → snapshot_found methods b found ≡ ok out
      → SameMail b out.0
  unfolding snapshot_found
  snapshot_found-SameMail b none h = absurd (throw-neq-ok h)
  snapshot_found-SameMail b (some rec) h =
      let ((snap, runs), taken, rest) = >>=-eq-ok (methods.snapshot rec.shard b.gate_runs) _ h in
      let (octets, written, ended) = >>=-eq-ok (serialize snap) _ rest in
      subst (λ (o : Bus S × Bytes). SameMail b o.0) (ok-injective ended) (refl, refl, refl)

  reload_budgeted-SameMail :
      (b : Bus S) (rec : ShardRecord S) (max_reloads : ℤ) (from_last_good : Bool)
      (candidate : Bytes) {out : Bus S × ReviveOutcome}
      → reload_budgeted methods b rec max_reloads from_last_good candidate ≡ ok out
      → SameMail b out.0
  unfolding reload_budgeted
  reload_budgeted-SameMail b rec max_reloads from_last_good candidate h =
      elim (Bool-cases (leb_ℤ max_reloads (pos rec.reloads_used))) [
        | inl spent ↦
            subst (λ (o : Bus S × ReviveOutcome). SameMail b o.0) (ok-injective (rw spent at h))
              (refl, refl, refl)
        | inr left ↦
            let ((a, runs), judged, kept_it) =
              >>=-eq-ok (judge_state methods b rec candidate) _ (rw left at h) in
            reload_judged-SameMail (record b { gate_runs = runs }) rec from_last_good a kept_it
      ]

  reload_policy-SameMail :
      (b : Bus S) (rec : ShardRecord S) (candidate : Bytes) (a : Admission)
      {out : Bus S × ReviveOutcome}
      → reload_policy methods b rec candidate a ≡ ok out
      → SameMail b out.0
  unfolding reload_policy
  reload_policy-SameMail b rec candidate (reject es) h =
      subst (λ (o : Bus S × ReviveOutcome). SameMail b o.0) (ok-injective h) (refl, refl, refl)
  reload_policy-SameMail b rec candidate (Admission.accept pol) h =
      let ((most, last), read, rest) = >>=-eq-ok (read_policy pol) _ h in
      reload_budgeted-SameMail b rec most last candidate rest

  pub reload_found-SameMail :
      (b : Bus S) (found : Option (ShardRecord S)) (candidate : Bytes) {out : Bus S × ReviveOutcome}
      → reload_found methods b found candidate ≡ ok out
      → SameMail b out.0
  unfolding reload_found
  reload_found-SameMail b none candidate h =
      subst (λ (o : Bus S × ReviveOutcome). SameMail b o.0) (ok-injective h) (refl, refl, refl)
  reload_found-SameMail b (some rec) candidate h =
      let ((policy, runs), told, judged) = >>=-eq-ok (methods.policy rec.shard b.gate_runs) _ h in
      reload_policy-SameMail (record b { gate_runs = _ }) rec candidate _ judged

  pub swap_found-SameMail :
      (b : Bus S) (found : Option (ShardRecord S)) (candidate : Bytes) {out : Bus S × ReviveOutcome}
      → swap_found methods b found candidate ≡ ok out
      → SameMail b out.0
  unfolding swap_found
  swap_found-SameMail b none candidate h =
      subst (λ (o : Bus S × ReviveOutcome). SameMail b o.0) (ok-injective h) (refl, refl, refl)
  swap_found-SameMail b (some rec) candidate h =
      let ((a, runs), judged, rest) = >>=-eq-ok (judge_state methods b rec candidate) _ h in
      swap_judged-SameMail (record b { gate_runs = runs }) rec a rest
