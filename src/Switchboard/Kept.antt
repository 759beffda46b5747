-- ===== src/Switchboard/Kept.antt =====
-- src/switchboard/switchboard.cpp: each operation keeps the last known good states gated.
use zen.Prelude.{All, All-append, Bool, Bool-cases, List, Option, [], ap, inl, inr, length, ltb}
use zen.Prelude.{none, refl, some, subst, sym, ℕ, ◌+◌, ◌==◌, ◌∙◌, ◌∷◌, ◌≡◌}
use zen.Binary.{Bytes}
use zen.Failure.{>>=-eq-ok, ok, ok-injective, throw-neq-ok}
use zen.Schema.{Schema}
use zen.Value.{Value, value_schema}
use zen.Gate.{Admission, admit, first_error, first_only, reject}
use zen.Gate.Verdict.{IsInstance, admit-eq-accept_iff}
use zen.Registry.{register_schema}
use zen.Serialize.Envelope.{serialize}
use zen.Grant.{Grant, ShardId}
use zen.Switchboard.State.{Action, Bus, Envelope, Message, Refusal, ShardMethods, ShardRecord}
use zen.Switchboard.State.{emit_event, enqueue, erase_shard, fanout_loop, is_recipient, put_shard}
use zen.Switchboard.State.{record_outcome, run_action}
use zen.Switchboard.Deliver.{abandon, deliver_one, gate_refusal, refusal_of, refuse_delivery}
use zen.Switchboard.Deliver.{run_handler}
use zen.Switchboard.Lifecycle.{ReviveOutcome, add_seeded, judge_state, kill_found}
use zen.Switchboard.Lifecycle.{register_accepted, register_shard, snapshot_found, swap_found}
use zen.Switchboard.Lifecycle.{unregister_found}
use zen.Switchboard.Sends.{enlarge, run_action-effect_of}
use zen.Switchboard.Fate.{deliver_one-Delivery, gated_bus, gated_out, handled, turned_away}
use zen.Switchboard.Outcomes.{refuse_delivery_rest}
use zen.Switchboard.Revival.{IsSafe, IsSound, find_shard-All, put_shard-All, swap_judged-IsSound}

module _ {S : Type 0} where
  erase_shard-All :
      (P : ShardRecord S → Type 0) (rs : List (ShardRecord S)) (id : ShardId)
      → All P rs
      → All P (erase_shard rs id)
  unfolding erase_shard
  erase_shard-All P [] id h = tt
  erase_shard-All P (r ∷ rs) id (hr, h) = elim (Bool-cases (r.id == id)) [
    | inl here ↦ rw here h
    | inr later ↦ rw later (hr, erase_shard-All P rs id h)
  ]

  pub fanout_loop-shards :
      (rs : List (ShardRecord S)) (b : Bus S) (m : Message) (g : Bool) (n : ℕ)
      → (fanout_loop rs b m g n).0.shards ≡ b.shards
  unfolding fanout_loop enqueue
  fanout_loop-shards [] b m g n = refl
  fanout_loop-shards (r ∷ rs) b m g n = elim (Bool-cases (is_recipient r m)) [
    | inl yes_one ↦ rw yes_one (fanout_loop-shards rs (enqueue b r.id m g) m g (n + 1))
    | inr no_one ↦ rw no_one (fanout_loop-shards rs b m g n)
  ]

  pub kill_found-IsSound :
      (b : Bus S) (found : Option (ShardRecord S))
      → IsSound b
      → ((rec : ShardRecord S) → found ≡ some rec → IsSafe rec)
      → IsSound (kill_found b found)
  unfolding kill_found emit_event
  kill_found-IsSound b none sound safe = sound
  kill_found-IsSound b (some rec) sound safe = put_shard-All IsSafe b.shards _ sound (safe rec refl)

module _ {S : Type 0} (methods : ShardMethods S) where
  add_seeded-IsSound :
      (b : Bus S) (s : S) (g : Grant) (accept_set : List Schema) (snap : Value) (runs : ℕ)
      (a : Admission) {out : Bus S × ShardId}
      → IsSound b
      → (admit snap (value_schema snap) first_only runs).0 ≡ a
      → add_seeded methods b s g accept_set (value_schema snap) a ≡ ok out
      → IsSound out.0
  unfolding add_seeded
  add_seeded-IsSound b s g accept_set snap runs (Admission.accept seed) sound judged h =
      let (same, fits) =
        (admit-eq-accept_iff snap seed (value_schema snap) first_only runs).0 judged in
      subst (λ (o : Bus S × ShardId). IsSound o.0) (ok-injective h)
        (All-append IsSafe b.shards _ sound
          (subst (λ v. IsInstance v (value_schema snap)) (sym same) fits, tt))
  add_seeded-IsSound b s g accept_set snap runs (reject es) sound judged h =
      absurd (throw-neq-ok (>>=-eq-ok (first_error (reject es)) _ h).2)

  pub register_shard-IsSound :
      (b : Bus S) (s : S) (g : Grant) {out : Bus S × ShardId}
      → IsSound b
      → register_shard methods b s g ≡ ok out
      → IsSound out.0
  unfolding register_shard
  register_shard-IsSound b s g sound h =
      let ((accept_set, r), accepted, rest) =
        >>=-eq-ok (register_accepted b.registry (methods.accepted s)) _ h in
      let ((snap, runs), taken, later) = >>=-eq-ok (methods.snapshot s b.gate_runs) _ rest in
      let ((registered, r'), entered, seeding) =
        >>=-eq-ok (register_schema r (some (value_schema snap))) _ later in
      add_seeded-IsSound _ s g accept_set snap runs _ sound refl seeding

  pub swap_found-IsSound :
      (b : Bus S) (found : Option (ShardRecord S)) (candidate : Bytes) {out : Bus S × ReviveOutcome}
      → IsSound b
      → swap_found methods b found candidate ≡ ok out
      → IsSound out.0
  unfolding swap_found
  swap_found-IsSound b none candidate sound h =
      subst (λ (o : Bus S × ReviveOutcome). IsSound o.0) (ok-injective h) sound
  swap_found-IsSound b (some rec) candidate sound h =
      let ((a, runs), judged, rest) = >>=-eq-ok (judge_state methods b rec candidate) _ h in
      swap_judged-IsSound methods b rec candidate a runs sound judged rest

  run_handler-IsSound :
      (b : Bus S) (rec : ShardRecord S) (env : Envelope) (v : Value)
      → IsSound b
      → IsSafe rec
      → IsSound (run_handler methods b rec env v)
  unfolding run_handler emit_event record_outcome enlarge
  run_handler-IsSound b rec env v sound safe =
      let ran =
        run_action (methods.handle rec.shard (record (env.msg) { payload = v })) env.target b in
      let same_shards : ran.0.shards ≡ b.shards =
        ap (λ (x : Bus S). x.shards) (run_action-effect_of _ env.target b) in
      let still : All IsSafe (put_shard ran.0.shards (record rec { shard = ran.1 })) =
        put_shard-All IsSafe ran.0.shards _ (subst (λ l. All IsSafe l) (sym same_shards) sound)
          safe in
      elim (Bool-cases (ltb env.seq (length ran.0.journal))) [
        | inl within ↦ rw within still
        | inr beyond ↦ rw beyond still
      ]

  pub deliver_one-IsSound :
      (b : Bus S) (env : Envelope) → IsSound b → IsSound (deliver_one methods b env)
  deliver_one-IsSound b env sound = elim (deliver_one-Delivery methods b env) [
    | turned_away reason why same ↦ refused_it b (refusal_of reason) refl same
    | gated_out way es bad same ↦ refused_it (gated_bus b) (gate_refusal (reject es)) refl same
    | handled way i same ↦
        subst (λ x. IsSound x) (sym same)
          (run_handler-IsSound (gated_bus b) way.rec env _ sound
            (find_shard-All IsSafe b.shards env.target sound way.found))
  ]
    where
      refused_it :
          (c : Bus S) (r : Refusal)
          → c.shards ≡ b.shards
          → deliver_one methods b env ≡ refuse_delivery c env r
          → IsSound (deliver_one methods b env)
      refused_it c r shards_same same =
          subst (λ x. IsSound x) (sym same)
            (subst (λ l. All IsSafe l) (sym ((refuse_delivery_rest c env r).0 ∙ shards_same)) sound)

  pub abandon-IsSound :
      (b : Bus S) (rec : ShardRecord S) (env : Envelope) (a : Action S)
      → IsSound b
      → IsSafe rec
      → IsSound (abandon b rec env a)
  unfolding abandon enlarge
  abandon-IsSound b rec env a sound safe =
      let same_shards : (run_action a env.target b).0.shards ≡ b.shards =
        ap (λ (x : Bus S). x.shards) (run_action-effect_of a env.target b) in
      put_shard-All IsSafe (run_action a env.target b).0.shards _
        (subst (λ l. All IsSafe l) (sym same_shards) sound) safe

  pub snapshot_found-IsSound :
      (b : Bus S) (found : Option (ShardRecord S)) {out : Bus S × Bytes}
      → IsSound b
      → snapshot_found methods b found ≡ ok out
      → IsSound out.0
  unfolding snapshot_found
  snapshot_found-IsSound b none sound h = absurd (throw-neq-ok h)
  snapshot_found-IsSound b (some rec) sound h =
      let ((snap, runs), taken, rest) = >>=-eq-ok (methods.snapshot rec.shard b.gate_runs) _ h in
      let (octets, written, ended) = >>=-eq-ok (serialize snap) _ rest in
      subst (λ (o : Bus S × Bytes). IsSound o.0) (ok-injective ended) sound

  pub unregister_found-IsSound :
      (b : Bus S) (id : ShardId) (found : Option (ShardRecord S))
      → IsSound b
      → IsSound (unregister_found b id found).0
  unfolding unregister_found
  unregister_found-IsSound b id none sound = sound
  unregister_found-IsSound b id (some rec) sound = erase_shard-All IsSafe b.shards id sound
