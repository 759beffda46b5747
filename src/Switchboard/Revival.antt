-- ===== src/Switchboard/Revival.antt =====
-- src/switchboard/switchboard.cpp: the last known good state of every shard.
-- Every shard's last known good state is an instance of its state schema.
use zen.Prelude.{All, Bool, Bool-cases, List, Option, [], false, inl, inr, none, refl, some}
use zen.Prelude.{some_injective, subst, true, ℕ, ◌==◌, ◌∷◌, ◌≡◌}
use zen.Prelude.Int.{leb_ℤ, pos, ℤ}
use zen.Binary.{Bytes}
use zen.Failure.{>>=-eq-ok, ok, ok-injective}
use zen.Value.{Value}
use zen.Gate.{Admission, first_only, reject}
use zen.Gate.Verdict.{IsInstance}
use zen.Serialize.Envelope.{parse}
use zen.Serialize.Trust.{admit_bytes-IsInstance}
use zen.Grant.{ShardId}
use zen.Switchboard.State.{Bus, Refusal, ShardMethods, ShardRecord, emit_event, find_shard}
use zen.Switchboard.State.{put_shard}
use zen.Switchboard.Lifecycle.{ReviveOutcome, fall_back, judge_state, read_policy, reload}
use zen.Switchboard.Lifecycle.{reload_budgeted, reload_found, reload_judged, reload_policy}
use zen.Switchboard.Lifecycle.{revive_with, swap_judged}

abbrev pub IsSafe : {S : Type 0} → ShardRecord S → Type 0
IsSafe rec = IsInstance rec.last_known_good rec.state_schema

abbrev pub IsSound : {S : Type 0} → Bus S → Type 0
IsSound b = All IsSafe b.shards

module _ {S : Type 0} where
  pub put_shard-All :
      (P : ShardRecord S → Type 0) (rs : List (ShardRecord S)) (rec : ShardRecord S)
      → All P rs
      → P rec
      → All P (put_shard rs rec)
  unfolding put_shard
  put_shard-All P [] rec h p = tt
  put_shard-All P (r ∷ rs) rec (hr, h) p = elim (Bool-cases (r.id == rec.id)) [
    | inl here ↦ rw here (p, h)
    | inr later ↦ rw later (hr, put_shard-All P rs rec h p)
  ]

  pub find_shard-All :
      (P : ShardRecord S → Type 0) (rs : List (ShardRecord S)) (id : ShardId) {rec : ShardRecord S}
      → All P rs
      → find_shard rs id ≡ some rec
      → P rec
  unfolding find_shard
  find_shard-All P [] id h found = cc
  find_shard-All P (r ∷ rs) id (hr, h) found = elim (Bool-cases (r.id == id)) [
    | inl here ↦ subst P (some_injective (rw here at found)) hr
    | inr later ↦ find_shard-All P rs id h (rw later at found)
  ]

module _ {S : Type 0} (methods : ShardMethods S) where
  revive_with-IsSound :
      (b : Bus S) (rec : ShardRecord S) (state : Value) (used : ℕ) {out : Bus S × ReviveOutcome}
      → IsSound b
      → IsInstance state rec.state_schema
      → revive_with methods b rec state used ≡ ok out
      → IsSound out.0
  unfolding revive_with emit_event
  revive_with-IsSound b rec state used sound fits h =
      let (s', revived, ended) = >>=-eq-ok (methods.revive rec.shard state) _ h in
      subst (λ (o : Bus S × ReviveOutcome). IsSound o.0) (ok-injective ended)
        (put_shard-All IsSafe b.shards _ sound fits)

  fall_back-IsSound :
      (b : Bus S) (rec : ShardRecord S) (from_last_good : Bool) (why : Refusal)
      {out : Bus S × ReviveOutcome}
      → IsSound b
      → IsSafe rec
      → fall_back methods b rec from_last_good why ≡ ok out
      → IsSound out.0
  unfolding fall_back emit_event
  fall_back-IsSound b rec true why sound safe h =
      let (s', revived, ended) = >>=-eq-ok (methods.revive rec.shard rec.last_known_good) _ h in
      subst (λ (o : Bus S × ReviveOutcome). IsSound o.0) (ok-injective ended)
        (put_shard-All IsSafe b.shards _ sound safe)
  fall_back-IsSound b rec false why sound safe h =
      subst (λ (o : Bus S × ReviveOutcome). IsSound o.0) (ok-injective h) sound

  reload_judged-IsSound :
      (b : Bus S) (rec : ShardRecord S) (from_last_good : Bool) (candidate : Bytes) (a : Admission)
      (runs : ℕ) {out : Bus S × ReviveOutcome}
      → IsSound b
      → IsSafe rec
      → judge_state methods b rec candidate ≡ ok (a, runs)
      → reload_judged methods (record b { gate_runs = runs }) rec from_last_good a ≡ ok out
      → IsSound out.0
  unfolding reload_judged judge_state
  reload_judged-IsSound b rec from_last_good candidate (Admission.accept w) runs sound safe judged
        h =
      revive_with-IsSound (record b { gate_runs = runs }) rec w _ sound
        (admit_bytes-IsInstance (parse candidate) rec.state_schema first_only b.gate_runs judged) h
  reload_judged-IsSound b rec from_last_good candidate (reject es) runs sound safe judged h =
      fall_back-IsSound (record b { gate_runs = runs }) rec from_last_good _ sound safe h

  pub swap_judged-IsSound :
      (b : Bus S) (rec : ShardRecord S) (candidate : Bytes) (a : Admission) (runs : ℕ)
      {out : Bus S × ReviveOutcome}
      → IsSound b
      → judge_state methods b rec candidate ≡ ok (a, runs)
      → swap_judged methods (record b { gate_runs = runs }) rec a ≡ ok out
      → IsSound out.0
  unfolding swap_judged judge_state emit_event
  swap_judged-IsSound b rec candidate (Admission.accept w) runs sound judged h =
      revive_with-IsSound (record b { gate_runs = runs }) rec w _ sound
        (admit_bytes-IsInstance (parse candidate) rec.state_schema first_only b.gate_runs judged) h
  swap_judged-IsSound b rec candidate (reject es) runs sound judged h =
      subst (λ (o : Bus S × ReviveOutcome). IsSound o.0) (ok-injective h) sound

  reload_budgeted-IsSound :
      (b : Bus S) (rec : ShardRecord S) (max_reloads : ℤ) (from_last_good : Bool)
      (candidate : Bytes) {out : Bus S × ReviveOutcome}
      → IsSound b
      → IsSafe rec
      → reload_budgeted methods b rec max_reloads from_last_good candidate ≡ ok out
      → IsSound out.0
  unfolding reload_budgeted
  reload_budgeted-IsSound b rec max_reloads from_last_good candidate sound safe h =
      elim (Bool-cases (leb_ℤ max_reloads (pos rec.reloads_used))) [
        | inl spent ↦
            subst (λ (o : Bus S × ReviveOutcome). IsSound o.0) (ok-injective (rw spent at h)) sound
        | inr left ↦
            let ((a, runs), judged, kept_it) =
              >>=-eq-ok (judge_state methods b rec candidate) _ (rw left at h) in
            reload_judged-IsSound b rec from_last_good candidate a runs sound safe judged kept_it
      ]

  reload_policy-IsSound :
      (b : Bus S) (rec : ShardRecord S) (candidate : Bytes) (a : Admission)
      {out : Bus S × ReviveOutcome}
      → IsSound b
      → IsSafe rec
      → reload_policy methods b rec candidate a ≡ ok out
      → IsSound out.0
  unfolding reload_policy
  reload_policy-IsSound b rec candidate (reject es) sound safe h =
      subst (λ (o : Bus S × ReviveOutcome). IsSound o.0) (ok-injective h) sound
  reload_policy-IsSound b rec candidate (Admission.accept pol) sound safe h =
      let ((most, last), read, rest) = >>=-eq-ok (read_policy pol) _ h in
      reload_budgeted-IsSound b rec most last candidate sound safe rest

  reload_found-IsSound :
      (b : Bus S) (found : Option (ShardRecord S)) (candidate : Bytes) {out : Bus S × ReviveOutcome}
      → IsSound b
      → ((rec : ShardRecord S) → found ≡ some rec → IsSafe rec)
      → reload_found methods b found candidate ≡ ok out
      → IsSound out.0
  unfolding reload_found
  reload_found-IsSound b none candidate sound safe h =
      subst (λ (o : Bus S × ReviveOutcome). IsSound o.0) (ok-injective h) sound
  reload_found-IsSound b (some rec) candidate sound safe h =
      let ((policy, runs), told, judged) = >>=-eq-ok (methods.policy rec.shard b.gate_runs) _ h in
      reload_policy-IsSound _ rec candidate _ sound (safe rec refl) judged

  -- A reload that does not throw keeps every shard's last known good state an instance of the
  -- shard's state schema, whether it revives, falls back or refuses.
  pub reload-IsSound :
      (b : Bus S) (id : ShardId) (candidate : Bytes) {out : Bus S × ReviveOutcome}
      → IsSound b
      → reload methods b id candidate ≡ ok out
      → IsSound out.0
  unfolding reload
  reload-IsSound b id candidate sound h =
      reload_found-IsSound b (find_shard b.shards id) candidate sound
        (λ rec found. find_shard-All IsSafe b.shards id sound found) h
