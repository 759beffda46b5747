-- ===== src/Serialize/Trust.antt =====
-- src/serialize.cpp: what the gate for bytes lets through.
use zen.Prelude.{Bool, Bool-cases, List, [], ap, bytes_eq, false, inl, inr, not, refl, some}
use zen.Prelude.{subst, sym, take, true, ℕ, ◌+◌, ◌==◌, ◌||◌, ◌∙◌, ◌∷◌, ◌≡◌}
use zen.Binary.{Bytes}
use zen.Failure.{ok, ok-injective}
use zen.Schema.{Schema, content_id, schema_name, schema_version}
use zen.Value.{Value}
use zen.Gate.{Admission, Error, Report, accept, is_full, reject_errors, settle}
use zen.Gate.Verdict.{IsInstance, door_offences, door_offences-IsInstance, kept, kept-eq-nil}
use zen.Gate.Verdict.{settle-accept, validate_into-kept}
use zen.Serialize.Decode.{Outcome, decode_body, done, fatal, uncaught}
use zen.Serialize.Envelope.{Unverified, admit_against, admit_bytes, claim, covered, finish}
use zen.Serialize.Envelope.{finish_first, judge, malformed, uncovered}

uncovered-nil : (es : List Error) → uncovered [] es ≡ es
unfolding uncovered covered
uncovered-nil [] = refl
uncovered-nil (e ∷ es) = ap (λ l. e ∷ l) (uncovered-nil es)

finish_first-nil :
    (v : Value) (es : List Error) → finish_first v [] (take 1 es) ≡ settle v (take 1 es)
unfolding finish_first settle reject_errors
finish_first-nil v [] = refl
finish_first-nil v (e ∷ es) = refl

pub finish-nil :
    (v : Value) (door : Schema) (all : Bool) (runs : ℕ)
    → finish v [] door all runs ≡ (settle v (kept all (door_offences v door)), runs + 1)
unfolding finish
finish-nil v door true runs =
    rw (validate_into-kept v door true runs, uncovered-nil (door_offences v door))
finish-nil v door false runs =
    rw (validate_into-kept v door false runs)
      (ap (λ a. (a, runs + 1)) (finish_first-nil v (door_offences v door)))

pub finish-IsInstance :
    (v w : Value) (door : Schema) (all : Bool) (runs : ℕ)
    → (finish v [] door all runs).0 ≡ accept w
    → IsInstance w door
finish-IsInstance v w door all runs h =
    let (same, clean) =
      settle-accept v w _
        (ap (λ (p : Admission × ℕ). p.0) (sym (finish-nil v door all runs)) ∙ h) in
    subst (λ u. IsInstance u door) (sym same)
      (door_offences-IsInstance v door (kept-eq-nil all _ clean))

judge-IsInstance :
    (o : Outcome Value) (door : Schema) (all : Bool) (runs : ℕ) {w : Value} {runs' : ℕ}
    → judge o door all runs ≡ ok (accept w, runs')
    → IsInstance w door
unfolding judge
judge-IsInstance (done v []) door all runs h =
    finish-IsInstance v _ door all runs (ap (λ (p : Admission × ℕ). p.0) (ok-injective h))
judge-IsInstance (done v (b ∷ rest)) door all runs h = cc
judge-IsInstance (fatal e) door all runs h = cc
judge-IsInstance (uncaught x) door all runs h = cc

admit_against-IsInstance :
    (name : Bytes) (version cid : ℕ) (body : Bytes) (door : Schema) (all : Bool) (runs : ℕ)
    {w : Value} {runs' : ℕ}
    → admit_against name version cid body door all runs ≡ ok (accept w, runs')
    → IsInstance w door
unfolding admit_against
admit_against-IsInstance name version cid body door all runs h =
    elim (Bool-cases
      (not (bytes_eq name (schema_name door)) || not (version == schema_version door))) [
        | inl other ↦ cc (rw other at h)
        | inr named ↦ elim (Bool-cases (not (cid == content_id door))) [
          | inl mismatch ↦ cc (rw (named, mismatch) at h)
          | inr same ↦
              judge-IsInstance (decode_body door 0 [] body) door all runs (rw (named, same) at h)
        ]
      ]

-- Bytes that the gate accepts for a door become an instance of that door, in either mode.
pub admit_bytes-IsInstance :
    (u : Unverified) (door : Schema) (report : Report) (runs : ℕ) {w : Value} {runs' : ℕ}
    → admit_bytes u (some door) report runs ≡ ok (accept w, runs')
    → IsInstance w door
unfolding admit_bytes
admit_bytes-IsInstance (malformed e) door report runs h = cc
admit_bytes-IsInstance (claim name version cid body) door report runs h =
    admit_against-IsInstance name version cid body door (is_full report) runs h
