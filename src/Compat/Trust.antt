-- ===== src/Compat/Trust.antt =====
-- src/serialize.cpp: what the gate lets through from JSON.
use zen.Prelude.{Bool, Bool-cases, List, Option, [], ap, bytes_eq, false, inl, inr, not, refl}
use zen.Prelude.{some, true, ℕ, ◌==◌, ◌||◌, ◌∙◌, ◌∷◌, ◌≡◌}
use zen.Binary.{Bytes}
use zen.Failure.{>>=-eq-ok, ok, ok-injective}
use zen.Schema.{Schema, content_id, schema_name, schema_version}
use zen.Value.{Value}
use zen.Gate.{Admission, Error, Report, accept, is_full, reject_errors, settle}
use zen.Gate.Verdict.{IsInstance}
use zen.Json.{JsonMembers}
use zen.Serialize.Envelope.{finish, finish_first, uncovered}
use zen.Serialize.Trust.{finish-IsInstance}
use zen.Compat.Decode.{json_object, mismatch}
use zen.Compat.Envelope.{JsonUnverified, admit_json, admit_json_against, json_claim}
use zen.Compat.Envelope.{json_malformed, other_shape}

finish_clean :
    (v w : Value) (errs : List Error) (door : Schema) (all : Bool) (runs : ℕ)
    → (finish v errs door all runs).0 ≡ accept w
    → (errs ≡ []) × IsInstance w door
unfolding finish finish_first settle reject_errors uncovered
finish_clean v w [] door all runs h = (refl, finish-IsInstance v w door all runs h)
finish_clean v w (e ∷ errs) door true runs h = cc
finish_clean v w (e ∷ errs) door false runs h = cc

pub admit_json_against-clean :
    (from_chars : Bytes → Option ℕ) (name : Bytes) (version : ℕ) (cid : Option ℕ) (ms : JsonMembers)
    (door : Schema) (all : Bool) (runs : ℕ) {w : Value} {runs' : ℕ}
    → admit_json_against from_chars name version cid ms door all runs ≡ ok (accept w, runs')
    → ((v : Value) × (json_object from_chars all door ms [] [] ≡ ok (v, []))) × IsInstance w door
unfolding admit_json_against
admit_json_against-clean from_chars name version cid ms door all runs {w} h =
    elim (Bool-cases
      (not (bytes_eq name (schema_name door)) || not (version == schema_version door))) [
        | inl other ↦ cc (rw other at h)
        | inr named ↦ elim (Bool-cases (other_shape cid (content_id door))) [
          | inl mismatch ↦ cc (rw (named, mismatch) at h)
          | inr same ↦
              let ((v, errs), read_e, finished) =
                >>=-eq-ok (json_object from_chars all door ms [] []) _ (rw (named, same) at h) in
              let (clean, instance_of) =
                finish_clean v w errs door all runs
                  (ap (λ (p : Admission × ℕ). p.0) (ok-injective finished)) in
              ((v, read_e ∙ ap (λ (es : List Error). ok (v, es)) clean), instance_of)
        ]
      ]

-- Whatever reads the doubles: JSON that the gate accepts for a door becomes an instance of that
-- door, in either mode.
pub admit_json-IsInstance :
    (from_chars : Bytes → Option ℕ) (u : JsonUnverified) (door : Schema) (report : Report)
    (runs : ℕ) {w : Value} {runs' : ℕ}
    → admit_json from_chars u (some door) report runs ≡ ok (accept w, runs')
    → IsInstance w door
unfolding admit_json
admit_json-IsInstance from_chars (json_malformed e) door report runs h = cc
admit_json-IsInstance from_chars (json_claim name version cid ms) door report runs h =
    (admit_json_against-clean from_chars name version cid ms door (is_full report) runs h).1
