-- ===== src/Gate/Verdict.antt =====
-- What the gate of src/gate.cpp answers.
use zen.Prelude.{==_iff, Bool, Bool-cases, List, [], ap, arith, bytes_eq, bytes_eq→eq, false}
use zen.Prelude.{if_true, if◌then◌else◌, inl, inr, refl, some, some_injective, subst, sym, take}
use zen.Prelude.{true, ℕ, ◌+◌, ◌==◌, ◌↔◌, ◌∙◌, ◌∷◌, ◌≡◌, ◌≢◌}
use zen.Binary.{Bytes}
use zen.Schema.{FieldView, Fields, Schema, content_id, field, find_field, no_fields}
use zen.Schema.{schema_fields}
use zen.Value.{Cell, Value, get_field, value_schema}
use zen.Gate.{Admission, Ctx, Error, Report, accept, admit, diagnose, door_error, is_full, reject}
use zen.Gate.{reject_errors, settle, validate_into}
use zen.Gate.Offences.{fields_offences, report_errors, validate_fields-Reports}
use zen.Gate.Conforms.{CellConforms, FieldsConform, all_done, fields_offences_iff, filled_in}
use zen.Gate.Conforms.{left_out}

-- The offences of a claimant at a door, all of them.
unfoldable pub door_offences : Value → Schema → List Error
door_offences v door =
    if content_id (value_schema v) == content_id door
    then fields_offences (schema_fields door) v []
    else door_error door v ∷ []

abbrev fresh_ctx : Bool → Ctx
fresh_ctx all = record { errs = []; collect_all = all; stopped = false }

-- The errors kept in a mode.
abbrev pub kept : Bool → List Error → List Error
kept true es = es
kept false es = take 1 es

report_errors-kept :
    (all : Bool) (es : List Error) → (report_errors (fresh_ctx all) es).errs ≡ kept all es
unfolding report_errors
report_errors-kept true [] = refl
report_errors-kept true (e ∷ es) = refl
report_errors-kept false [] = refl
report_errors-kept false (e ∷ es) = refl

kept_one : (all : Bool) (e : Error) → e ∷ [] ≡ kept all (e ∷ [])
kept_one true e = refl
kept_one false e = refl

pub validate_into-kept :
    (v : Value) (door : Schema) (all : Bool) (runs : ℕ)
    → validate_into v door all runs ≡ (kept all (door_offences v door), runs + 1)
unfolding validate_into door_offences
validate_into-kept v door all runs =
    elim (Bool-cases (content_id (value_schema v) == content_id door)) [
      | inl same ↦ rw same (
          ap (λ (es : List Error). (es, runs + 1))
            (ap (λ (c : Ctx). c.errs)
                (validate_fields-Reports (schema_fields door) v [] (fresh_ctx all))
              ∙ report_errors-kept all _))
      | inr other ↦
          rw other (ap (λ (es : List Error). (es, runs + 1)) (kept_one all (door_error door v)))
    ]

pub kept-eq-nil : (all : Bool) (es : List Error) → kept all es ≡ [] → es ≡ []
kept-eq-nil true es h = h
kept-eq-nil false [] h = refl
kept-eq-nil false (e ∷ es) h = cc

-- A value is an instance of a door: it claims the door's content id and conforms to its fields.
pub record IsInstance (v : Value) (door : Schema) : Type 0 where
  pub identity : content_id (value_schema v) ≡ content_id door
  pub structure : FieldsConform (schema_fields door) v

pub door_offences-IsInstance :
    (v : Value) (door : Schema) → door_offences v door ≡ [] → IsInstance v door
unfolding door_offences
door_offences-IsInstance v door h =
    elim (Bool-cases (content_id (value_schema v) == content_id door)) [
      | inl same ↦ record {
        identity = (==_iff _ _).0 same;
        structure = (fields_offences_iff _ v []).0 (rw same at h);
      }
      | inr other ↦ cc (rw other at h)
    ]

IsInstance-door_offences :
    (v : Value) (door : Schema) → IsInstance v door → door_offences v door ≡ []
unfolding door_offences
IsInstance-door_offences v door i =
    if_true (content_id (value_schema v) == content_id door) _ ((==_iff _ _).1 i.identity)
    ∙ (fields_offences_iff _ v []).1 i.structure

pub settle-accept : (v w : Value) (es : List Error) → settle v es ≡ accept w → (w ≡ v) × (es ≡ [])
unfolding settle reject_errors
settle-accept v w [] h = (cc, refl)
settle-accept v w (e ∷ es) h = cc

settle-reject : (v : Value) (es fs : List Error) → settle v es ≡ reject fs → (fs ≡ es) × (es ≢ [])
unfolding settle reject_errors
settle-reject v [] fs h = cc
settle-reject v (e ∷ es) fs h = (cc, λ z. cc)

settle-kept_nil : (v : Value) (all : Bool) → settle v (kept all []) ≡ accept v
unfolding settle
settle-kept_nil v true = refl
settle-kept_nil v false = refl

pub admit_verdict :
    (v : Value) (door : Schema) (report : Report) (runs : ℕ)
    → admit v door report runs ≡ (settle v (kept (is_full report) (door_offences v door)), runs + 1)
unfolding admit
admit_verdict v door report runs = rw (validate_into-kept v door (is_full report) runs)

pub admit_runs :
    (v : Value) (door : Schema) (report : Report) (runs : ℕ)
    → (admit v door report runs).1 ≡ runs + 1
admit_runs v door report runs = ap (λ (r : Admission × ℕ). r.1) (admit_verdict v door report runs)

-- The gate accepts exactly the instances of its door, in either mode, and hands out the value
-- it was given.
pub admit-eq-accept_iff :
    (v w : Value) (door : Schema) (report : Report) (runs : ℕ)
    → ((admit v door report runs).0 ≡ accept w) ↔ ((w ≡ v) × IsInstance v door)
admit-eq-accept_iff v w door report runs =
    rw (admit_verdict v door report runs) (accepted, instance_of)
  where
    accepted :
        settle v (kept (is_full report) (door_offences v door)) ≡ accept w
        → (w ≡ v) × IsInstance v door
    accepted h =
        let (same, clean) = settle-accept v w _ h in
        (same, door_offences-IsInstance v door (kept-eq-nil (is_full report) _ clean))

    instance_of :
        (w ≡ v) × IsInstance v door
        → settle v (kept (is_full report) (door_offences v door)) ≡ accept w
    instance_of (same, i) =
        rw (IsInstance-door_offences v door i, same) (settle-kept_nil v (is_full report))

-- A refusal in full mode carries the whole diagnosis, a refusal in the fast mode its first error
-- alone; neither is empty. A call that refuses counts as one run of the validator.
pub admit-eq-reject :
    (v : Value) (door : Schema) (report : Report) (runs : ℕ) {es : List Error}
    → (admit v door report runs).0 ≡ reject es
    → (es ≡ kept (is_full report) (diagnose v door runs).0)
      × (es ≢ [])
      × ((admit v door report runs).1 ≡ runs + 1)
unfolding diagnose
admit-eq-reject v door report runs h =
    let (same, some_left) = settle-reject v _ _ (rw (admit_verdict v door report runs) at h) in
    (
      same ∙ rw (validate_into-kept v door true runs),
      (λ z. some_left (sym same ∙ z)),
      rw (admit_verdict v door report runs),
    )

fields_required :
    (fs : Fields) (v : Value) (name : Bytes) {f : FieldView}
    → FieldsConform fs v
    → find_field fs name ≡ some f
    → f.required ≡ true
    → (c : Cell) × (get_field v name ≡ some c) × CellConforms f.type c
unfolding find_field
fields_required no_fields v name all_done found required = cc
fields_required (field n t false fs) v name (left_out e rest) found required =
    elim (Bool-cases (bytes_eq n name)) [
      | inl here ↦ ground (arith, here, found, required)
      | inr later ↦ fields_required fs v name rest (rw later at found) required
    ]
fields_required (field n t r fs) v name (filled_in {c} e conforms rest) found required =
    elim (Bool-cases (bytes_eq n name)) [
      | inl here ↦
          subst
            (λ (g : FieldView). (d : Cell) × (get_field v name ≡ some d) × CellConforms g.type d)
            (some_injective (rw here at found)) (c, rw (← bytes_eq→eq n name here) e, conforms)
      | inr later ↦ fields_required fs v name rest (rw later at found) required
    ]

-- In what the gate hands out at a door, in either report mode, a field that the door requires is
-- there and is an instance of its type.
pub admit-find_field :
    (v w : Value) (door : Schema) (mode : Report) (runs : ℕ) (name : Bytes) {f : FieldView}
    → (admit v door mode runs).0 ≡ Admission.accept w
    → find_field (schema_fields door) name ≡ some f
    → f.required ≡ true
    → (c : Cell) × (get_field w name ≡ some c) × CellConforms f.type c
admit-find_field v w door mode runs name accepted found required =
    let (same, i) = (admit-eq-accept_iff v w door mode runs).0 accepted in
    fields_required (schema_fields door) w name
      (subst (λ u. IsInstance u door) (sym same) i).structure found required
