-- ===== src/Value/Access.antt =====
-- src/value.cpp: reading a field after writing one.
use zen.Prelude.{Bool-cases, Option, ap, bytes_eq, bytes_eq_ne, bytes_eq_refl, bytes_eq→eq, false}
use zen.Prelude.{if◌then◌else◌, inl, inr, none, none-neq-some, option_map, refl, some}
use zen.Prelude.{some_injective, sym, true, true-neq-false, ◌∙◌, ◌≡◌}
use zen.Binary.{Bytes}
use zen.Failure.{ok, ok-injective}
use zen.Schema.{Fields, field, no_fields, schema_fields}
use zen.Value.{Cell, Slots, Value, absent, get_field, get_slot, no_slots, present, set_field}
use zen.Value.{set_found, set_slot, value}

pub option_map-eq-some :
    {A B : Type 0} (f : A → B) (o : Option A) {b : B}
    → option_map f o ≡ some b
    → (a : A) × (o ≡ some a) × (f a ≡ b)
option_map-eq-some f none h = absurd (none-neq-some h)
option_map-eq-some f (some a) h = (a, refl, some_injective h)

-- The field written is the one in front.
read_here :
    (k n m : Bytes) (c : Cell) (old rest : Option Cell)
    → bytes_eq k n ≡ true
    → (if bytes_eq k m then some c else rest)
      ≡ (if bytes_eq n m then some c else if bytes_eq k m then old else rest)
read_here k n m c old rest same = rw (bytes_eq→eq k n same) (elim (Bool-cases (bytes_eq n m)) [
  | inl yes_one ↦ rw yes_one refl
  | inr no_one ↦ rw no_one refl
])

-- The field written is one behind the front.
read_later :
    (k n m : Bytes) (c : Cell) (old rest new : Option Cell)
    → bytes_eq k n ≡ false
    → new ≡ (if bytes_eq n m then some c else rest)
    → (if bytes_eq k m then old else new)
      ≡ (if bytes_eq n m then some c else if bytes_eq k m then old else rest)
read_later k n m c old rest new other h = rw h (elim (Bool-cases (bytes_eq k m)) [
  | inl front ↦
      rw
        (
          front,
          bytes_eq_ne n m (λ e.
              absurd
                (true-neq-false (sym (rw (bytes_eq→eq k m front, e) (bytes_eq_refl m)) ∙ other))),
        )
        refl
  | inr behind ↦ rw behind refl
])

set_slot-get_slot :
    (fs : Fields) (slots : Slots) (n m : Bytes) (c : Cell) {slots' : Slots}
    → set_slot fs slots n c ≡ some slots'
    → get_slot fs slots' m ≡ (if bytes_eq n m then some c else get_slot fs slots m)
unfolding set_slot get_slot
set_slot-get_slot no_fields slots n m c h = absurd (none-neq-some h)
set_slot-get_slot (field k t r fs) no_slots n m c h = absurd (none-neq-some h)
set_slot-get_slot (field k t r fs) (absent slots) n m c h = elim (Bool-cases (bytes_eq k n)) [
  | inl here ↦
      ap (λ l. unfold get_slot in get_slot (field k t r fs) l m)
        (sym (some_injective (rw here at h)))
      ∙ read_here k n m c none (get_slot fs slots m) here
  | inr later ↦
      let (left, inner, same) = option_map-eq-some absent (set_slot fs slots n c) (rw later at h) in
      ap (λ l. unfold get_slot in get_slot (field k t r fs) l m) (sym same)
      ∙ read_later k n m c none (get_slot fs slots m) _ later
          (set_slot-get_slot fs slots n m c inner)
]
set_slot-get_slot (field k t r fs) (present d slots) n m c h = elim (Bool-cases (bytes_eq k n)) [
  | inl here ↦
      ap (λ l. unfold get_slot in get_slot (field k t r fs) l m)
        (sym (some_injective (rw here at h)))
      ∙ read_here k n m c (some d) (get_slot fs slots m) here
  | inr later ↦
      let (left, inner, same) =
        option_map-eq-some (present d) (set_slot fs slots n c) (rw later at h) in
      ap (λ l. unfold get_slot in get_slot (field k t r fs) l m) (sym same)
      ∙ read_later k n m c (some d) (get_slot fs slots m) _ later
          (set_slot-get_slot fs slots n m c inner)
]

-- After a field was set, reading it gives the cell, and every other field reads as before.
pub set_field-get_field :
    (v : Value) (n m : Bytes) (c : Cell) {w : Value}
    → set_field v n c ≡ ok w
    → get_field w m ≡ (if bytes_eq n m then some c else get_field v m)
unfolding set_found get_field set_field
set_field-get_field (value s slots) n m c h = found (set_slot (schema_fields s) slots n c) refl h
  where
    found :
        (o : Option Slots) {w : Value}
        → set_slot (schema_fields s) slots n c ≡ o
        → set_found s n o ≡ ok w
        → get_field w m ≡ (if bytes_eq n m then some c else get_slot (schema_fields s) slots m)
    found none e h = cc
    found (some left) e h =
        ap (λ v. get_field v m) (sym (ok-injective h))
        ∙ set_slot-get_slot (schema_fields s) slots n m c e
