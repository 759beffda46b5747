-- ===== src/Serialize/Filling.antt =====
-- src/serialize.cpp: the decoder's value, as its fields are set one after the other.
use zen.Prelude.{Bool, ap, arith, bytes_eq_ne, bytes_eq_refl, refl, some, suc, ◌∙◌, ◌≡◌, ◌≢◌}
use zen.Binary.{Bytes}
use zen.Schema.{Fields, TypeRef, field, field_count, no_fields}
use zen.Schema.Distinct.{Absent, IsDistinct}
use zen.Value.{Cell, Slots, absent, no_slots, present, set_slot}
use zen.Serialize.Presence.{slots_length}

abbrev pub join_fields : Fields → Fields → Fields
join_fields no_fields gs = gs
join_fields (field n t r fs) gs = field n t r (join_fields fs gs)

abbrev pub join_slots : Slots → Slots → Slots
join_slots no_slots es = es
join_slots (absent slots) es = absent (join_slots slots es)
join_slots (present c slots) es = present c (join_slots slots es)

pub join_fields_next :
    (pf : Fields) (n : Bytes) (t : TypeRef) (r : Bool) (fs : Fields)
    → join_fields (join_fields pf (field n t r no_fields)) fs ≡ join_fields pf (field n t r fs)
join_fields_next no_fields n t r fs = refl
join_fields_next (field k u q pf) n t r fs = ap (field k u q) (join_fields_next pf n t r fs)

pub join_slots_absent :
    (ps es : Slots) → join_slots (join_slots ps (absent no_slots)) es ≡ join_slots ps (absent es)
join_slots_absent no_slots es = refl
join_slots_absent (absent ps) es = ap absent (join_slots_absent ps es)
join_slots_absent (present d ps) es = ap (present d) (join_slots_absent ps es)

pub join_slots_present :
    (ps es : Slots) (c : Cell)
    → join_slots (join_slots ps (present c no_slots)) es ≡ join_slots ps (present c es)
join_slots_present no_slots es c = refl
join_slots_present (absent ps) es c = ap absent (join_slots_present ps es c)
join_slots_present (present d ps) es c = ap (present d) (join_slots_present ps es c)

pub join_slots-nil : (ps : Slots) → join_slots ps no_slots ≡ ps
join_slots-nil no_slots = refl
join_slots-nil (absent ps) = ap absent (join_slots-nil ps)
join_slots-nil (present d ps) = ap (present d) (join_slots-nil ps)

-- As many slots as fields.
abbrev pub Aligned : Fields → Slots → Type 0
Aligned fs slots = slots_length slots ≡ field_count fs

pub Aligned-absent :
    (pf : Fields) (ps : Slots) (n : Bytes) (t : TypeRef) (r : Bool)
    → Aligned pf ps
    → Aligned (join_fields pf (field n t r no_fields)) (join_slots ps (absent no_slots))
Aligned-absent no_fields no_slots n t r h = refl
Aligned-absent no_fields (absent ps) n t r h = absurd (omega (arith, h))
Aligned-absent no_fields (present c ps) n t r h = absurd (omega (arith, h))
Aligned-absent (field k u q pf) no_slots n t r h = absurd (omega (arith, h))
Aligned-absent (field k u q pf) (absent ps) n t r h =
    ap suc (Aligned-absent pf ps n t r (omega (arith, h)))
Aligned-absent (field k u q pf) (present c ps) n t r h =
    ap suc (Aligned-absent pf ps n t r (omega (arith, h)))

slots_length_present :
    (ps : Slots) (c : Cell)
    → slots_length (join_slots ps (present c no_slots))
      ≡ slots_length (join_slots ps (absent no_slots))
slots_length_present no_slots c = refl
slots_length_present (absent ps) c = ap suc (slots_length_present ps c)
slots_length_present (present d ps) c = ap suc (slots_length_present ps c)

pub Aligned-present :
    (pf : Fields) (ps : Slots) (n : Bytes) (t : TypeRef) (r : Bool) (c : Cell)
    → Aligned pf ps
    → Aligned (join_fields pf (field n t r no_fields)) (join_slots ps (present c no_slots))
Aligned-present pf ps n t r c h = slots_length_present ps c ∙ Aligned-absent pf ps n t r h

Absent-join_fields :
    (k : Bytes) (pf : Fields) (n : Bytes) (t : TypeRef) (r : Bool) (fs : Fields)
    → Absent k (join_fields pf (field n t r fs))
    → k ≢ n
Absent-join_fields k no_fields n t r fs (ne, h) = ne
Absent-join_fields k (field m u q pf) n t r fs (ne, h) = Absent-join_fields k pf n t r fs h

-- Where names are distinct, setting the next field by its name fills the next slot.
pub set_slot_next :
    (pf : Fields) (ps : Slots) (n : Bytes) (t : TypeRef) (r : Bool) (fs : Fields) (es : Slots)
    (c : Cell)
    → Aligned pf ps
    → IsDistinct (join_fields pf (field n t r fs))
    → set_slot (join_fields pf (field n t r fs)) (join_slots ps (absent es)) n c
      ≡ some (join_slots ps (present c es))
unfolding set_slot
set_slot_next no_fields no_slots n t r fs es c h d = rw (bytes_eq_refl n) refl
set_slot_next no_fields (absent ps) n t r fs es c h d = absurd (omega (arith, h))
set_slot_next no_fields (present e ps) n t r fs es c h d = absurd (omega (arith, h))
set_slot_next (field k u q pf) no_slots n t r fs es c h d = absurd (omega (arith, h))
set_slot_next (field k u q pf) (absent ps) n t r fs es c h (named, apart, d) =
    rw
      (
        bytes_eq_ne k n (Absent-join_fields k pf n t r fs apart),
        set_slot_next pf ps n t r fs es c (omega (arith, h)) d,
      )
      refl
set_slot_next (field k u q pf) (present e ps) n t r fs es c h (named, apart, d) =
    rw
      (
        bytes_eq_ne k n (Absent-join_fields k pf n t r fs apart),
        set_slot_next pf ps n t r fs es c (omega (arith, h)) d,
      )
      refl
