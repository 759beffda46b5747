-- ===== src/Binary/Groups.antt =====
-- src/detail/binary.cpp: canonical LEB128 varints, as they are written.
-- The groups of seven bits of `v`, lowest first, for `v` below 128 ^ (k + 1). No group follows a
-- value that fits one.
use zen.Prelude.{[], append_assoc, arith, bit_and, bit_or, if◌then◌else◌, ltb, suc, zero, ℕ, ◌%◌}
use zen.Prelude.{◌*◌, ◌++◌, ◌+◌, ◌/◌, ◌<◌, ◌^◌, ◌∷◌, ◌≡◌}
use zen.Prelude.Bits.{and_mask127, or_top_bit}
use zen.Prelude.Order.{lt_wf}
use zen.Binary.{Bytes, put_uvarint, put_uvarint_loop}
use mathlib.Core.WellFounded.{Acc}
use native.Mathlib.Nat.{pow-suc}
use native.Mathlib.Numerals.{towards_suc}

unfoldable pub minimal_groups : ℕ → ℕ → Bytes
minimal_groups zero v = v ∷ []
minimal_groups (suc k) v =
    let more = minimal_groups k (v / 128) in if ltb v 128 then v ∷ [] else (v % 128 + 128) ∷ more

inner_octet : (v : ℕ) → bit_or (bit_and v 0x7F) 0x80 % 256 ≡ v % 128 + 128
inner_octet v = rw (and_mask127 v, or_top_bit (v % 128) (omega arith)) (omega arith)

put_uvarint_loop-minimal_groups :
    (k : ℕ) (out : Bytes) (v : ℕ) (w : Acc ◌<◌ v)
    → v < 128 ^ suc k
    → put_uvarint_loop out v w ≡ out ++ minimal_groups k v
unfolding put_uvarint_loop minimal_groups
put_uvarint_loop-minimal_groups zero out v (Acc.intro _ smaller) h = grind arith
put_uvarint_loop-minimal_groups (suc k) out v (Acc.intro _ smaller) h =
    let octet : Bytes = (v % 128 + 128) ∷ [] in
    grind (
      arith,
      inner_octet v,
      λ (w : Acc ◌<◌ (v / 128)).
          put_uvarint_loop-minimal_groups k (out ++ octet) (v / 128) w (omega arith),
      append_assoc out octet (minimal_groups k (v / 128)),
    )

-- On every 64-bit number `put_uvarint` appends its minimal groups.
pub put_uvarint-minimal_groups :
    (out : Bytes) (v : ℕ) → v < 2 ^ 64 → put_uvarint out v ≡ out ++ minimal_groups 9 v
unfolding put_uvarint
put_uvarint-minimal_groups out v h =
    put_uvarint_loop-minimal_groups 9 out v (lt_wf.apply v) (omega arith)

pub shift_seven : (s : ℕ) → 2 ^ (s + 7) ≡ 2 ^ s * 128
shift_seven s = simp towards_suc (
    omega (
      arith,
      pow-suc 2 s,
      pow-suc 2 (suc s),
      pow-suc 2 (suc (suc s)),
      pow-suc 2 (suc (suc (suc s))),
      pow-suc 2 (suc (suc (suc (suc s)))),
      pow-suc 2 (suc (suc (suc (suc (suc s))))),
      pow-suc 2 (suc (suc (suc (suc (suc (suc s)))))),
    ))

pub grouped_lt :
    (b shift result : ℕ) → result + b % 128 * 2 ^ shift < 2 ^ 64 → b % 128 * 2 ^ shift < 2 ^ 64
grouped_lt b shift result whole = omega arith
