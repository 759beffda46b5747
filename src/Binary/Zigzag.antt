-- ===== src/Binary/Zigzag.antt =====
-- src/detail/binary.cpp: signed integers as zigzag varints.
use zen.Prelude.{All, IsByte, Option-cases, [], ap, arith, inl, inr, refl, some, ℕ, ◌%◌, ◌*◌}
use zen.Prelude.{◌++◌, ◌+◌, ◌-◌, ◌/◌, ◌<◌, ◌^◌, ◌↔◌, ◌∙◌, ◌≡◌, ◌⊎◌}
use zen.Prelude.Int.{IsI64, negsuc, pos, ℤ}
use zen.Prelude.Bits.{and_mask1, xor-zero, xor_ones}
use zen.Binary.{Bytes, put_uvarint, put_zigzag, to_i64, unzigzag, uvarint, zigzag}
use zen.Binary.Varint.{uvarint_iff}

-- The code of an integer: the evens for 0, 1, 2, ..., the odds for -1, -2, -3, ....
pub zigzag_code : ℤ → ℕ
zigzag_code (pos n) = 2 * n
zigzag_code (negsuc n) = 2 * n + 1

pub zigzag_code-lt : (v : ℤ) → IsI64 v → zigzag_code v < 2 ^ 64
unfolding zigzag_code
zigzag_code-lt (pos n) h = omega arith
zigzag_code-lt (negsuc n) h = omega arith

doubled_negative : (n : ℕ) → n < 2 ^ 63 → (2 ^ 64 - 1 - n) * 2 % 2 ^ 64 ≡ 2 ^ 64 - 2 - 2 * n
doubled_negative n h = omega arith

pub put_zigzag-zigzag_code :
    (out : Bytes) (v : ℤ) → IsI64 v → put_zigzag out v ≡ put_uvarint out (zigzag_code v)
unfolding put_zigzag zigzag_code
put_zigzag-zigzag_code out (pos n) h =
    ap (put_uvarint out) (xor-zero (n * 2 % 2 ^ 64) ∙ omega arith)
put_zigzag-zigzag_code out (negsuc n) h = ap (put_uvarint out) (
    xor_ones 64 ((2 ^ 64 - 1 - n) * 2 % 2 ^ 64) (omega arith) ∙ omega (arith, doubled_negative n h))

unzigzag_even : (n : ℕ) → n < 2 ^ 63 → unzigzag (2 * n) ≡ pos n
unfolding unzigzag to_i64
unzigzag_even n h = ground (arith, and_mask1 (2 * n), xor-zero (2 * n / 2))

unzigzag_odd : (n : ℕ) → n < 2 ^ 63 → unzigzag (2 * n + 1) ≡ negsuc n
unfolding unzigzag to_i64
unzigzag_odd n h = ground (arith, and_mask1 (2 * n + 1), xor_ones 64 ((2 * n + 1) / 2))

unzigzag-zigzag_code : (v : ℤ) → IsI64 v → unzigzag (zigzag_code v) ≡ v
unfolding zigzag_code
unzigzag-zigzag_code (pos n) h = unzigzag_even n h
unzigzag-zigzag_code (negsuc n) h = unzigzag_odd n h

parity : (n : ℕ) → (n ≡ 2 * (n / 2)) ⊎ (n ≡ 2 * (n / 2) + 1)
parity n = omega arith

-- Every 64-bit code is the code of the integer read from it.
zigzag_code-unzigzag :
    (zz : ℕ) → zz < 2 ^ 64 → IsI64 (unzigzag zz) × (zigzag_code (unzigzag zz) ≡ zz)
zigzag_code-unzigzag zz h = elim (parity zz) [
  | inl e ↦ rw (e, unzigzag_even (zz / 2) (omega arith)) (omega arith, unfold zigzag_code in refl)
  | inr e ↦ rw (e, unzigzag_odd (zz / 2) (omega arith)) (omega arith, unfold zigzag_code in refl)
]

-- On octets, `zigzag` returns `v` and leaves `rest` exactly when `v` is a 64-bit signed integer
-- and the input is what `put_zigzag` writes for `v`, followed by `rest`.
pub zigzag_iff :
    (bytes : Bytes) (v : ℤ) (rest : Bytes)
    → All IsByte bytes
    → (zigzag bytes ≡ some (v, rest)) ↔ (IsI64 v × (bytes ≡ put_zigzag [] v ++ rest))
unfolding zigzag
zigzag_iff bytes v rest octets = (accepted, written)
  where
    accepted : zigzag bytes ≡ some (v, rest) → IsI64 v × (bytes ≡ put_zigzag [] v ++ rest)
    accepted h = elim (Option-cases (uvarint bytes)) [
      | inl e ↦ cc (h, e)
      | inr ((zz, r), e) ↦
          let (bound, same) = (uvarint_iff bytes zz r octets).0 e in
          let (range, code) = zigzag_code-unzigzag zz bound in
          let ev : unzigzag zz ≡ v = ground (arith, e, h) in
          let er : r ≡ rest = ground (arith, e, h) in
          let range' : IsI64 v = rw (← ev) range in
          (range', rw (put_zigzag-zigzag_code [] v range', ← ev, code, ← er) same)
    ]

    written : IsI64 v × (bytes ≡ put_zigzag [] v ++ rest) → zigzag bytes ≡ some (v, rest)
    written (range, e) =
        rw
          (
            (uvarint_iff bytes (zigzag_code v) rest octets).1
                (zigzag_code-lt v range, rw (← put_zigzag-zigzag_code [] v range) e),
            zigzag,
          )
          (ap (λ (u : ℤ). some (u, rest)) (unzigzag-zigzag_code v range))
