-- ===== src/Binary/Fixed.antt =====
-- src/detail/binary.cpp: the little-endian fixed-width integers, written and read.
use zen.Prelude.{All, IsByte, [], ap, append-nil, append_assoc, arith, bit_and, bit_or, drop}
use zen.Prelude.{drop-length_append, length, length-append, none, refl, some, suc, sym, zero, ℕ}
use zen.Prelude.{◌%◌, ◌*◌, ◌++◌, ◌+◌, ◌/◌, ◌<◌, ◌^◌, ◌↔◌, ◌∙◌, ◌∷◌, ◌≡◌, ◌≤◌}
use zen.Prelude.Bits.{and_mask255, or_low_high}
use zen.Binary.{Bytes, or_le, put_le, put_u16le, put_u32le, put_u64le, read_le, u16le, u32le}
use zen.Binary.{u64le}
use mathlib.Core.Path.{ap₂}
use native.Mathlib.Decide.{dec_le}
use native.Mathlib.Nat.{div-div-eq-div-mul, mod-eq_of_lt, one-le-pow, pow-le-pow_right, pow-suc}
use native.Mathlib.Numerals.{towards_suc}

-- The `n` octets of a number, lowest first, and the number of `n` octets.
unfoldable pub le_bytes : ℕ → ℕ → Bytes
le_bytes zero v = []
le_bytes (suc n) v = v % 256 ∷ le_bytes n (v / 256)

unfoldable pub le_value : ℕ → Bytes → ℕ
le_value zero bytes = 0
le_value (suc n) [] = 0
le_value (suc n) (p ∷ bytes) = p + 256 * le_value n bytes

pub length-le_bytes : (n v : ℕ) → length (le_bytes n v) ≡ n
unfolding le_bytes
length-le_bytes zero v = refl
length-le_bytes (suc n) v = ap suc (length-le_bytes n (v / 256))

pub le_bytes-IsByte : (n v : ℕ) → All IsByte (le_bytes n v)
unfolding le_bytes
le_bytes-IsByte zero v = tt
le_bytes-IsByte (suc n) v = (omega arith, le_bytes-IsByte n (v / 256))

shift_eight : (s : ℕ) → 2 ^ (s + 8) ≡ 2 ^ s * 256
shift_eight s = simp towards_suc (
    omega (
      arith,
      pow-suc 2 s,
      pow-suc 2 (suc s),
      pow-suc 2 (suc (suc s)),
      pow-suc 2 (suc (suc (suc s))),
      pow-suc 2 (suc (suc (suc (suc s)))),
      pow-suc 2 (suc (suc (suc (suc (suc s))))),
      pow-suc 2 (suc (suc (suc (suc (suc (suc s)))))),
      pow-suc 2 (suc (suc (suc (suc (suc (suc (suc s))))))),
    ))

shift_next : (v s : ℕ) → v / 2 ^ (s + 8) ≡ v / 2 ^ s / 256
shift_next v s = rw (shift_eight s) (sym (div-div-eq-div-mul v (2 ^ s) 256))

-- The writing loop appends the octets of what is still to be shifted out.
pub put_le-le_bytes :
    (n : ℕ) (out : Bytes) (v s : ℕ) → put_le n out v s ≡ out ++ le_bytes n (v / 2 ^ s)
unfolding put_le le_bytes
put_le-le_bytes zero out v s = sym (append-nil out)
put_le-le_bytes (suc n) out v s =
    put_le-le_bytes n (out ++ bit_and (v / 2 ^ s) 0xFF % 256 ∷ []) v (s + 8)
    ∙ rw (append_assoc, shift_next v s, and_mask255 (v / 2 ^ s))
        (ap (λ (d : ℕ). out ++ d ∷ le_bytes n (v / 2 ^ s / 256)) (omega arith))

place_next : (b : ℕ) → 2 ^ (8 * (b + 1)) ≡ 2 ^ (8 * b) * 256
place_next b =
    ap (λ (k : ℕ). 2 ^ k) {x = 8 * (b + 1)} {y = 8 * b + 8} (omega arith) ∙ shift_eight (8 * b)

place-suc : (b : ℕ) → 2 ^ (8 * suc b) ≡ 2 ^ (8 * b) * 256
place-suc b =
    ap (λ (k : ℕ). 2 ^ k) {x = 8 * suc b} {y = 8 * b + 8} (omega arith) ∙ shift_eight (8 * b)

octet_scaled : (p u : ℕ) → p < 256 → p * u ≤ 255 * u
octet_scaled p u h = grind arith

place_fits : (w b p : ℕ) → p < 256 → 8 * (b + 1) ≤ w → p * 2 ^ (8 * b) < 2 ^ w
place_fits w b p h room = omega (
  arith,
  octet_scaled p (2 ^ (8 * b)) h,
  place_next b,
  pow-le-pow_right {n = 2} (omega arith) room,
  one-le-pow (8 * b) 2 (omega arith),
)

-- The reading loop adds the octets at their places, as long as the word has room for them.
pub or_le-le_value :
    (w n : ℕ) (bytes : Bytes) (b v : ℕ)
    → All IsByte bytes
    → n ≤ length bytes
    → 8 * (b + n) ≤ w
    → v < 2 ^ (8 * b)
    → or_le w n bytes b v ≡ v + le_value n bytes * 2 ^ (8 * b)
unfolding or_le le_value
or_le-le_value w zero bytes b v octets enough room fits = omega arith
or_le-le_value w (suc n) [] b v octets enough room fits = absurd (omega arith)
or_le-le_value w (suc n) (p ∷ bytes) b v octets enough room fits =
    let octet = p * 2 ^ (8 * b) in
    let joined : bit_or v (octet % 2 ^ w) ≡ v + octet =
      rw (mod-eq_of_lt (place_fits w b p octets.0 (omega arith))) (or_low_high (8 * b) v p fits) in
    rw joined (
      or_le-le_value w n bytes (b + 1) (v + octet) octets.1 (omega arith) (omega arith)
        (omega (arith, place_next b, octet_scaled p (2 ^ (8 * b)) octets.0))
      ∙ omega (arith, ap (λ (u : ℕ). le_value n bytes * u) (place_next b)))

le_value-le_bytes :
    (n v : ℕ) (rest : Bytes) → v < 2 ^ (8 * n) → le_value n (le_bytes n v ++ rest) ≡ v
unfolding le_value le_bytes
le_value-le_bytes zero v rest h = omega arith
le_value-le_bytes (suc n) v rest h =
    omega (arith, place-suc n, le_value-le_bytes n (v / 256) rest (omega (arith, place-suc n)))

le_bytes-le_value :
    (n : ℕ) (bytes : Bytes)
    → All IsByte bytes
    → n ≤ length bytes
    → (le_value n bytes < 2 ^ (8 * n)) × (le_bytes n (le_value n bytes) ++ drop n bytes ≡ bytes)
unfolding le_value le_bytes
le_bytes-le_value zero bytes octets enough = (omega arith, refl)
le_bytes-le_value (suc n) [] octets enough = absurd (omega arith)
le_bytes-le_value (suc n) (p ∷ bytes) octets enough =
    let rest = le_bytes-le_value n bytes octets.1 (omega arith) in
    let high : (p + 256 * le_value n bytes) / 256 ≡ le_value n bytes = omega (arith, octets.0) in
    let low : (p + 256 * le_value n bytes) % 256 ≡ p = omega (arith, octets.0) in
    (omega (arith, octets.0, rest.0, place-suc n), rw (high, low, rest.1))

module _ (w n : ℕ) (room : 8 * n ≤ w) where
  pub read_le-eq :
      (bytes : Bytes)
      → All IsByte bytes
      → n ≤ length bytes
      → read_le w n bytes ≡ some (le_value n bytes, drop n bytes)
  unfolding read_le
  read_le-eq bytes octets enough =
      ground (arith, or_le-le_value w n bytes 0 0 octets enough (omega arith) (omega arith))

  read_le_short : (bytes : Bytes) → length bytes < n → read_le w n bytes ≡ none
  unfolding read_le
  read_le_short bytes h = ground arith

  -- The reader accepts exactly what the writer writes, and leaves what follows.
  pub read_le_iff :
      (bytes : Bytes) (v : ℕ) (rest : Bytes)
      → All IsByte bytes
      → (read_le w n bytes ≡ some (v, rest)) ↔ ((v < 2 ^ (8 * n)) × (bytes ≡ le_bytes n v ++ rest))
  read_le_iff bytes v rest octets = (accepted, written)
    where
      accepted :
          read_le w n bytes ≡ some (v, rest) → (v < 2 ^ (8 * n)) × (bytes ≡ le_bytes n v ++ rest)
      accepted h = elim (dec_le n (length bytes)) [
        | yes enough ↦
            ground (arith, read_le-eq bytes octets enough, le_bytes-le_value n bytes octets enough)
        | no short ↦ cc (h, read_le_short bytes (omega arith))
      ]

      written :
          (v < 2 ^ (8 * n)) × (bytes ≡ le_bytes n v ++ rest) → read_le w n bytes ≡ some (v, rest)
      written (fits, e) = ground (
        arith,
        e,
        length-append (le_bytes n v) rest,
        length-le_bytes n v,
        read_le-eq bytes octets,
        le_value-le_bytes n v rest fits,
        drop-length_append (le_bytes n v) rest,
        ap length e,
        ap (le_value n) e,
        ap (drop n) e,
      )

pub put_u16le-le_bytes : (out : Bytes) (v : ℕ) → put_u16le out v ≡ out ++ le_bytes 2 v
unfolding put_u16le le_bytes
put_u16le-le_bytes out v =
    rw (append_assoc, and_mask255 v, and_mask255 (v / 2 ^ 8))
      (ap₂ (λ (a b : ℕ). out ++ a ∷ b ∷ []) (omega arith) (omega arith))

pub put_u32le-le_bytes : (out : Bytes) (v : ℕ) → put_u32le out v ≡ out ++ le_bytes 4 v
unfolding put_u32le
put_u32le-le_bytes out v =
    put_le-le_bytes 4 out v 0 ∙ ap (λ (u : ℕ). out ++ le_bytes 4 u) (omega arith)

pub put_u64le-le_bytes : (out : Bytes) (v : ℕ) → put_u64le out v ≡ out ++ le_bytes 8 v
unfolding put_u64le
put_u64le-le_bytes out v =
    put_le-le_bytes 8 out v 0 ∙ ap (λ (u : ℕ). out ++ le_bytes 8 u) (omega arith)

-- On octets, `u16le` returns `v` and leaves `rest` exactly when `v` is a 16-bit number and the
-- input is what `put_u16le` writes for `v`, followed by `rest`.
pub u16le_iff :
    (bytes : Bytes) (v : ℕ) (rest : Bytes)
    → All IsByte bytes
    → (u16le bytes ≡ some (v, rest)) ↔ ((v < 2 ^ 16) × (bytes ≡ put_u16le [] v ++ rest))
unfolding u16le
u16le_iff bytes v rest octets =
    rw (put_u16le-le_bytes [] v) (read_le_iff 16 2 (omega arith) bytes v rest octets)

-- On octets, `u32le` returns `v` and leaves `rest` exactly when `v` is a 32-bit number and the
-- input is what `put_u32le` writes for `v`, followed by `rest`.
pub u32le_iff :
    (bytes : Bytes) (v : ℕ) (rest : Bytes)
    → All IsByte bytes
    → (u32le bytes ≡ some (v, rest)) ↔ ((v < 2 ^ 32) × (bytes ≡ put_u32le [] v ++ rest))
unfolding u32le
u32le_iff bytes v rest octets =
    rw (put_u32le-le_bytes [] v) (read_le_iff 32 4 (omega arith) bytes v rest octets)

-- On octets, `u64le` returns `v` and leaves `rest` exactly when `v` is a 64-bit number and the
-- input is what `put_u64le` writes for `v`, followed by `rest`.
pub u64le_iff :
    (bytes : Bytes) (v : ℕ) (rest : Bytes)
    → All IsByte bytes
    → (u64le bytes ≡ some (v, rest)) ↔ ((v < 2 ^ 64) × (bytes ≡ put_u64le [] v ++ rest))
unfolding u64le
u64le_iff bytes v rest octets =
    rw (put_u64le-le_bytes [] v) (read_le_iff 64 8 (omega arith) bytes v rest octets)
