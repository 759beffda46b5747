-- ===== src/Binary/Float.antt =====
-- src/detail/binary.cpp: binary64 with one NaN.
use zen.Prelude.{All, All-append, Bool-cases, IsByte, Option-cases, [], arith, if◌then◌else◌, inl}
use zen.Prelude.{inr, none, refl, some, sym, true, ℕ, ◌++◌, ◌<◌, ◌^◌, ◌↔◌, ◌∙◌, ◌≡◌}
use zen.Binary.{Bytes, canonical_float, canonical_nan_bits, f64le, is_nan, put_f64le, put_u64le}
use zen.Binary.{u64le}
use zen.Binary.Fixed.{le_bytes, le_bytes-IsByte, put_u64le-le_bytes, u64le_iff}

-- The one NaN pattern, or no NaN.
abbrev pub IsCanonicalFloat : ℕ → Type 0
IsCanonicalFloat bits = is_nan bits ≡ true → bits ≡ canonical_nan_bits

-- What `put_f64le` writes for a double.
unfoldable pub normalize_nan : ℕ → ℕ
normalize_nan bits = if is_nan bits then canonical_nan_bits else bits

pub normalize_nan-IsCanonicalFloat : (bits : ℕ) → IsCanonicalFloat (normalize_nan bits)
unfolding normalize_nan
normalize_nan-IsCanonicalFloat bits = elim (Bool-cases (is_nan bits)) [
  | inl nan ↦ rw nan (λ _. refl)
  | inr num ↦ rw num (λ e. cc (e, num))
]

pub normalize_nan_id : (bits : ℕ) → IsCanonicalFloat bits → normalize_nan bits ≡ bits
unfolding normalize_nan
normalize_nan_id bits h = elim (Bool-cases (is_nan bits)) [
  | inl nan ↦ rw nan (sym (h nan))
  | inr num ↦ rw num
]

canonical_float-IsCanonicalFloat :
    (bits : ℕ) (rest : Bytes) {d : ℕ} {r : Bytes}
    → canonical_float (bits, rest) ≡ some (d, r)
    → (d ≡ bits) × (r ≡ rest) × IsCanonicalFloat bits
unfolding canonical_float
canonical_float-IsCanonicalFloat bits rest h = (ground arith, ground arith, λ nan. ground arith)

canonical_float-some :
    (bits : ℕ) (rest : Bytes)
    → IsCanonicalFloat bits
    → canonical_float (bits, rest) ≡ some (bits, rest)
unfolding canonical_float
canonical_float-some bits rest h = elim (Bool-cases (is_nan bits)) [
  | inl nan ↦ ground (arith, h nan)
  | inr num ↦ rw num
]

pub put_f64le-normalize_nan :
    (out : Bytes) (bits : ℕ) → put_f64le out bits ≡ put_u64le out (normalize_nan bits)
unfolding put_f64le normalize_nan
put_f64le-normalize_nan out bits = refl

f64le-u64le :
    (bytes : Bytes) (bits : ℕ) (rest : Bytes)
    → u64le bytes ≡ some (bits, rest)
    → f64le bytes ≡ canonical_float (bits, rest)
unfolding f64le
f64le-u64le bytes bits rest e = rw (e, f64le)

f64le-none : (bytes : Bytes) → u64le bytes ≡ none → f64le bytes ≡ none
unfolding f64le
f64le-none bytes e = rw (e, f64le)

f64le_inv :
    (bytes : Bytes) (bits : ℕ) (rest : Bytes)
    → f64le bytes ≡ some (bits, rest)
    → (u64le bytes ≡ some (bits, rest)) × IsCanonicalFloat bits
f64le_inv bytes bits rest h = elim (Option-cases (u64le bytes)) [
  | inl e ↦ cc (h, f64le-none bytes e)
  | inr ((d, r), e) ↦
      let (p, q, canon) =
        canonical_float-IsCanonicalFloat d r (sym (f64le-u64le bytes d r e) ∙ h) in
      (rw (p, q) e, rw p canon)
]

-- On octets, `f64le` returns `bits` and leaves `rest` exactly when `bits` is a 64-bit pattern
-- that is the canonical NaN or no NaN, and the input is what `put_f64le` writes for it, followed
-- by `rest`.
pub f64le_iff :
    (bytes : Bytes) (bits : ℕ) (rest : Bytes)
    → All IsByte bytes
    → (f64le bytes ≡ some (bits, rest))
      ↔ ((bits < 2 ^ 64) × IsCanonicalFloat bits × (bytes ≡ put_f64le [] bits ++ rest))
f64le_iff bytes bits rest octets = (accepted, written)
  where
    accepted :
        f64le bytes ≡ some (bits, rest)
        → (bits < 2 ^ 64) × IsCanonicalFloat bits × (bytes ≡ put_f64le [] bits ++ rest)
    accepted h =
        let (read, canon) = f64le_inv bytes bits rest h in
        let (bound, e) = (u64le_iff bytes bits rest octets).0 read in
        (bound, canon, rw (put_f64le-normalize_nan [] bits, normalize_nan_id bits canon) e)

    written :
        (bits < 2 ^ 64) × IsCanonicalFloat bits × (bytes ≡ put_f64le [] bits ++ rest)
        → f64le bytes ≡ some (bits, rest)
    written (bound, canon, e) =
        let e' = rw (put_f64le-normalize_nan [] bits, normalize_nan_id bits canon) at e in
        f64le-u64le bytes bits rest ((u64le_iff bytes bits rest octets).1 (bound, e'))
        ∙ canonical_float-some bits rest canon

-- In front of octets, `f64le` reads back what `put_f64le` wrote for any 64-bit pattern: the pattern, or the canonical
-- NaN where the pattern was a NaN.
pub f64le-put_f64le :
    (bits : ℕ) (rest : Bytes)
    → bits < 2 ^ 64
    → All IsByte rest
    → f64le (put_f64le [] bits ++ rest) ≡ some (normalize_nan bits, rest)
f64le-put_f64le bits rest bound octets =
    (f64le_iff _ (normalize_nan bits) rest written-IsByte).1
      (normalized_lt, normalize_nan-IsCanonicalFloat bits, same)
  where
    normalized_lt : normalize_nan bits < 2 ^ 64
    normalized_lt = unfold normalize_nan in ground arith

    written-IsByte : All IsByte (put_f64le [] bits ++ rest)
    written-IsByte =
        rw (put_f64le-normalize_nan [] bits, put_u64le-le_bytes [] (normalize_nan bits))
          (All-append IsByte (le_bytes 8 _) rest (le_bytes-IsByte 8 _) octets)

    same : put_f64le [] bits ++ rest ≡ put_f64le [] (normalize_nan bits) ++ rest
    same = rw (
      put_f64le-normalize_nan [] bits,
      put_f64le-normalize_nan [] (normalize_nan bits),
      normalize_nan_id (normalize_nan bits) (normalize_nan-IsCanonicalFloat bits),
    )
