-- ===== src/Base64/Symbols.antt =====
-- src/detail/base64.cpp: the alphabet and its reverse table, and the octets as sextets.
use zen.Prelude.{ap, arith, bit_or, false, ltb, not, refl, true, ℕ, ◌%◌, ◌&&◌, ◌*◌, ◌+◌, ◌/◌, ◌<◌}
use zen.Prelude.{◌==◌, ◌^◌, ◌||◌, ◌∙◌, ◌≡◌, ◌⊎◌}
use zen.Prelude.Bits.{and_mask63, or_high_low}
use zen.Prelude.Tables.{every_below, every_below-holds}
use zen.Base64.{make_reverse, reverse_entry, sextet, symbol, symbol_from}

forward_table :
    every_below 64
      (λ v. reverse_entry (symbol v) == v && (not (symbol v == b'=') && ltb (symbol v) 256))
    ≡ true
unfolding every_below reverse_entry make_reverse symbol symbol_from
forward_table = refl

backward_table :
    every_below 256
      (λ c. reverse_entry c == 0xFF || (ltb (reverse_entry c) 64 && symbol (reverse_entry c) == c))
    ≡ true
unfolding every_below reverse_entry make_reverse symbol symbol_from
backward_table = refl

-- The table inverts the alphabet, no symbol of which is the padding.
pub reverse_entry-symbol : (v : ℕ) → v < 64 → reverse_entry (symbol v) ≡ v
reverse_entry-symbol v h = ground (arith, every_below-holds 64 _ v forward_table h)

pub symbol_not_padding : (v : ℕ) → v < 64 → (symbol v == b'=') ≡ false
symbol_not_padding v h = ground (arith, every_below-holds 64 _ v forward_table h)

pub symbol-octet : (v : ℕ) → v < 64 → symbol v < 256
symbol-octet v h = ground (arith, every_below-holds 64 _ v forward_table h)

pub reverse_entry_cases :
    (c : ℕ)
    → c < 256
    → (reverse_entry c ≡ 0xFF) ⊎ ((reverse_entry c < 64) × (symbol (reverse_entry c) ≡ c))
reverse_entry_cases c h = ground (arith, every_below-holds 256 _ c backward_table h)

pub group_one : (a : ℕ) → a < 256 → a * 2 ^ 16 % 2 ^ 32 ≡ a * 65536
group_one a h = omega arith

pub group_two :
    (a b : ℕ)
    → a < 256
    → b < 256
    → bit_or (a * 2 ^ 16 % 2 ^ 32) (b * 2 ^ 8 % 2 ^ 32) ≡ a * 65536 + b * 256
group_two a b ha hb =
    ap (λ x. bit_or x (b * 2 ^ 8 % 2 ^ 32)) (group_one a ha)
    ∙ ap (bit_or (a * 65536)) (omega arith)
    ∙ or_high_low 16 a (b * 256) (omega arith)

-- Three octets, as the number whose six-bit digits are written.
pub group_three :
    (a b c : ℕ)
    → a < 256
    → b < 256
    → c < 256
    → bit_or (bit_or (a * 2 ^ 16 % 2 ^ 32) (b * 2 ^ 8 % 2 ^ 32)) c ≡ a * 65536 + b * 256 + c
group_three a b c ha hb hc =
    ap (λ x. bit_or x c) (group_two a b ha hb ∙ omega arith)
    ∙ or_high_low 8 (a * 256 + b) c hc
    ∙ omega arith

pub sextet_digit : (n s v : ℕ) → n / 2 ^ s % 64 ≡ v → sextet n s ≡ symbol v
unfolding sextet
sextet_digit n s v e = ap symbol (and_mask63 (n / 2 ^ s) ∙ e)
