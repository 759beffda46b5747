-- ===== src/Hash.antt =====
-- src/detail/hash.hpp: FNV-1a over 64 bits. A hasher is its running value.
use zen.Prelude.{[], bit_and, bit_xor, length, suc, zero, ℕ, ◌%◌, ◌*◌, ◌/◌, ◌^◌, ◌∷◌}
use zen.Binary.{Bytes}

abbrev pub fnv_offset : ℕ
fnv_offset = 1469598103934665603

abbrev pub fnv_prime : ℕ
fnv_prime = 1099511628211

unfoldable pub hash_byte : ℕ → ℕ → ℕ
hash_byte h b = bit_xor h b * fnv_prime % 2 ^ 64

unfoldable pub hash_bytes : ℕ → Bytes → ℕ
unfolding hash_byte
hash_bytes h [] = h
hash_bytes h (c ∷ s) = hash_bytes (hash_byte h c) s

-- `for (int i = 0; i < 8; ++i)`, with the rounds that are left.
unfoldable pub hash_word : ℕ → ℕ → ℕ → ℕ
unfolding hash_byte
hash_word zero h v = h
hash_word (suc rounds) h v = hash_word rounds (hash_byte h (bit_and v 0xFF % 256)) (v / 2 ^ 8)

unfoldable pub hash_u64 : ℕ → ℕ → ℕ
unfolding hash_word
hash_u64 h v = hash_word 8 h v

-- A string is folded in behind its length.
unfoldable pub hash_field : ℕ → Bytes → ℕ
unfolding hash_bytes hash_u64
hash_field h s = hash_bytes (hash_u64 h (length s)) s
