-- ===== src/Serialize/Header.antt =====
-- src/serialize.cpp: the header of the native envelope, written and parsed.
-- The fields of the header after the magic and the format version.
use zen.Prelude.{All, All-append, IsByte, append_assoc, arith, drop-length_append, length}
use zen.Prelude.{length-append, refl, some, take-length_append, true, ℕ, ◌%◌, ◌++◌, ◌<◌, ◌^◌, ◌∷◌}
use zen.Prelude.{◌≡◌, ◌≤◌}
use zen.Binary.{Bytes, put_u8, take_bytes, u16le, u32le, u64le, u8}
use zen.Binary.Fixed.{le_bytes, le_bytes-IsByte, put_u16le-le_bytes, put_u32le-le_bytes}
use zen.Binary.Fixed.{put_u64le-le_bytes, read_le_iff}
use zen.Schema.{Schema, content_id, schema_name, schema_version}
use zen.Utf8.{valid_utf8}
use zen.Serialize.Envelope.{bin_format_version, bin_magic0, bin_magic1, claim, parse, parse_claim}
use zen.Serialize.Envelope.{parse_name, put_header}

abbrev header_tail : Bytes → ℕ → ℕ → Bytes → Bytes
header_tail name version cid body =
    le_bytes 2 (length name) ++ (name ++ (le_bytes 4 version ++ (le_bytes 8 cid ++ body)))

put_header-eq :
    (s : Schema) (body : Bytes)
    → length (schema_name s) ≤ 0xFFFF
    → put_header s ++ body
      ≡ bin_magic0
        ∷ bin_magic1
        ∷ bin_format_version
        ∷ header_tail (schema_name s) (schema_version s) (content_id s) body
unfolding put_header put_u8
put_header-eq s body short =
    let low_length : length (schema_name s) % 2 ^ 16 ≡ length (schema_name s) =
      omega (arith, short) in
    rw
      (
        put_u64le-le_bytes, put_u32le-le_bytes, put_u16le-le_bytes, low_length, append_assoc,
        append_assoc, append_assoc,
      )
      refl

u16le-some :
    (v : ℕ) (rest : Bytes)
    → v < 2 ^ 16
    → All IsByte rest
    → u16le (le_bytes 2 v ++ rest) ≡ some (v, rest)
unfolding u16le
u16le-some v rest fits octets =
    (read_le_iff 16 2 (omega arith) _ v rest
        (All-append IsByte (le_bytes 2 v) rest (le_bytes-IsByte 2 v) octets)).1
      (fits, refl)

u32le-some :
    (v : ℕ) (rest : Bytes)
    → v < 2 ^ 32
    → All IsByte rest
    → u32le (le_bytes 4 v ++ rest) ≡ some (v, rest)
unfolding u32le
u32le-some v rest fits octets =
    (read_le_iff 32 4 (omega arith) _ v rest
        (All-append IsByte (le_bytes 4 v) rest (le_bytes-IsByte 4 v) octets)).1
      (fits, refl)

u64le-some :
    (v : ℕ) (rest : Bytes)
    → v < 2 ^ 64
    → All IsByte rest
    → u64le (le_bytes 8 v ++ rest) ≡ some (v, rest)
unfolding u64le
u64le-some v rest fits octets =
    (read_le_iff 64 8 (omega arith) _ v rest
        (All-append IsByte (le_bytes 8 v) rest (le_bytes-IsByte 8 v) octets)).1
      (fits, refl)

pub take_bytes-some : (xs rest : Bytes) → take_bytes (length xs) (xs ++ rest) ≡ some (xs, rest)
unfolding take_bytes
take_bytes-some xs rest =
    ground (arith, length-append xs rest, take-length_append xs rest, drop-length_append xs rest)

parse_claim-eq :
    (name r : Bytes) (version cid : ℕ) (body : Bytes)
    → version < 2 ^ 32
    → cid < 2 ^ 64
    → All IsByte body
    → parse_claim name (le_bytes 4 version ++ (le_bytes 8 cid ++ body))
      ≡ claim name version cid body
unfolding parse_claim
parse_claim-eq name r version cid body v_fits c_fits octets =
    rw
      (
        u32le-some version (le_bytes 8 cid ++ body) v_fits
            (All-append IsByte (le_bytes 8 cid) body (le_bytes-IsByte 8 cid) octets),
        u64le-some cid body c_fits octets,
      )
      refl

-- On octets: a name of at most 65535 octets in UTF-8, a 32-bit version, a 64-bit content id and a
-- body are what `parse` finds behind the header that `serialize` writes for them.
pub parse-put_header :
    (s : Schema) (body : Bytes)
    → length (schema_name s) ≤ 0xFFFF
    → valid_utf8 (schema_name s) ≡ true
    → schema_version s < 2 ^ 32
    → content_id s < 2 ^ 64
    → All IsByte (schema_name s)
    → All IsByte body
    → parse (put_header s ++ body) ≡ claim (schema_name s) (schema_version s) (content_id s) body
unfolding parse parse_name u8
parse-put_header s body short utf8 v_fits c_fits name_octets octets =
    let tail = le_bytes 4 (schema_version s) ++ (le_bytes 8 (content_id s) ++ body) in
    let tail_octets : All IsByte tail =
      All-append IsByte (le_bytes 4 (schema_version s)) _ (le_bytes-IsByte 4 (schema_version s)) (
        All-append IsByte (le_bytes 8 (content_id s)) body (le_bytes-IsByte 8 (content_id s))
          octets) in
    rw
      (
        put_header-eq s body short,
        u16le-some (length (schema_name s)) (schema_name s ++ tail) (omega (arith, short))
            (All-append IsByte (schema_name s) tail name_octets tail_octets),
        take_bytes-some (schema_name s) tail,
        utf8,
      )
      (parse_claim-eq (schema_name s) tail (schema_version s) (content_id s) body v_fits c_fits
        octets)
