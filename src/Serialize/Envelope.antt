-- ===== src/Serialize/Envelope.antt =====
-- src/serialize.cpp: the native envelope, and the gate for parsed bytes.
use zen.Prelude.{Bool, List, Option, [], bit_and, bytes_eq, codes, false, if◌then◌else◌, length}
use zen.Prelude.{ltb, none, not, some, suc, zero, ℕ, ◌%◌, ◌*◌, ◌++◌, ◌+◌, ◌-◌, ◌/◌, ◌==◌, ◌^◌}
use zen.Prelude.{◌||◌, ◌∷◌}
use zen.Binary.{Bytes, put_u16le, put_u32le, put_u64le, put_u8, take_bytes, u16le, u32le, u64le}
use zen.Binary.{u8}
use zen.Failure.{Throws, invalid_argument, ok, refuse_if, throw, to_string, ◌>>◌}
use zen.Schema.{Schema, content_id, schema_name, schema_version, version_label}
use zen.Value.{Value, value_schema}
use zen.Gate.{Admission, Counted, Error, Report, accept, is_full, malformed_bytes, reject}
use zen.Gate.{schema_mismatch, settle, unknown_schema, validate_into}
use zen.Registry.{Registry, lookup_schema}
use zen.Utf8.{valid_utf8}
use zen.Serialize.Encode.{encode_body}
use zen.Serialize.Decode.{Outcome, decode_body, done, fatal, uncaught}

abbrev pub bin_magic0 : ℕ
bin_magic0 = 0x5A

abbrev pub bin_magic1 : ℕ
bin_magic1 = 0x4E

abbrev pub bin_format_version : ℕ
bin_format_version = 1

-- The header in front of the body.
unfoldable pub put_header : Schema → Bytes
put_header s =
    let magic = put_u8 (put_u8 (put_u8 [] bin_magic0) bin_magic1) bin_format_version in
    let named = put_u16le magic (length (schema_name s) % 2 ^ 16) ++ schema_name s in
    put_u64le (put_u32le named (schema_version s)) (content_id s)

unfoldable pub serialize : Value → Throws Bytes
unfolding put_header
serialize v = do
  refuse_if (ltb 0xFFFF (length (schema_name (value_schema v))))
      (codes "serialize: schema name exceeds 65535 bytes")
  encode_body v (put_header (value_schema v))

-- `Unverified` after the native `parse`: an envelope error, or the claim and the raw body. The
-- content id is mandatory in this format.
pub data Unverified : Type 0 where
  malformed : Error → Unverified
  claim : Bytes → ℕ → ℕ → Bytes → Unverified

unfoldable pub malformed_envelope : Bytes → Unverified
malformed_envelope why =
    malformed
      (record { kind = malformed_bytes; path = []; expected = []; actual = []; detail = why })

-- A read of the header, with the reason if it fails.
abbrev pub read_then :
    {A : Type 0} → Option (A × Bytes) → Bytes → (A → Bytes → Unverified) → Unverified
read_then none why next = malformed_envelope why
read_then (some (a, r)) why next = next a r

-- From the schema version on.
unfoldable pub parse_claim : Bytes → Bytes → Unverified
parse_claim name r = read_then (u32le r) (codes "truncated schema version") λ version r₁.
    read_then (u64le r₁) (codes "truncated content id (mandatory in the native format)")
      λ cid r₂. claim name version cid r₂

-- From the length of the schema name on.
unfoldable pub parse_name : Bytes → Unverified
unfolding parse_claim
parse_name r = read_then (u16le r) (codes "truncated schema-name length") λ name_len r₁.
    read_then (take_bytes name_len r₁) (codes "truncated schema name") λ name r₂.
      if valid_utf8 name
      then parse_claim name r₂
      else malformed_envelope (codes "schema name is not valid UTF-8")

unfoldable pub parse : Bytes → Unverified
unfolding parse_name
parse input = read_then (u8 input) (codes "truncated magic") λ m0 r₁.
    read_then (u8 r₁) (codes "truncated magic") λ m1 r₂.
      if not (m0 == bin_magic0) || not (m1 == bin_magic1)
      then malformed_envelope (codes "bad magic (not a Zen native value)")
      else read_then (u8 r₂) (codes "truncated format version") λ ver r₃.
        if not (ver == bin_format_version)
        then malformed_envelope (codes "unsupported native format version")
        else parse_name r₃

-- `format_content_id`: sixteen hexadecimal digits.
abbrev hex_digit : ℕ → ℕ
hex_digit d = if ltb d 10 then b'0' + d else b'a' + (d - 10)

hex_digits : ℕ → ℕ → Bytes
hex_digits zero cid = []
hex_digits (suc n) cid = hex_digit (bit_and (cid / 2 ^ (4 * n)) 0xF) ∷ hex_digits n cid

unfoldable pub format_content_id : ℕ → Bytes
unfolding hex_digits
format_content_id cid = codes "0x" ++ hex_digits 16 cid

-- Whether an error is about a path that the decoder has spoken of.
unfoldable pub covered : List Error → Bytes → Bool
covered [] path = false
covered (e ∷ es) path = bytes_eq e.path path || covered es path

unfoldable pub uncovered : List Error → List Error → List Error
unfolding covered
uncovered decode_errs [] = []
uncovered decode_errs (e ∷ es) =
    if covered decode_errs e.path then uncovered decode_errs es else e ∷ uncovered decode_errs es

-- `finish` in the mode that stops at the first error.
unfoldable pub finish_first : Value → List Error → List Error → Admission
finish_first candidate (d ∷ ds) verrs = reject (d ∷ [])
finish_first candidate [] (e ∷ es) = reject (e ∷ [])
finish_first candidate [] [] = accept candidate

-- `finish` of a decoding that is not fatal: the validator judges the candidate.
unfoldable pub finish : Value → List Error → Schema → Bool → Counted Admission
unfolding finish_first uncovered settle
finish candidate decode_errs door collect_all runs =
    let (verrs, runs') = validate_into candidate door collect_all runs in
    if collect_all
    then (settle candidate (decode_errs ++ uncovered decode_errs verrs), runs')
    else (finish_first candidate decode_errs verrs, runs')

-- What the decoder left: bytes behind the value are an error.
unfoldable pub judge : Outcome Value → Schema → Bool → ℕ → Throws (Admission × ℕ)
unfolding finish
judge (done v []) door collect_all runs = ok (finish v [] door collect_all runs)
judge (done v (b ∷ rest)) door collect_all runs = ok (
  reject (
      record {
        kind = malformed_bytes;
        path = [];
        expected = [];
        actual = codes "binary";
        detail = codes "trailing bytes after the value";
      }
      ∷ []),
  runs,
)
judge (fatal e) door collect_all runs = ok (reject (e ∷ []), runs)
judge (uncaught x) door collect_all runs = throw x

unfoldable pub claim_label : Bytes → ℕ → Bytes
claim_label name version = name ++ (codes " v" ++ to_string version)

-- `admit_against` for a native body.
unfoldable pub admit_against : Bytes → ℕ → ℕ → Bytes → Schema → Bool → ℕ → Throws (Admission × ℕ)
unfolding judge format_content_id claim_label
admit_against name version cid body door collect_all runs =
    if not (bytes_eq name (schema_name door)) || not (version == schema_version door)
    then ok (
      reject (
          record {
            kind = schema_mismatch;
            path = [];
            expected = version_label door;
            actual = claim_label name version;
            detail = codes "the bytes claim a different schema than this door";
          }
          ∷ []),
      runs,
    )
    else if not (cid == content_id door)
    then ok (
      reject (
          record {
            kind = schema_mismatch;
            path = [];
            expected = format_content_id (content_id door);
            actual = format_content_id cid;
            detail =
                codes "the bytes were written against a different shape of this name and version";
          }
          ∷ []),
      runs,
    )
    else judge (decode_body door 0 [] body) door collect_all runs

-- `admit(const Unverified&, door, report)`.
unfoldable pub admit_bytes : Unverified → Option Schema → Report → ℕ → Throws (Admission × ℕ)
unfolding admit_against is_full
admit_bytes u none report runs =
    throw (invalid_argument (codes "admit(Unverified, door): door must be non-null"))
admit_bytes (malformed e) (some door) report runs = ok (reject (e ∷ []), runs)
admit_bytes (claim name version cid body) (some door) report runs =
    admit_against name version cid body door (is_full report) runs

-- `admit(const Unverified&, const Registry&, report)`.
unfoldable pub admit_registered : Unverified → Registry → Report → ℕ → Throws (Admission × ℕ)
unfolding admit_against is_full
admit_registered (malformed e) registry report runs = ok (reject (e ∷ []), runs)
admit_registered (claim name version cid body) registry report runs =
    elim (lookup_schema registry name version) [
      | none ↦ ok (
        reject (
            record {
              kind = unknown_schema;
              path = [];
              expected = claim_label name version;
              actual = [];
              detail = codes "no such schema is registered";
            }
            ∷ []),
        runs,
      )
      | some door ↦ admit_against name version cid body door (is_full report) runs
    ]
