-- ===== src/Serialize/Whole.antt =====
-- src/serialize.cpp: whole messages, from `serialize` through `parse` to the gate and back.
use zen.Prelude.{All, IsByte, [], ap, append-nil, arith, bytes_eq_refl, false, length, ltb, refl}
use zen.Prelude.{some, sym, true, ℕ, ◌++◌, ◌<◌, ◌==◌, ◌^◌, ◌∙◌, ◌≡◌, ◌≤◌}
use zen.Binary.{Bytes}
use zen.Failure.{ok}
use zen.Schema.{Schema, content_id, schema_name, schema_version}
use zen.Value.{Value, value_schema}
use zen.Gate.{Report, admit, is_full}
use zen.Gate.Verdict.{admit_verdict}
use zen.Utf8.{valid_utf8}
use zen.Serialize.Encode.{encode_body}
use zen.Serialize.Decode.{decode_body, done}
use zen.Serialize.Envelope.{admit_against, admit_bytes, finish, judge, parse, put_header}
use zen.Serialize.Envelope.{serialize}
use zen.Serialize.Trust.{finish-nil}
use zen.Serialize.Header.{parse-put_header}
use zen.Serialize.Wire.{ValueFits, value_fits, wire_value, wire_value-IsByte}
use zen.Serialize.Written.{encode_body-wire_value}
use zen.Serialize.RoundTrip.{decode_body-wire_value}

-- What the header holds without loss: a short name in UTF-8 and integers of their width.
pub record IsHeaded (s : Schema) : Type 0 where
  pub short_name : length (schema_name s) ≤ 0xFFFF
  pub utf8_name : valid_utf8 (schema_name s) ≡ true
  pub name_octets : All IsByte (schema_name s)
  pub version_width : schema_version s < 2 ^ 32
  pub id_width : content_id s < 2 ^ 64

value_schema-fits : {d : ℕ} {s : Schema} {v : Value} → ValueFits d s v → value_schema v ≡ s
value_schema-fits (value_fits deep distinct fits) = refl

-- A value that fits is written, whatever its nesting: the header of its schema and its wire form.
pub serialize-wire_value :
    {s : Schema} {v : Value}
    → IsHeaded s
    → ValueFits 0 s v
    → serialize v ≡ ok (put_header s ++ wire_value v)
unfolding serialize
serialize-wire_value {s} {v} head fits =
    rw (value_schema-fits fits, short, encode_body-wire_value fits (put_header s)) refl
  where
    short : ltb 0xFFFF (length (schema_name s)) ≡ false
    short = ground (arith, head.short_name)

-- In front of octets: what the encoder writes for a fitting value, at any nesting within the limit,
-- the decoder reads back as that value, and it stops behind it. Both succeed.
pub decode_body-encode_body :
    (d : ℕ) (s : Schema) (v : Value) (base rest : Bytes)
    → ValueFits d s v
    → All IsByte rest
    → (out : Bytes) × (encode_body v [] ≡ ok out)
      × (decode_body s d base (out ++ rest) ≡ done v rest)
decode_body-encode_body d s v base rest fits octets =
    (wire_value v, encode_body-wire_value fits [], decode_body-wire_value fits base rest octets)

finish-admit :
    (v : Value) (door : Schema) (report : Report) (runs : ℕ)
    → finish v [] door (is_full report) runs ≡ admit v door report runs
finish-admit v door report runs =
    finish-nil v door (is_full report) runs ∙ sym (admit_verdict v door report runs)

admit_against-admit :
    (door : Schema) (v : Value) (report : Report) (runs : ℕ)
    → ValueFits 0 door v
    → admit_against
        (schema_name door)
        (schema_version door)
        (content_id door)
        (wire_value v)
        door
        (is_full report)
        runs
      ≡ ok (admit v door report runs)
unfolding admit_against judge
admit_against-admit door v report runs fits =
    rw
      (
        bytes_eq_refl (schema_name door),
        same_number (schema_version door),
        same_number (content_id door),
        decoded,
      )
      (ap ok (finish-admit v door report runs))
  where
    decoded : decode_body door 0 [] (wire_value v) ≡ done v []
    decoded =
        ap (decode_body door 0 []) (sym (append-nil (wire_value v)))
        ∙ decode_body-wire_value fits [] [] tt

    same_number : (n : ℕ) → (n == n) ≡ true
    same_number n = ground arith

-- The bytes that `serialize` writes for a fitting value of the door's schema get, after `parse`,
-- what the gate for live values gives that value: the same verdict on the same value, with the
-- same errors, in either mode and with the same count of runs. Writing the value succeeds.
pub admit_bytes-serialize :
    (door : Schema) (v : Value) (report : Report) (runs : ℕ)
    → IsHeaded door
    → ValueFits 0 door v
    → (out : Bytes) × (serialize v ≡ ok out)
      × (admit_bytes (parse out) (some door) report runs ≡ ok (admit v door report runs))
unfolding admit_bytes
admit_bytes-serialize door v report runs head fits = (
  put_header door ++ wire_value v,
  serialize-wire_value head fits,
  rw
      (parse-put_header door (wire_value v) head.short_name head.utf8_name head.version_width
        head.id_width head.name_octets (wire_value-IsByte fits))
      (admit_against-admit door v report runs fits),
)
