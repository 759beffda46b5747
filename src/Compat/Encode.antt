-- ===== src/Compat/Encode.antt =====
-- src/serialize.cpp: a value as JSON, given `std::to_chars` of a double.
use zen.Prelude.{Bool, [], codes, false, if◌then◌else◌, true, ℕ, ◌++◌, ◌∷◌}
use zen.Binary.{Bytes}
use zen.Schema.{Fields, field, schema_fields}
use zen.Value.{Cell, Cells, Slots, Value, absent, boolean, cell, integer, no_cells, present, real}
use zen.Value.{value}
use zen.Base64.{base64_encode}
use zen.Json.Text.{json_quote}
use zen.Compat.Numbers.{json_encode_float, json_encode_int}

-- The comma in front of all but the first entry.
abbrev pub separated : Bool → Bytes → Bytes
separated true out = out
separated false out = out ++ b',' ∷ []

module _ (to_chars : ℕ → Bytes) where
  unfoldable mutual
    pub json_encode_cell : Cell → Bytes → Bytes
    json_encode_cell (integer v) out = json_encode_int v out
    json_encode_cell (real bits) out = json_encode_float to_chars bits out
    json_encode_cell (Cell.text s) out = json_quote s out
    json_encode_cell (boolean b) out = out ++ (if b then codes "true" else codes "false")
    json_encode_cell (Cell.bytes s) out = json_quote (base64_encode s) out
    json_encode_cell (Cell.message v) out = json_encode_fields v out
    json_encode_cell Cell.null_message out = out ++ codes "null"
    json_encode_cell (Cell.list cs) out =
        json_encode_elements cs true (out ++ b'[' ∷ []) ++ b']' ∷ []

    pub json_encode_elements : Cells → Bool → Bytes → Bytes
    json_encode_elements no_cells first out = out
    json_encode_elements (cell c cs) first out =
        json_encode_elements cs false (json_encode_cell c (separated first out))

    pub json_encode_fields : Value → Bytes → Bytes
    json_encode_fields (value s slots) out =
        json_encode_slots slots (schema_fields s) true (out ++ b'{' ∷ []) ++ b'}' ∷ []

    -- The loop of `json_encode_fields`; an absent field is left out.
    pub json_encode_slots : Slots → Fields → Bool → Bytes → Bytes
    json_encode_slots (absent slots) (field n t r fs) first out =
        json_encode_slots slots fs first out
    json_encode_slots (present c slots) (field n t r fs) first out =
        json_encode_slots slots fs false
          (json_encode_cell c (json_quote n (separated first out) ++ b':' ∷ []))
    json_encode_slots slots fs first out = out
