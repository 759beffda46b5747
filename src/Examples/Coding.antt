-- ===== src/Examples/Coding.antt =====
-- Runs of the codecs: whole native messages, base64, JSON documents and the JSON gate.
use zen.Prelude.{Option, [], arith, bytes_eq, codes, none, refl, some, true, ℕ, ◌++◌, ◌∷◌, ◌≡◌}
use zen.Prelude.{◌≢◌}
use zen.Binary.{Bytes}
use zen.Failure.{ok}
use zen.Schema.{find_field, kind_of, ◌==ₖ◌}
use zen.Value.{cell_kind, get_field, make_value}
use zen.Gate.{Admission, accept, admit, first_only, full, validate_fields, validate_into}
use zen.Gate.{validate_primitive, validate_slot}
use zen.Gate.Verdict.{IsInstance}
use zen.Utf8.{utf8_loop, valid_utf8}
use zen.Base64.{base64_decode, base64_encode}
use zen.Base64.Strict.{base64_decode_iff}
use zen.Json.{JsonMembers, JsonValue, array_node, bool_node, find_member, is_member, is_space}
use zen.Json.{item, member, no_fuel, no_items, no_members, null_node, number_node, object_node}
use zen.Json.{parsed, string_node}
use zen.Json.Text.{json_quote, parse_string}
use zen.Json.Quote.{parse_string-json_quote}
use zen.Json.Parse.{parse_json}
use zen.Json.Formed.{IsFormed}
use zen.Json.Limits.{parse_json-IsFormed, parse_json-terminates}
use zen.Serialize.Encode.{encode_body}
use zen.Serialize.Decode.{decode_body, done}
use zen.Serialize.Envelope.{admit_bytes, parse, serialize}
use zen.Serialize.Wire.{ValueFits, absent_fits, no_slots_fit, present_fits, text_fits, value_fits}
use zen.Serialize.Whole.{IsHeaded, admit_bytes-serialize, decode_body-encode_body}
use zen.Serialize.Total.{admit_bytes-parse}
use zen.Compat.Decode.{check_members, json_field, json_primitive, stop_decoding}
use zen.Compat.Envelope.{JsonUnverified, admit_json, json_claim}
use zen.Compat.Trust.{admit_json-IsInstance}
use zen.Compat.Strict.{admit_json_strict}
use zen.Examples.Wire.{small_octets}
use zen.Examples.Gating.{ada, player-IsDistinct, player_schema}

ada_utf8 : valid_utf8 (codes "Ada") ≡ true
unfolding valid_utf8 utf8_loop
ada_utf8 = refl

ada-ValueFits : ValueFits 0 player_schema ada
ada-ValueFits = value_fits (omega arith) player-IsDistinct (
    present_fits (text_fits (omega arith) (omega arith, small_octets (codes "Ada") refl) ada_utf8)
      (absent_fits no_slots_fit))

player-IsHeaded : IsHeaded player_schema
player-IsHeaded = record {
  short_name = omega arith;
  utf8_name = unfold valid_utf8 utf8_loop in refl;
  name_octets = small_octets (codes "Player") refl;
  version_width = omega arith;
  id_width = omega arith;
}

decode_body-encode_body_example :
    (out : Bytes) × (encode_body ada [] ≡ ok out)
    × (decode_body player_schema 0 [] (out ++ 7 ∷ []) ≡ done ada (7 ∷ []))
decode_body-encode_body_example =
    decode_body-encode_body 0 player_schema ada [] (7 ∷ []) ada-ValueFits
      (small_octets (7 ∷ []) refl)

admit_bytes-serialize_example :
    (out : Bytes) × (serialize ada ≡ ok out)
    × (admit_bytes (parse out) (some player_schema) full 0 ≡ ok (admit ada player_schema full 0))
admit_bytes-serialize_example =
    admit_bytes-serialize player_schema ada full 0 player-IsHeaded ada-ValueFits

two_written : codes "/wA=" ≡ base64_encode (0xFF ∷ 0x00 ∷ [])
unfolding base64_encode
two_written = refl

base64_decode_iff_example : base64_decode (codes "/wA=") ≡ some (0xFF ∷ 0x00 ∷ [])
base64_decode_iff_example =
    (base64_decode_iff (codes "/wA=") (0xFF ∷ 0x00 ∷ []) (small_octets (codes "/wA=") refl)).1
      (small_octets (0xFF ∷ 0x00 ∷ []) refl, two_written)

-- A quote, a control character and an octet that is no UTF-8.
abbrev awkward : Bytes
awkward = b'"' ∷ 0x01 ∷ 0xFF ∷ []

parse_string-json_quote_example :
    parse_string (json_quote awkward [] ++ b',' ∷ []) ≡ parsed awkward (b',' ∷ [])
parse_string-json_quote_example = parse_string-json_quote awkward (b',' ∷ [])

parse_json-terminates_example : parse_json (codes "[[1]]") 1 ≢ no_fuel
parse_json-terminates_example = parse_json-terminates (codes "[[1]]") 1

abbrev pair_text : Bytes
pair_text = codes "{\"a\":[true],\"b\":-1.5e3}"

abbrev pair_tree : JsonValue
pair_tree = object_node (
    member (codes "a") (array_node (item (bool_node true) no_items))
      (member (codes "b") (number_node (codes "-1.5e3")) no_members))

pair_parsed : parse_json pair_text 2 ≡ parsed pair_tree []
unfolding parse_json is_space bytes_eq
pair_parsed = refl

parse_json-IsFormed_example : IsFormed 2 pair_tree
parse_json-IsFormed_example = parse_json-IsFormed pair_text 2 pair_parsed

-- No doubles are read in what follows.
abbrev no_doubles : Bytes → Option ℕ
no_doubles s = none

abbrev ada_members : JsonMembers
ada_members = member (codes "name") (string_node (codes "Ada")) no_members

abbrev ada_claim : JsonUnverified
ada_claim = json_claim (codes "Player") 1 (some 4242) ada_members

ada_accepted :
    admit_json no_doubles ada_claim (some player_schema) first_only 0 ≡ ok (accept ada, 1)
unfolding admit_json bytes_eq stop_decoding check_members json_field find_member json_primitive
    make_value validate_into validate_fields validate_slot get_field validate_primitive ◌==ₖ◌
    cell_kind kind_of
ada_accepted = refl

admit_json-IsInstance_example : IsInstance ada player_schema
admit_json-IsInstance_example =
    admit_json-IsInstance no_doubles ada_claim player_schema first_only 0 ada_accepted

abbrev extra_members : JsonMembers
extra_members = member (codes "rank") null_node ada_members

admit_json_strict_example :
    admit_json no_doubles
      (json_claim (codes "Player") 1 none extra_members)
      (some player_schema)
      full
      0
    ≢ ok (accept ada, 1)
admit_json_strict_example =
    admit_json_strict no_doubles (codes "Player") 1 none extra_members player_schema full 0
      (codes "rank") (unfold is_member bytes_eq in refl) (unfold find_field bytes_eq in refl)

admit_bytes-parse_example :
    (judged : Admission × ℕ) × (admit_bytes
        (parse (codes "ZN, not quite"))
        (some player_schema)
        full
        0
      ≡ ok judged)
admit_bytes-parse_example = admit_bytes-parse (codes "ZN, not quite") player_schema full 0
