-- ===== src/Compat/Envelope.antt =====
-- src/serialize.cpp: the JSON envelope and its gate.
use zen.Prelude.{Bool, Option, [], bytes_eq, codes, false, if◌then◌else◌, none, not, some, ℕ}
use zen.Prelude.{◌++◌, ◌==◌, ◌||◌, ◌∷◌}
use zen.Prelude.Int.{negsuc, pos, ℤ}
use zen.Binary.{Bytes}
use zen.Failure.{Throws, invalid_argument, ok, throw, to_string, ◌>>=◌}
use zen.Schema.{Schema, content_id, schema_name, schema_version, version_label}
use zen.Value.{Value, value_schema}
use zen.Gate.{Admission, Error, Report, is_full, malformed_bytes, reject, schema_mismatch}
use zen.Json.{JsonMembers, JsonValue, failed, find_member, member, no_fuel, no_members}
use zen.Json.{number_node, object_node, parsed, string_node}
use zen.Json.Text.{json_quote}
use zen.Json.Parse.{parse_json}
use zen.Serialize.Envelope.{claim_label, finish, format_content_id}
use zen.Compat.Numbers.{json_parse_content_id, json_parse_int64, json_parse_u32}
use zen.Compat.Encode.{json_encode_fields}
use zen.Compat.Decode.{json_object}

abbrev json_envelope_version : ℕ
json_envelope_version = 1

-- `compat::serialize`.
unfoldable pub compat_serialize : (ℕ → Bytes) → Value → Bytes
unfolding json_quote json_encode_fields to_string format_content_id
compat_serialize to_chars v =
    let s = value_schema v in
    let named =
      json_quote (schema_name s)
        ((codes "{\"zen\":" ++ to_string json_envelope_version) ++ codes ",\"schema\":") in
    let versioned = (named ++ codes ",\"version\":") ++ to_string (schema_version s) in
    let identified =
      json_quote (format_content_id (content_id s)) (versioned ++ codes ",\"content_id\":") in
    json_encode_fields to_chars v (identified ++ codes ",\"fields\":") ++ b'}' ∷ []

-- `Unverified` after `compat::parse`: an envelope error, or the claim, whose content id is optional
-- in this format, and the members of the fields.
pub data JsonUnverified : Type 0 where
  json_malformed : Error → JsonUnverified
  json_claim : Bytes → ℕ → Option ℕ → JsonMembers → JsonUnverified

unfoldable pub malformed_json : Bytes → JsonUnverified
malformed_json why =
    json_malformed
      (record { kind = malformed_bytes; path = []; expected = []; actual = []; detail = why })

-- A member of a type, or the reason why there is none.
abbrev pub need_number : Option JsonValue → Bytes → (Bytes → JsonUnverified) → JsonUnverified
need_number (some (number_node s)) why next = next s
need_number _ why next = malformed_json why

abbrev pub need_string : Option JsonValue → Bytes → (Bytes → JsonUnverified) → JsonUnverified
need_string (some (string_node s)) why next = next s
need_string _ why next = malformed_json why

abbrev pub need_object : Option JsonValue → Bytes → (JsonMembers → JsonUnverified) → JsonUnverified
need_object (some (object_node ms)) why next = next ms
need_object _ why next = malformed_json why

unfoldable pub is_known : Bytes → Bool
is_known k =
    bytes_eq k (codes "zen")
    || bytes_eq k (codes "schema")
    || bytes_eq k (codes "version")
    || bytes_eq k (codes "content_id")
    || bytes_eq k (codes "fields")

-- The first member outside the known set.
unfoldable pub unknown_member : JsonMembers → Option Bytes
unfolding is_known
unknown_member no_members = none
unknown_member (member k node ms) = if not (is_known k) then some k else unknown_member ms

abbrev is_envelope_version : Option ℤ → Bool
is_envelope_version none = false
is_envelope_version (some (pos n)) = n == json_envelope_version
is_envelope_version (some (negsuc n)) = false

-- The optional content id, at the end of `parse`.
abbrev pub parse_content_id : Option JsonValue → Bytes → ℕ → JsonMembers → JsonUnverified
parse_content_id none name version ms = json_claim name version none ms
parse_content_id (some node) name version ms =
    need_string (some node) (codes "'content_id' is not a hex string") λ s.
      elim (json_parse_content_id s) [
        | none ↦ malformed_json (codes "'content_id' is not a hex string")
        | some cid ↦ json_claim name version (some cid) ms
      ]

-- The members of the root, one after the other.
unfoldable pub parse_members : JsonMembers → JsonUnverified
unfolding malformed_json find_member json_parse_int64 json_parse_u32 json_parse_content_id
parse_members root =
    need_number (find_member root (codes "zen"))
      (codes "missing or non-numeric 'zen' envelope version")
      λ ev.
        if not (is_envelope_version (json_parse_int64 ev))
        then malformed_json (codes "unsupported envelope version")
        else need_string (find_member root (codes "schema"))
            (codes "missing or non-string 'schema'")
            (λ name.
              need_number (find_member root (codes "version"))
                (codes "missing or non-numeric 'version'")
                λ digits. elim (json_parse_u32 digits) [
                  | none ↦ malformed_json (codes "'version' is not a 32-bit unsigned integer")
                  | some version ↦
                      need_object (find_member root (codes "fields"))
                        (codes "missing or non-object 'fields'")
                        λ ms.
                          parse_content_id (find_member root (codes "content_id")) name version ms
                ])

unfoldable pub parse_root : JsonValue → JsonUnverified
unfolding parse_members unknown_member malformed_json
parse_root (object_node root) = elim (unknown_member root) [
  | some k ↦ malformed_json (codes "unknown envelope member '" ++ (k ++ codes "'"))
  | none ↦ parse_members root
]
parse_root node = malformed_json (codes "top-level value is not an object")

-- `compat::parse`, with the default nesting limit. The parser does not run out of its fuel.
unfoldable pub compat_parse : Bytes → JsonUnverified
unfolding parse_json parse_root malformed_json
compat_parse input = elim (parse_json input 64) [
  | parsed root r ↦ parse_root root
  | failed why ↦ malformed_json (codes "not valid JSON: " ++ why)
  | no_fuel ↦ malformed_json (codes "not valid JSON: ")
]

abbrev pub other_shape : Option ℕ → ℕ → Bool
other_shape none cid = false
other_shape (some claimed) cid = not (claimed == cid)

abbrev claimed_id : Option ℕ → ℕ
claimed_id none = 0
claimed_id (some claimed) = claimed

-- `admit_against` for a JSON body, given `std::from_chars` of a double.
unfoldable pub admit_json_against :
    (Bytes → Option ℕ)
    → Bytes
    → ℕ
    → Option ℕ
    → JsonMembers
    → Schema
    → Bool
    → ℕ
    → Throws (Admission × ℕ)
unfolding finish format_content_id claim_label json_object
admit_json_against from_chars name version cid ms door collect_all runs =
    if not (bytes_eq name (schema_name door)) || not (version == schema_version door)
    then ok (
      reject (
          record {
            kind = schema_mismatch;
            path = [];
            expected = version_label door;
            actual = claim_label name version;
            detail = codes "the bytes claim a different schema than this door";
          }
          ∷ []),
      runs,
    )
    else if other_shape cid (content_id door)
    then ok (
      reject (
          record {
            kind = schema_mismatch;
            path = [];
            expected = format_content_id (content_id door);
            actual = format_content_id (claimed_id cid);
            detail =
                codes "the bytes were written against a different shape of this name and version";
          }
          ∷ []),
      runs,
    )
    else json_object from_chars collect_all door ms [] [] >>= λ read.
        ok (finish (read.0) (read.1) door collect_all runs)

-- `admit(const Unverified&, door, report)` for what `compat::parse` gave.
unfoldable pub admit_json :
    (Bytes → Option ℕ) → JsonUnverified → Option Schema → Report → ℕ → Throws (Admission × ℕ)
unfolding admit_json_against is_full
admit_json from_chars u none report runs =
    throw (invalid_argument (codes "admit(Unverified, door): door must be non-null"))
admit_json from_chars (json_malformed e) (some door) report runs = ok (reject (e ∷ []), runs)
admit_json from_chars (json_claim name version cid ms) (some door) report runs =
    admit_json_against from_chars name version cid ms door (is_full report) runs
