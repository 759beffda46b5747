-- ===== src/Json/Parse.antt =====
-- src/detail/json.cpp: values, objects and arrays, and whole documents.
use zen.Prelude.{[], codes, if◌then◌else◌, length, ltb, not, suc, zero, ℕ, ◌+◌, ◌==◌, ◌||◌, ◌∷◌}
use zen.Binary.{Bytes}
use zen.Json.{JsonItems, JsonMembers, JsonValue, Parsed, advance, array_node, failed, is_member}
use zen.Json.{no_fuel, no_items, no_members, object_node, parsed, peek, push_item, push_member}
use zen.Json.{skip_ws, string_node, then_parse}
use zen.Json.Text.{parse_string}
use zen.Json.Number.{is_digit, parse_bool, parse_null, parse_number}

-- The switch of `parse_value` on the first character.
pub data Start : Type 0 where
  starts_object starts_array starts_string starts_bool starts_null starts_number starts_nothing :
      Start

unfoldable pub start_of : ℕ → Start
unfolding is_digit
start_of c =
    if c == b'{'
    then starts_object
    else if c == b'['
    then starts_array
    else if c == b'"'
    then starts_string
    else if c == b't' || c == b'f'
    then starts_bool
    else if c == b'n'
    then starts_null
    else if c == b'-' || is_digit c
    then starts_number
    else starts_nothing

-- `enter`: a nesting beyond the limit is refused before it is descended into.
unfoldable pub enter : ℕ → ℕ → Parsed JsonValue → Parsed JsonValue
enter max_depth depth inside =
    if ltb max_depth (depth + 1) then failed (codes "maximum nesting depth exceeded") else inside

-- The loop of `parse_array`, on fuel, given the parser of an element.
unfoldable pub array_loop : (Bytes → Parsed JsonValue) → ℕ → JsonItems → Bytes → Parsed JsonValue
unfolding skip_ws push_item
array_loop parse zero items r = no_fuel
array_loop parse (suc fuel) items r = then_parse (parse r) λ node r₁.
    let r₂ = skip_ws r₁ in
    let items' = push_item items node in
    let rest = array_loop parse fuel items' (advance r₂) in
    if peek r₂ == b','
    then rest
    else if peek r₂ == b']'
    then parsed (array_node items') (advance r₂)
    else failed (codes "expected ',' or ']' in array")

-- What stands behind the opening bracket.
unfoldable pub parse_array : (Bytes → Parsed JsonValue) → Bytes → Parsed JsonValue
unfolding array_loop skip_ws
parse_array parse r =
    let r₁ = skip_ws (advance r) in
    if peek r₁ == b']'
    then parsed (array_node no_items) (advance r₁)
    else array_loop parse (length r₁ + 1) no_items r₁

-- The loop of `parse_object`, likewise: the key, the colon, the value and what separates.
unfoldable pub object_loop : (Bytes → Parsed JsonValue) → ℕ → JsonMembers → Bytes → Parsed JsonValue
unfolding skip_ws push_member parse_string is_member
object_loop parse zero seen r = no_fuel
object_loop parse (suc fuel) seen r =
    let r₁ = skip_ws r in
    if not (peek r₁ == b'"')
    then failed (codes "expected string key in object")
    else then_parse (parse_string r₁) (λ key r₂.
      let r₃ = skip_ws r₂ in
      if is_member seen key
      then failed (codes "duplicate object key")
      else if not (peek r₃ == b':')
      then failed (codes "expected ':' in object")
      else then_parse (parse (advance r₃)) (λ node r₄.
        let r₅ = skip_ws r₄ in
        let seen' = push_member seen key node in
        let rest = object_loop parse fuel seen' (advance r₅) in
        if peek r₅ == b','
        then rest
        else if peek r₅ == b'}'
        then parsed (object_node seen') (advance r₅)
        else failed (codes "expected ',' or '}' in object")))

unfoldable pub parse_object : (Bytes → Parsed JsonValue) → Bytes → Parsed JsonValue
unfolding object_loop skip_ws
parse_object parse r =
    let r₁ = skip_ws (advance r) in
    if peek r₁ == b'}'
    then parsed (object_node no_members) (advance r₁)
    else object_loop parse (length r₁ + 1) no_members r₁

-- The branches of `parse_value`, given the parser of the next level.
unfoldable pub parse_branch : (Bytes → Parsed JsonValue) → ℕ → ℕ → Start → Bytes → Parsed JsonValue
unfolding enter parse_array parse_object parse_string parse_bool parse_null parse_number
parse_branch parse max_depth depth starts_object r = enter max_depth depth (parse_object parse r)
parse_branch parse max_depth depth starts_array r = enter max_depth depth (parse_array parse r)
parse_branch parse max_depth depth starts_string r =
    then_parse (parse_string r) λ s r'. parsed (string_node s) r'
parse_branch parse max_depth depth starts_bool r = parse_bool r
parse_branch parse max_depth depth starts_null r = parse_null r
parse_branch parse max_depth depth starts_number r = parse_number r
parse_branch parse max_depth depth starts_nothing r = failed (codes "unexpected character")

unfoldable pub parse_behind_space : (Bytes → Parsed JsonValue) → ℕ → ℕ → Bytes → Parsed JsonValue
unfolding parse_branch start_of
parse_behind_space parse max_depth depth [] = failed (codes "unexpected end of input")
parse_behind_space parse max_depth depth (c ∷ r) =
    parse_branch parse max_depth depth (start_of c) (c ∷ r)

-- `parse_value`, on fuel for the levels below this one.
unfoldable pub parse_value : ℕ → ℕ → ℕ → Bytes → Parsed JsonValue
unfolding parse_behind_space skip_ws
parse_value zero max_depth depth r = no_fuel
parse_value (suc levels) max_depth depth r =
    parse_behind_space (parse_value levels max_depth (depth + 1)) max_depth depth (skip_ws r)

abbrev pub at_end : JsonValue → Bytes → Parsed JsonValue
at_end node [] = parsed node []
at_end node (c ∷ r) = failed (codes "trailing characters after JSON value")

-- `Parser::run` and `parse_json`: one value with nothing behind it but space.
unfoldable pub parse_json : Bytes → ℕ → Parsed JsonValue
unfolding parse_value skip_ws
parse_json input max_depth =
    then_parse (parse_value (suc max_depth) max_depth 0 (skip_ws input))
      λ node r. at_end node (skip_ws r)
