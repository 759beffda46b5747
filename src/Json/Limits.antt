-- ===== src/Json/Limits.antt =====
-- src/detail/json.cpp: a document is parsed or refused, and its tree keeps the limits.
use zen.Prelude.{[], arith, codes, if◌then◌else◌, length, ltb, refl, subst, suc, zero, ℕ, ◌+◌}
use zen.Prelude.{◌==◌, ◌∷◌, ◌≡◌, ◌≢◌, ◌≤◌}
use zen.Binary.{Bytes}
use zen.Json.{JsonValue, Parsed, advance, no_fuel, parsed, peek, skip_ws}
use zen.Json.Number.{parse_bool, parse_null, parse_number}
use zen.Json.Parse.{Start, at_end, enter, parse_array, parse_behind_space, parse_branch}
use zen.Json.Parse.{parse_json, parse_object, parse_value, start_of, starts_array, starts_bool}
use zen.Json.Parse.{starts_nothing, starts_null, starts_number, starts_object, starts_string}
use zen.Json.Yields.{Yields, Yields-then_parse, Yields-if, Yields-within, exponent_part-Yields}
use zen.Json.Yields.{fails, fraction_part-Yields, fuelled, given, gives, integer_part-Yields}
use zen.Json.Yields.{match_literal-Yields, parse_string-Yields, sign-length, skip_ws-length}
use zen.Json.Formed.{Descends, IsFormed, bool_formed, null_formed, number_formed}
use zen.Json.Formed.{parse_array-Yields, parse_object-Yields, string_formed}

parse_bool-Yields : (room : ℕ) (r : Bytes) → Yields (IsFormed room) (length r) (parse_bool r)
unfolding parse_bool
parse_bool-Yields room r =
    Yields-if (peek r == b't')
      (λ e.
        Yields-then_parse (match_literal-Yields (codes "true") r)
          λ u r' p short. gives bool_formed short)
      (λ e.
        Yields-then_parse (match_literal-Yields (codes "false") r)
          λ u r' p short. gives bool_formed short)

parse_null-Yields : (room : ℕ) (r : Bytes) → Yields (IsFormed room) (length r) (parse_null r)
unfolding parse_null
parse_null-Yields room r =
    Yields-then_parse (match_literal-Yields (codes "null") r)
      λ u r' p short. gives null_formed short

parse_number-Yields : (room : ℕ) (r : Bytes) → Yields (IsFormed room) (length r) (parse_number r)
unfolding parse_number
parse_number-Yields room r =
    let r' = if peek r == b'-' then advance r else r in
    Yields-then_parse (integer_part-Yields r') λ u r₁ p₁ short₁.
      Yields-then_parse (fraction_part-Yields r₁) λ u' r₂ p₂ short₂.
        Yields-then_parse (exponent_part-Yields r₂) λ u'' r₃ p₃ short₃.
          gives number_formed
            (omega (arith, sign-length (peek r == b'-') r, short₁, short₂, short₃))

-- The two branches that descend are within the limit.
branch_inside :
    (room max_depth depth : ℕ) (parse : Bytes → Parsed JsonValue) (inside : Parsed JsonValue)
    (r : Bytes)
    → room + depth ≡ max_depth
    → ((room' : ℕ) → room ≡ suc room' → Descends room' parse)
    → ((room' : ℕ) → Descends room' parse → Yields (IsFormed (suc room')) (length r) inside)
    → Yields (IsFormed room) (length r) (enter max_depth depth inside)
unfolding enter
branch_inside zero max_depth depth parse inside r e down h =
    Yields-if (ltb max_depth (depth + 1)) (λ deep. fails) (λ fits. absurd (ground (arith, e, fits)))
branch_inside (suc room) max_depth depth parse inside r e down h =
    Yields-if (ltb max_depth (depth + 1)) (λ deep. fails) (λ fits. h room (down room refl))

parse_branch-Yields :
    (room max_depth depth : ℕ) (parse : Bytes → Parsed JsonValue) (s : Start) (r : Bytes)
    → room + depth ≡ max_depth
    → ((room' : ℕ) → room ≡ suc room' → Descends room' parse)
    → Yields (IsFormed room) (length r) (parse_branch parse max_depth depth s r)
unfolding parse_branch
parse_branch-Yields room max_depth depth parse starts_object r e down =
    branch_inside room max_depth depth parse (parse_object parse r) r e down
      (λ room' d. parse_object-Yields room' parse r d)
parse_branch-Yields room max_depth depth parse starts_array r e down =
    branch_inside room max_depth depth parse (parse_array parse r) r e down
      (λ room' d. parse_array-Yields room' parse r d)
parse_branch-Yields room max_depth depth parse starts_string r e down =
    Yields-then_parse (parse_string-Yields r) λ s r' p short. gives string_formed short
parse_branch-Yields room max_depth depth parse starts_bool r e down = parse_bool-Yields room r
parse_branch-Yields room max_depth depth parse starts_null r e down = parse_null-Yields room r
parse_branch-Yields room max_depth depth parse starts_number r e down = parse_number-Yields room r
parse_branch-Yields room max_depth depth parse starts_nothing r e down = fails

behind_space-Yields :
    (room max_depth depth : ℕ) (parse : Bytes → Parsed JsonValue) (r : Bytes)
    → room + depth ≡ max_depth
    → ((room' : ℕ) → room ≡ suc room' → Descends room' parse)
    → Yields (IsFormed room) (length r) (parse_behind_space parse max_depth depth r)
unfolding parse_behind_space
behind_space-Yields room max_depth depth parse [] e down = fails
behind_space-Yields room max_depth depth parse (c ∷ r) e down =
    parse_branch-Yields room max_depth depth parse (start_of c) (c ∷ r) e down

parse_value-Yields :
    (room max_depth depth : ℕ) (r : Bytes)
    → room + depth ≡ max_depth
    → Yields (IsFormed room) (length r) (parse_value (suc room) max_depth depth r)
unfolding parse_value
parse_value-Yields zero max_depth depth r e = Yields-within (skip_ws-length r) (
    behind_space-Yields zero max_depth depth (λ s. no_fuel) (skip_ws r) e
      (λ room' z. absurd (omega (arith, z))))
parse_value-Yields (suc room) max_depth depth r e = Yields-within (skip_ws-length r) (
    behind_space-Yields (suc room) max_depth depth (parse_value (suc room) max_depth (depth + 1))
      (skip_ws r) e
      (λ room' z.
        subst (λ (k : ℕ). Descends k (parse_value (suc room) max_depth (depth + 1)))
          (omega (arith, z))
          (λ s. parse_value-Yields room max_depth (depth + 1) s (omega (arith, e)))))

at_end-Yields :
    (room n : ℕ) (node : JsonValue) (r : Bytes)
    → IsFormed room node
    → length r ≤ n
    → Yields (IsFormed room) n (at_end node r)
at_end-Yields room n node [] h short = gives h short
at_end-Yields room n node (c ∷ r) h short = fails

document-Yields :
    (input : Bytes) (max_depth : ℕ)
    → Yields (IsFormed max_depth) (length input) (parse_json input max_depth)
unfolding parse_json
document-Yields input max_depth =
    Yields-then_parse (parse_value-Yields max_depth max_depth 0 (skip_ws input) (omega arith))
      λ node r formed short.
        at_end-Yields max_depth (length input) node (skip_ws r) formed
          (omega (arith, skip_ws-length r, short, skip_ws-length input))

-- The model's fuel is enough: on every input and for every limit the parser ends, with a tree or
-- with a message.
pub parse_json-terminates : (input : Bytes) (max_depth : ℕ) → parse_json input max_depth ≢ no_fuel
parse_json-terminates input max_depth = fuelled (document-Yields input max_depth)

-- A tree that the parser gives is nested no deeper than the limit, and none of its objects has two
-- members of one key.
pub parse_json-IsFormed :
    (input : Bytes) (max_depth : ℕ) {node : JsonValue} {r : Bytes}
    → parse_json input max_depth ≡ parsed node r
    → IsFormed max_depth node
parse_json-IsFormed input max_depth e = given (document-Yields input max_depth) e
