-- ===== src/Json.antt =====
-- src/detail/json.cpp: the reader of JSON documents and the quoting of strings. What is left of the
-- input stands for the position of the parser, and a failed parse for its message.
pub mod Text
pub mod Quote
pub mod Number
pub mod Parse
pub mod Yields
pub mod Formed
pub mod Limits
use zen.Prelude.{Bool, Option, [], bytes_eq, false, if◌then◌else◌, none, some, ℕ, ◌==◌, ◌||◌, ◌∷◌}
use zen.Binary.{Bytes}

-- A parsed node: the tag and the member it uses.
mutual
  pub data JsonValue : Type 0 where
    null_node : JsonValue
    bool_node : Bool → JsonValue
    number_node : Bytes → JsonValue
    string_node : Bytes → JsonValue
    array_node : JsonItems → JsonValue
    object_node : JsonMembers → JsonValue

  pub data JsonItems : Type 0 where
    no_items : JsonItems
    item : JsonValue → JsonItems → JsonItems

  pub data JsonMembers : Type 0 where
    no_members : JsonMembers
    member : Bytes → JsonValue → JsonMembers → JsonMembers

-- `JsonValue::find`.
unfoldable pub find_member : JsonMembers → Bytes → Option JsonValue
find_member no_members key = none
find_member (member name node members) key =
    if bytes_eq name key then some node else find_member members key

-- The search for a member of the same key in the loop of `parse_object`.
unfoldable pub is_member : JsonMembers → Bytes → Bool
is_member no_members key = false
is_member (member name node members) key = bytes_eq name key || is_member members key

-- `out.items.push_back` and `out.members.emplace_back`.
unfoldable pub push_item : JsonItems → JsonValue → JsonItems
push_item no_items node = item node no_items
push_item (item first items) node = item first (push_item items node)

unfoldable pub push_member : JsonMembers → Bytes → JsonValue → JsonMembers
push_member no_members key node = member key node no_members
push_member (member name first members) key node = member name first (push_member members key node)

-- A parser's `true` with what it wrote and what is left, its `false` with `err_`, and the model's
-- own end of fuel.
pub data Parsed (A : Type 0) : Type 0 where
  parsed : A → Bytes → Parsed A
  failed : Bytes → Parsed A
  no_fuel : Parsed A

abbrev pub then_parse : {A B : Type 0} → Parsed A → (A → Bytes → Parsed B) → Parsed B
then_parse (parsed a r) next = next a r
then_parse (failed why) next = failed why
then_parse no_fuel next = no_fuel

abbrev pub peek : Bytes → ℕ
peek [] = 0
peek (c ∷ r) = c

-- `++i_`.
abbrev pub advance : Bytes → Bytes
advance [] = []
advance (c ∷ r) = r

unfoldable pub is_space : ℕ → Bool
is_space c = c == 0x20 || c == 0x09 || c == 0x0A || c == 0x0D

unfoldable pub skip_ws : Bytes → Bytes
skip_ws [] = []
skip_ws (c ∷ r) = if is_space c then skip_ws r else c ∷ r
