-- ===== src/Json/Formed.antt =====
-- src/detail/json.cpp: the loops over items and members keep what the parser promises of its trees.
use zen.Prelude.{Bool, Bool-cases, arith, bytes_eq, bytes_eq→eq, false, inl, inr, length, not}
use zen.Prelude.{refl, suc, zero, ℕ, ◌+◌, ◌<◌, ◌==◌, ◌≡◌, ◌≤◌}
use zen.Binary.{Bytes}
use zen.Json.{JsonItems, JsonMembers, JsonValue, Parsed, advance, array_node, bool_node}
use zen.Json.{is_member, item, member, no_items, no_members, null_node, number_node, object_node}
use zen.Json.{peek, push_item, push_member, skip_ws, string_node}
use zen.Json.Parse.{array_loop, object_loop, parse_array, parse_object}
use zen.Json.Yields.{Yields, Yields-then_parse, Yields-if, Yields-within, advance-length}
use zen.Json.Yields.{advance_past, fails, gives, parse_string-Yields, skip_ws-length}

-- A tree within a nesting limit, no object of which has a key twice.
abbrev pub HasUniqueKeys : JsonMembers → Type 0
HasUniqueKeys no_members = Unit
HasUniqueKeys (member key node members) = (is_member members key ≡ false) × HasUniqueKeys members

mutual
  pub data IsFormed : ℕ → JsonValue → Type 0 where
    null_formed : {room : ℕ} → IsFormed room null_node
    bool_formed : {room : ℕ} {b : Bool} → IsFormed room (bool_node b)
    number_formed : {room : ℕ} {s : Bytes} → IsFormed room (number_node s)
    string_formed : {room : ℕ} {s : Bytes} → IsFormed room (string_node s)
    array_formed :
        {room : ℕ} {items : JsonItems}
        → AreItemsFormed room items
        → IsFormed (suc room) (array_node items)
    object_formed :
        {room : ℕ} {members : JsonMembers}
        → HasUniqueKeys members
        → AreMembersFormed room members
        → IsFormed (suc room) (object_node members)

  pub data AreItemsFormed : ℕ → JsonItems → Type 0 where
    no_items_formed : {room : ℕ} → AreItemsFormed room no_items
    item_formed :
        {room : ℕ} {node : JsonValue} {items : JsonItems}
        → IsFormed room node
        → AreItemsFormed room items
        → AreItemsFormed room (item node items)

  pub data AreMembersFormed : ℕ → JsonMembers → Type 0 where
    no_members_formed : {room : ℕ} → AreMembersFormed room no_members
    member_formed :
        {room : ℕ} {key : Bytes} {node : JsonValue} {members : JsonMembers}
        → IsFormed room node
        → AreMembersFormed room members
        → AreMembersFormed room (member key node members)

push_item-AreItemsFormed :
    {room : ℕ} {items : JsonItems} {node : JsonValue}
    → AreItemsFormed room items
    → IsFormed room node
    → AreItemsFormed room (push_item items node)
unfolding push_item
push_item-AreItemsFormed no_items_formed h = item_formed h no_items_formed
push_item-AreItemsFormed (item_formed f fs) h = item_formed f (push_item-AreItemsFormed fs h)

push_member-AreMembersFormed :
    {room : ℕ} {members : JsonMembers} (key : Bytes) {node : JsonValue}
    → AreMembersFormed room members
    → IsFormed room node
    → AreMembersFormed room (push_member members key node)
unfolding push_member
push_member-AreMembersFormed key no_members_formed h = member_formed h no_members_formed
push_member-AreMembersFormed key (member_formed f fs) h =
    member_formed f (push_member-AreMembersFormed key fs h)

bytes_eq_apart : (a b : Bytes) → bytes_eq a b ≡ false → bytes_eq b a ≡ false
bytes_eq_apart a b h = elim (Bool-cases (bytes_eq b a)) [
  | inl same ↦ cc (bytes_eq→eq b a same)
  | inr apart ↦ apart
]

is_member-push_member :
    (members : JsonMembers) (key k : Bytes) (node : JsonValue)
    → is_member members k ≡ false
    → bytes_eq key k ≡ false
    → is_member (push_member members key node) k ≡ false
unfolding is_member push_member
is_member-push_member no_members key k node h apart = rw apart refl
is_member-push_member (member name first members) key k node h apart =
    elim (Bool-cases (bytes_eq name k)) [
      | inl same ↦ cc (rw same at h)
      | inr other ↦ rw other (is_member-push_member members key k node (rw other at h) apart)
    ]

push_member-HasUniqueKeys :
    (members : JsonMembers) (key : Bytes) (node : JsonValue)
    → HasUniqueKeys members
    → is_member members key ≡ false
    → HasUniqueKeys (push_member members key node)
unfolding push_member is_member
push_member-HasUniqueKeys no_members key node unique fresh = (refl, tt)
push_member-HasUniqueKeys (member name first members) key node unique fresh =
    elim (Bool-cases (bytes_eq name key)) [
      | inl same ↦ cc (rw same at fresh)
      | inr other ↦ (
        is_member-push_member members key name node unique.0 (bytes_eq_apart name key other),
        push_member-HasUniqueKeys members key node unique.1 (rw other at fresh),
      )
    ]

-- A parser of a deeper level, and the loops over it.
abbrev pub Descends : ℕ → (Bytes → Parsed JsonValue) → Type 0
Descends room parse = (r : Bytes) → Yields (IsFormed room) (length r) (parse r)

array_loop-Yields :
    (room : ℕ) (parse : Bytes → Parsed JsonValue) (fuel : ℕ) (items : JsonItems) (r : Bytes)
    → Descends room parse
    → AreItemsFormed room items
    → length r < fuel
    → Yields (IsFormed (suc room)) (length r) (array_loop parse fuel items r)
unfolding array_loop
array_loop-Yields room parse zero items r down formed h = absurd (omega arith)
array_loop-Yields room parse (suc fuel) items r down formed h =
    Yields-then_parse (down r) λ node r₁ node_formed short.
      let r₂ = skip_ws r₁ in
      let formed' = push_item-AreItemsFormed formed node_formed in
      Yields-if (peek r₂ == b',')
        (λ e. Yields-within (omega (arith, short, skip_ws-length r₁, advance-length r₂)) (
          array_loop-Yields room parse fuel (push_item items node) (advance r₂) down formed'
            (omega (arith, short, skip_ws-length r₁, advance_past r₂ 43 e))))
        (λ e.
          Yields-if (peek r₂ == b']')
            (λ e'.
              gives (array_formed formed')
                (omega (arith, short, skip_ws-length r₁, advance-length r₂)))
            (λ e'. fails))

pub parse_array-Yields :
    (room : ℕ) (parse : Bytes → Parsed JsonValue) (r : Bytes)
    → Descends room parse
    → Yields (IsFormed (suc room)) (length r) (parse_array parse r)
unfolding parse_array
parse_array-Yields room parse r down =
    let r₁ = skip_ws (advance r) in
    Yields-if (peek r₁ == b']')
      (λ e.
        gives (array_formed no_items_formed)
          (omega (arith, advance-length r, skip_ws-length (advance r), advance-length r₁)))
      (λ e. Yields-within (omega (arith, advance-length r, skip_ws-length (advance r))) (
        array_loop-Yields room parse (length r₁ + 1) no_items r₁ down no_items_formed
          (omega arith)))

object_loop-Yields :
    (room : ℕ) (parse : Bytes → Parsed JsonValue) (fuel : ℕ) (members : JsonMembers) (r : Bytes)
    → Descends room parse
    → HasUniqueKeys members
    → AreMembersFormed room members
    → length r < fuel
    → Yields (IsFormed (suc room)) (length r) (object_loop parse fuel members r)
unfolding object_loop
object_loop-Yields room parse zero seen r down unique formed h = absurd (omega arith)
object_loop-Yields room parse (suc fuel) seen r down unique formed h =
    let r₁ = skip_ws r in
    Yields-if (not (peek r₁ == b'"')) (λ e. fails)
      λ e. Yields-then_parse (parse_string-Yields r₁) λ key r₂ p short₂.
        let r₃ = skip_ws r₂ in
        Yields-if (is_member seen key) (λ e'. fails)
          λ fresh.
            Yields-if (not (peek r₃ == b':')) (λ e'. fails)
              λ e'. Yields-then_parse (down (advance r₃)) λ node r₄ node_formed short₄.
                let r₅ = skip_ws r₄ in
                let unique' = push_member-HasUniqueKeys seen key node unique fresh in
                let formed' = push_member-AreMembersFormed key formed node_formed in
                let left : length r₅ ≤ length r = omega (
                  arith,
                  skip_ws-length r,
                  short₂,
                  skip_ws-length r₂,
                  advance-length r₃,
                  short₄,
                  skip_ws-length r₄,
                ) in
                Yields-if (peek r₅ == b',')
                  (λ e''. Yields-within (omega (arith, left, advance-length r₅)) (
                    object_loop-Yields room parse fuel (push_member seen key node) (advance r₅) down
                      unique' formed' (omega (arith, left, advance_past r₅ 43 e''))))
                  (λ e''.
                    Yields-if (peek r₅ == b'}')
                      (λ e3.
                        gives (object_formed unique' formed')
                          (omega (arith, left, advance-length r₅)))
                      (λ e3. fails))

pub parse_object-Yields :
    (room : ℕ) (parse : Bytes → Parsed JsonValue) (r : Bytes)
    → Descends room parse
    → Yields (IsFormed (suc room)) (length r) (parse_object parse r)
unfolding parse_object
parse_object-Yields room parse r down =
    let r₁ = skip_ws (advance r) in
    Yields-if (peek r₁ == b'}')
      (λ e.
        gives (object_formed tt no_members_formed)
          (omega (arith, advance-length r, skip_ws-length (advance r), advance-length r₁)))
      (λ e. Yields-within (omega (arith, advance-length r, skip_ws-length (advance r))) (
        object_loop-Yields room parse (length r₁ + 1) no_members r₁ down tt no_members_formed
          (omega arith)))
