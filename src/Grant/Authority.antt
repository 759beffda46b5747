-- ===== src/Grant/Authority.antt =====
-- include/zen/switchboard/grant.hpp: what a grant permits.
-- A rule matches a send: its shape is any or the one sent, and its target is any or the one meant.
use zen.Prelude.{==_iff, Bool, Bool-cases, List, [], bytes_eq, bytes_eq_refl, bytes_eq→eq, false}
use zen.Prelude.{inl, inr, refl, sym, true, true-neq-false, ℕ, ◌&&◌, ◌||◌, ◌↔◌, ◌∙◌, ◌∷◌, ◌≡◌}
use zen.Prelude.{◌⊎◌}
use zen.Binary.{Bytes}
use zen.Grant.{Grant, SendRule, ShardId, permits, rule_permits, rules_permit}

abbrev pub Matches : SendRule → Bytes → ℕ → ShardId → Type 0
Matches r name version to =
    ((r.any_shape ≡ true) ⊎ ((r.shape_name ≡ name) × (r.shape_version ≡ version)))
    × ((r.any_target ≡ true) ⊎ (r.target ≡ to))

-- One of the rules matches.
abbrev pub Allowed : List SendRule → Bytes → ℕ → ShardId → Type 0
Allowed [] name version to = ⊥
Allowed (r ∷ rs) name version to = Matches r name version to ⊎ Allowed rs name version to

or_iff : (a b : Bool) → (a || b ≡ true) ↔ ((a ≡ true) ⊎ (b ≡ true))
or_iff true b = (λ _. inl refl, λ _. refl)
or_iff false b = (λ h. inr h, λ h. elim h [ inl e ↦ cc | inr e ↦ e ])

and_iff : (a b : Bool) → (a && b ≡ true) ↔ ((a ≡ true) × (b ≡ true))
and_iff true b = (λ h. (refl, h), λ (_, h). h)
and_iff false b = (λ h. cc, λ (e, _). cc)

bytes_eq_iff : (xs ys : Bytes) → (bytes_eq xs ys ≡ true) ↔ (xs ≡ ys)
bytes_eq_iff xs ys = (bytes_eq→eq xs ys, λ e. rw e (bytes_eq_refl ys))

rule_permits_iff :
    (r : SendRule) (name : Bytes) (version : ℕ) (to : ShardId)
    → (rule_permits r name version to ≡ true) ↔ Matches r name version to
unfolding rule_permits
rule_permits_iff r name version to = (matching, permitting)
  where
    matching : rule_permits r name version to ≡ true → Matches r name version to
    matching h =
        let (s, t) = (and_iff _ _).0 h in
        (
          elim ((or_iff r.any_shape _).0 s) [
            | inl any ↦ inl any
            | inr same ↦
                let (n, v) = (and_iff (bytes_eq r.shape_name name) _).0 same in
                inr ((bytes_eq_iff r.shape_name name).0 n, (==_iff r.shape_version version).0 v)
          ],
          elim ((or_iff r.any_target _).0 t) [
            | inl any ↦ inl any
            | inr same ↦ inr ((==_iff r.target to).0 same)
          ],
        )

    permitting : Matches r name version to → rule_permits r name version to ≡ true
    permitting (s, t) = (and_iff _ _).1 (
      (or_iff r.any_shape _).1 (elim s [
        | inl any ↦ inl any
        | inr (n, v) ↦ inr (
            (and_iff (bytes_eq r.shape_name name) _).1
              ((bytes_eq_iff r.shape_name name).1 n, (==_iff r.shape_version version).1 v))
      ]),
      (or_iff r.any_target _).1
          (elim t [ inl any ↦ inl any | inr same ↦ inr ((==_iff r.target to).1 same) ]),
    )

rules_permit_iff :
    (rs : List SendRule) (name : Bytes) (version : ℕ) (to : ShardId)
    → (rules_permit rs name version to ≡ true) ↔ Allowed rs name version to
unfolding rules_permit
rules_permit_iff [] name version to = (λ h. absurd (true-neq-false (sym h)), λ h. elim h [ ])
rules_permit_iff (r ∷ rs) name version to = elim (Bool-cases (rule_permits r name version to)) [
  | inl yes_one ↦ (λ _. inl ((rule_permits_iff r name version to).0 yes_one), λ _. rw yes_one refl)
  | inr no_one ↦ rw no_one (
    λ h. inr ((rules_permit_iff rs name version to).0 h),
    λ a. elim a [
      | inl m ↦ absurd (true-neq-false (sym ((rule_permits_iff r name version to).1 m) ∙ no_one))
      | inr later ↦ (rules_permit_iff rs name version to).1 later
    ],
  )
]

-- A grant permits a send exactly when one of its rules matches the shape, by name and version or
-- as any shape, and the target, by its id or as any target. A grant with no rules permits none.
pub permits_iff :
    (g : Grant) (name : Bytes) (version : ℕ) (to : ShardId)
    → (permits g name version to ≡ true) ↔ Allowed g.rules name version to
unfolding permits
permits_iff g name version to = rules_permit_iff g.rules name version to
