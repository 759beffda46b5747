-- ===== src/Switchboard/Invariant.antt =====
-- src/switchboard/switchboard.cpp: what every delivery keeps, `pump` keeps.
use zen.Prelude.{Bool, Bool-cases, List, [], ap, false, if_false, if_true, inl, inr}
use zen.Prelude.{none-neq-some, refl, some, some_injective, subst, suc, sym, true, zero, ℕ, ◌∙◌}
use zen.Prelude.{◌∷◌, ◌≡◌}
use zen.Value.Access.{option_map-eq-some}
use zen.Switchboard.State.{Bus, Envelope, ShardMethods}
use zen.Switchboard.Deliver.{deliver_one, pump, pump_loop}
use zen.Switchboard.Pumping.{pump_loop_step}

module _ {S : Type 0} (methods : ShardMethods S) (P : Bus S → Type 0) where
  pump_loop_keeps :
      (fuel : ℕ) (b : Bus S) (queue : List Envelope) {b' : Bus S}
      → ((c : Bus S) (env : Envelope) (rest : List Envelope)
          → c.queue ≡ env ∷ rest
          → P c
          → P (deliver_one methods (record c { queue = rest }) env))
      → b.queue ≡ queue
      → P b
      → pump_loop methods fuel b queue ≡ some b'
      → P b'
  unfolding pump_loop
  pump_loop_keeps fuel b [] each front h ended = subst P (some_injective ended) h
  pump_loop_keeps zero b (env ∷ queue) each front h ended = absurd (none-neq-some ended)
  pump_loop_keeps (suc fuel) b (env ∷ queue) {b'} each front h ended =
      let next = deliver_one methods (record b { queue = queue }) env in
      elim (Bool-cases b.stop_requested) [
        | inl halted ↦
            subst P
              (some_injective (
                sym (
                  ap
                    (λ (h : Bool). elim h [
                      | true ↦ some b
                      | false ↦ pump_loop methods fuel next next.queue
                    ])
                    halted)
                ∙ ended))
              h
        | inr going ↦
            pump_loop_keeps fuel next next.queue each refl (each b env queue front h)
              (sym (pump_loop_step methods fuel b env queue going) ∙ ended)
      ]

  pub pump_keeps :
      (fuel : ℕ) (b : Bus S) {b' : Bus S}
      → ((c : Bus S) (env : Envelope) (rest : List Envelope)
          → c.queue ≡ env ∷ rest
          → P c
          → P (deliver_one methods (record c { queue = rest }) env))
      → ((c : Bus S) (d s : Bool) → P c → P (record c { in_dispatch = d; stop_requested = s }))
      → P b
      → pump methods fuel b ≡ some b'
      → P b'
  unfolding pump
  pump_keeps fuel b each flags h ended = elim (Bool-cases b.in_dispatch) [
    | inl busy ↦ subst P (some_injective (sym (if_true b.in_dispatch _ busy) ∙ ended)) h
    | inr idle ↦
        let (b'', looped, same) =
          option_map-eq-some (λ (x : Bus S). record x { in_dispatch = false })
            (pump_loop methods fuel (record b { in_dispatch = true; stop_requested = false })
              b.queue)
            (sym (if_false b.in_dispatch _ idle) ∙ ended) in
        subst P same (
          flags b'' false b''.stop_requested
            (pump_loop_keeps fuel _ b.queue each refl (flags b true false h) looped))
  ]
