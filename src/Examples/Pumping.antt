-- ===== src/Examples/Pumping.antt =====
-- Runs of the loop of `pump` on a bus whose one shard counts its messages and sends nothing.
use zen.Prelude.{[], true, ℕ, ◌∷◌, ◌⊎◌}
use zen.Gate.Verdict.{IsInstance}
use zen.Switchboard.State.{Bus, finished, sending}
use zen.Switchboard.Deliver.{abandon, deliver_one}
use zen.Switchboard.Sends.{handler_effect, no_effect}
use zen.Switchboard.Fate.{IsRouted, gated_bus}
use zen.Switchboard.Pumping.{IsAfter, deliver_one_fifo}
use zen.Examples.Gating.{ada}
use zen.Examples.Bussing.{chatty_methods, counter, hello, letter, two_pending}

-- Two letters wait for the shard.
abbrev waiting : Bus ℕ
waiting = record two_pending { queue = letter ∷ record letter { seq = 2 } ∷ [] }

-- A handler that sends, publishes and asks for a stop.
deliver_one_fifo_example :
    ((way : IsRouted waiting letter) × IsInstance ada way.door
      × IsAfter waiting
          (handler_effect chatty_methods (gated_bus waiting) way.rec letter)
          (deliver_one chatty_methods waiting letter))
    ⊎ ((¬ ((way : IsRouted waiting letter) × IsInstance ada way.door))
        × IsAfter waiting no_effect (deliver_one chatty_methods waiting letter))
deliver_one_fifo_example = deliver_one_fifo chatty_methods waiting letter

-- The handler sends to shard 9 and then throws.
abbrev interrupted : Bus ℕ
interrupted =
    abandon (record waiting { in_dispatch = true }) counter letter
      (sending 9 hello (λ ticket. finished 0))
