-- ===== src/Node/Announce/Tests.antt =====
-- An announce at the start, and a path response that has to wait for the quiet behind it.
use oxinode.Prelude.{List, [], ◌∷◌, none, ◌≡◌, refl, arith}
use oxinode.Node.Outbox.{gap_ms}
use oxinode.Node.Announce.{new, path_response}
use oxinode.Node.Announce.Budget.{
  Event, wants, starts, withholds, turn, announces, Spaced, announces-Spaced,
}

abbrev morning : List Event
morning =
    starts 1000
    ∷ turn 1000 200000
    ∷ wants path_response
    ∷ turn 2000 100000
    ∷ turn 11000 100000
    ∷ withholds
    ∷ turn 99000 100000
    ∷ []

two_go : announces morning new ≡ (1000, 200000) ∷ (11000, 100000) ∷ []
unfolding announces new
two_go = refl

announces-Spaced_example : Spaced none (announces morning new)
unfolding gap_ms
announces-Spaced_example =
    announces-Spaced morning
      (tt, (omega arith, (tt, (omega arith, (omega arith, (tt, (omega arith, tt)))))))
