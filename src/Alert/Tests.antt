-- ===== src/Alert/Tests.antt =====
-- Two packets in a burst, and one behind it.
use oxinode.Prelude.{List, [], ◌∷◌, true, none, ◌≡◌, refl}
use oxinode.Mode.{node}
use oxinode.Alert.{new}
use oxinode.Alert.Spacing.{Event, arrives, sounds, Spaced, sounds-Spaced}

abbrev burst : List Event
burst = arrives 1 1000 node ∷ arrives 2 4000 node ∷ arrives 1 14000 node ∷ []

two_sounds : sounds burst (new true) ≡ 1000 ∷ 14000 ∷ []
unfolding sounds new
two_sounds = refl

sounds-Spaced_example : Spaced none (sounds burst (new true))
sounds-Spaced_example = sounds-Spaced burst true
