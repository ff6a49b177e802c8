-- ===== src/Alert/Spacing.antt =====
-- Packets that were heard in a burst sound once.
use oxinode.Prelude.{
  ℕ, ◌+◌, ◌≤◌, Bool, true, false, not, ◌&&◌, List, [], ◌∷◌, ◌++◌, Option, none, some, if◌then◌else◌,
  ◌==◌, ◌≡◌, refl, sym, subst, arith, Bool-cases, inl, inr,
}
use oxinode.Mode.{Mode, is_node}
use oxinode.Alert.{Alert, new, set_on, is_together, later_of, note, arrived}

pub data Event : Type 0 where
  switches : Bool → Event
  arrives : (new_messages at_ms : ℕ) → Mode → Event

-- When the packets that sounded were heard, in order of their arrival.
abbrev sounds_at : Bool → ℕ → List ℕ
sounds_at true at_ms = at_ms ∷ []
sounds_at false at_ms = []

unfoldable pub sounds : List Event → Alert → List ℕ
unfolding set_on arrived
sounds [] a = []
sounds (switches on ∷ es) a = sounds es (set_on on a)
sounds (arrives n at_ms m ∷ es) a =
    let (next, sound) = arrived n at_ms m a in sounds_at sound at_ms ++ sounds es next

-- Each time is ten seconds or more behind the one before.
unfoldable pub Spaced : Option ℕ → List ℕ → Type 0
Spaced last [] = Unit
Spaced none (t ∷ ts) = Spaced (some t) ts
Spaced (some last) (t ∷ ts) = (last + 10000 ≤ t) × Spaced (some t) ts

-- The last arrival is no earlier than the last sound.
abbrev Covers : Option ℕ → Option ℕ → Type 0
Covers none last_ms = Unit
Covers (some sounded) none = ⊥
Covers (some sounded) (some last) = sounded ≤ last

Covers-later_of :
    (s last : Option ℕ) (at_ms : ℕ) → Covers s last → Covers s (some (later_of last at_ms))
Covers-later_of none last at_ms c = tt
Covers-later_of (some s) none at_ms c = elim c [ ]
Covers-later_of (some s) (some last) at_ms c = omega arith

Covers-max : (last : Option ℕ) (at_ms : ℕ) → Covers (some at_ms) (some (later_of last at_ms))
Covers-max none at_ms = omega arith
Covers-max (some last) at_ms = omega arith

Spaced-sound :
    (s last : Option ℕ) (at_ms : ℕ) (ts : List ℕ)
    → Covers s last
    → is_together last at_ms ≡ false
    → Spaced (some at_ms) ts
    → Spaced s (at_ms ∷ ts)
unfolding Spaced
Spaced-sound none last at_ms ts c apart later = later
Spaced-sound (some s) none at_ms ts c apart later = elim c [ ]
Spaced-sound (some s) (some last) at_ms ts c apart later = (ground arith, later)

module _ (at_ms : ℕ) (s : Option ℕ) (log : Alert → List ℕ)
    (ih : (t : Option ℕ) (b : Alert) → Covers t b.last_ms → Spaced t (log b)) where
  abbrev Goes : Alert × Bool → Type 0
  Goes (next, sound) = Spaced s (sounds_at sound at_ms ++ log next)

  note-Goes :
      (sound : Bool) (a : Alert)
      → Covers s a.last_ms
      → (sound ≡ true → is_together a.last_ms at_ms ≡ false)
      → Goes (note at_ms sound a)
  note-Goes false a c h = ih s (note at_ms false a).0 (Covers-later_of s a.last_ms at_ms c)
  note-Goes true a c h =
      Spaced-sound s a.last_ms at_ms (log (note at_ms true a).0) c (h refl)
        (ih (some at_ms) (note at_ms true a).0 (Covers-max a.last_ms at_ms))

  arrived-Goes : (n : ℕ) (m : Mode) (a : Alert) → Covers s a.last_ms → Goes (arrived n at_ms m a)
  unfolding arrived
  arrived-Goes n m a c =
      let sound : Bool = a.on && is_node m && not (is_together a.last_ms at_ms) in
      let Goal : Bool → Type 0 = λ b. Goes (if b then (a, false) else note at_ms sound a) in
      elim (Bool-cases (n == 0)) [
        | inl nothing ↦ subst Goal (sym nothing) (ih s a c)
        | inr some_new ↦ subst Goal (sym some_new) (note-Goes sound a c (λ h. ground arith))
      ]

spaced : (es : List Event) (a : Alert) (s : Option ℕ) → Covers s a.last_ms → Spaced s (sounds es a)
unfolding sounds Spaced set_on
spaced [] a s c = tt
spaced (switches on ∷ es) a s c = spaced es (set_on on a) s c
spaced (arrives n at_ms m ∷ es) a s c =
    arrived-Goes at_ms s (sounds es) (λ t b k. spaced es b t k) n m a c

-- Whatever arrives, in whatever order, in whatever mode and with the setting switched as one likes: a
-- packet that sounds was heard ten seconds or more after the packet that sounded before it was heard.
pub sounds-Spaced : (es : List Event) (on : Bool) → Spaced none (sounds es (new on))
unfolding new
sounds-Spaced es on = spaced es (new on) none tt
