-- ===== src/Alert.antt =====
-- core/src/alert.rs: whether a message that came sounds the buzzer.
pub mod Spacing
mod Tests
use oxinode.Prelude.{
  ℕ, ◌-◌, Bool, true, false, not, ◌&&◌, Option, none, some, max, if◌then◌else◌, ltb, ◌==◌, inc_u32,
}
use oxinode.Mode.{Mode, is_node}

abbrev pub merge_ms : ℕ
merge_ms = 10000

pub record Alert : Type 0 where
  pub on : Bool
  pub last_ms : Option ℕ
  pub sounded : ℕ

unfoldable pub new : Bool → Alert
new on = record { on = on; last_ms = none; sounded = 0 }

unfoldable pub set_on : Bool → Alert → Alert
set_on on a = record a { on = on }

abbrev pub is_together : Option ℕ → ℕ → Bool
is_together none at_ms = false
is_together (some last) at_ms = ltb (at_ms - last) merge_ms

abbrev pub later_of : Option ℕ → ℕ → ℕ
later_of none at_ms = at_ms
later_of (some last) at_ms = max last at_ms

-- An arrival is remembered whether or not it sounds.
abbrev pub note : ℕ → Bool → Alert → Alert × Bool
note at_ms sound a = (
  record a {
    last_ms = some (later_of a.last_ms at_ms);
    sounded = if sound then inc_u32 a.sounded else a.sounded;
  },
  sound,
)

-- The alert afterwards, and whether to sound.
unfoldable pub arrived : (new_messages at_ms : ℕ) → Mode → Alert → Alert × Bool
unfolding is_node
arrived new_messages at_ms m a =
    if new_messages == 0
    then (a, false)
    else note at_ms (a.on && is_node m && not (is_together a.last_ms at_ms)) a
