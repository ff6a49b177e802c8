-- ===== src/Pad.antt =====
-- core/src/pad.rs: the six switches of the pad, from their levels to gestures, by a clock of milliseconds.
pub mod Deadline
pub mod Held
mod Tests
use oxinode.Prelude.{
  ℕ, ◌+◌, ◌-◌, ◌%◌, ◌^◌, min, Bool, true, false, not, ◌||◌, List, [], ◌∷◌, Option, none, some,
  if◌then◌else◌, leb, ◌==◌,
}

abbrev pub debounce_ms : ℕ
debounce_ms = 10

abbrev pub repeat_delay_ms : ℕ
repeat_delay_ms = 400

abbrev pub repeat_period_ms : ℕ
repeat_period_ms = 125

pub data Key : Type 0 where
  up down left right ok back : Key

-- The gestures, of panel/src/nav.rs.
pub data Input : Type 0 where
  left right up down select back : Input

abbrev pub all : List Key
all = Key.up ∷ Key.down ∷ Key.left ∷ Key.right ∷ Key.ok ∷ Key.back ∷ []

unfoldable pub gesture : Key → Input
gesture Key.up = Input.up
gesture Key.down = Input.down
gesture Key.left = Input.left
gesture Key.right = Input.right
gesture Key.ok = Input.select
gesture Key.back = Input.back

unfoldable pub repeats : Key → Bool
repeats Key.up = true
repeats Key.down = true
repeats Key.left = true
repeats Key.right = true
repeats Key.ok = false
repeats Key.back = false

unfoldable pub index : Key → ℕ
index Key.up = 0
index Key.down = 1
index Key.left = 2
index Key.right = 3
index Key.ok = 4
index Key.back = 5

pub data Kind : Type 0 where
  press repeat : Kind

pub record Event : Type 0 where
  pub key : Key
  pub kind : Kind
  pub bounces : ℕ
  pub settle_ms : ℕ

unfoldable pub input : Event → Input
unfolding gesture
input e = gesture e.key

pub record Switch : Type 0 where
  pub settled : Bool
  pub raw : Bool
  pub unstable_since : Option ℕ
  pub last_edge : ℕ
  pub bounces : ℕ
  pub next_repeat : Option ℕ

abbrev pub released : Switch
released = record {
  settled = false;
  raw = false;
  unstable_since = none;
  last_edge = 0;
  bounces = 0;
  next_repeat = none;
}

abbrev same_level : Bool → Bool → Bool
same_level true b = b
same_level false b = not b

-- An edge: the first one starts the bouncing, a further one counts.
abbrev edge : Bool → ℕ → Option ℕ → Switch → Switch
edge pressed now (some since) s = record s {
  raw = pressed;
  bounces = min (s.bounces + 1) 255;
  last_edge = now;
}
edge pressed now none s = record s {
  raw = pressed;
  unstable_since = some now;
  bounces = 0;
  last_edge = now;
}

unfoldable pub switch_level : Bool → ℕ → Switch → Switch
switch_level pressed now s =
    if same_level pressed s.raw then s else edge pressed now s.unstable_since s

-- A level that is believed: a press is an event and starts the repeats of a direction.
abbrev commit : Key → (now since : ℕ) → Bool → Switch → Switch × Option Event
commit key now since true s = (
  record s {
    unstable_since = none;
    settled = true;
    next_repeat = if repeats key then some ((now + repeat_delay_ms) % 2 ^ 64) else none;
  },
  some record {
    key = key;
    kind = press;
    bounces = s.bounces;
    settle_ms = min ((s.last_edge + 2 ^ 64 - since) % 2 ^ 64) 65535;
  },
)
commit key now since false s =
    (record s { unstable_since = none; settled = false; next_repeat = none }, none)

-- The first half of a poll: the debouncing.
unfoldable pub debounce : Key → ℕ → Option ℕ → Switch → Switch × Option Event
unfolding repeats
debounce key now none s = (s, none)
debounce key now (some since) s =
    if leb debounce_ms (now - s.last_edge)
    then if same_level s.raw s.settled
      then (record s { unstable_since = none }, none)
      else commit key now since s.raw s
    else (s, none)

-- The second half: the repeat that is due, in place of the event of the first.
unfoldable pub repeat_due : Key → ℕ → Option ℕ → Switch × Option Event → Switch × Option Event
repeat_due key now none (s, event) = (s, event)
repeat_due key now (some due) (s, event) =
    if leb due now
    then (
      record s { next_repeat = some ((now + repeat_period_ms) % 2 ^ 64) },
      some record { key = key; kind = repeat; bounces = 0; settle_ms = 0 },
    )
    else (s, event)

unfoldable pub switch_poll : Key → ℕ → Switch → Switch × Option Event
unfolding debounce repeat_due
switch_poll key now s =
    let first = debounce key now s.unstable_since s in repeat_due key now first.0.next_repeat first

abbrev earlier : Option ℕ → Option ℕ → Option ℕ
earlier (some a) (some b) = some (min a b)
earlier (some a) none = some a
earlier none b = b

abbrev debounced_at : Option ℕ → ℕ → Option ℕ
debounced_at none last_edge = none
debounced_at (some since) last_edge = some ((last_edge + debounce_ms) % 2 ^ 64)

unfoldable pub switch_deadline : Switch → Option ℕ
switch_deadline s = earlier (debounced_at s.unstable_since s.last_edge) s.next_repeat

-- The array of the six switches, read at the index of a key.
pub record Pad : Type 0 where
  pub switches : Key → Switch

unfoldable pub new : Pad
new = record { switches = λ key. released }

unfoldable pub set_switch : Key → Switch → Pad → Pad
unfolding index
set_switch key s p = record { switches = λ k. if index k == index key then s else p.switches k }

unfoldable pub level : Key → Bool → ℕ → Pad → Pad
unfolding switch_level set_switch
level key pressed now p = set_switch key (switch_level pressed now (p.switches key)) p

abbrev with_event : Option Event → List Event → List Event
with_event none events = events
with_event (some event) events = event ∷ events

-- The loop over the keys.
unfoldable pub poll_keys : List Key → ℕ → Pad → Pad × List Event
unfolding switch_poll set_switch
poll_keys [] now p = (p, [])
poll_keys (key ∷ keys) now p =
    let (s, event) = switch_poll key now (p.switches key) in
    let (next, events) = poll_keys keys now (set_switch key s p) in (next, with_event event events)

unfoldable pub poll : ℕ → Pad → Pad × List Event
unfolding poll_keys
poll now p = poll_keys all now p

unfoldable pub deadline_of : List Key → Pad → Option ℕ
unfolding switch_deadline
deadline_of [] p = none
deadline_of (key ∷ keys) p = earlier (switch_deadline (p.switches key)) (deadline_of keys p)

unfoldable pub deadline : Pad → Option ℕ
unfolding deadline_of
deadline p = deadline_of all p

unfoldable pub is_pressed : Key → Pad → Bool
is_pressed key p = (p.switches key).settled

-- The three positions of the switch of the Super IO.
pub data Position : Type 0 where
  power_on gps_on neither invalid : Position

unfoldable pub decode : (p1_09_high p0_12_high : Bool) → Position
decode true false = power_on
decode false true = gps_on
decode false false = neither
decode true true = invalid
