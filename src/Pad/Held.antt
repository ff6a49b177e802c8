-- ===== src/Pad/Held.antt =====
-- A gesture comes from a key that is down, and only a direction repeats.
use oxinode.Prelude.{
  ℕ, ◌+◌, ◌-◌, ◌%◌, ◌^◌, Bool, true, false, List, [], ◌∷◌, Option, none, some, ◌≡◌, refl, sym, ap,
  ◌∙◌, subst, arith, if◌then◌else◌, leb, ◌==◌, Bool-cases, inl, inr,
}
use oxinode.Prelude.Finds.{All}
use oxinode.Pad.{
  Key, Switch, Pad, Event, Kind, press, repeat, index, repeats, same_level, edge, switch_level,
  commit, debounce, repeat_due, switch_poll, set_switch, with_event, poll_keys, poll, all, level,
  new, is_pressed,
}
use oxinode.Pad.Deadline.{index-injective}

-- What the firmware tells the pad.
pub data Step : Type 0 where
  reports : Key → Bool → ℕ → Step
  polls : ℕ → Step

unfoldable pub after : List Step → Pad → Pad
unfolding level poll
after [] p = p
after (reports key pressed now ∷ steps) p = after steps (level key pressed now p)
after (polls now ∷ steps) p = after steps (poll now p).0

-- One of the four directions.
abbrev pub IsDirection : Key → Type 0
IsDirection Key.up = Unit
IsDirection Key.down = Unit
IsDirection Key.left = Unit
IsDirection Key.right = Unit
IsDirection Key.ok = ⊥
IsDirection Key.back = ⊥

repeats-IsDirection : (key : Key) → repeats key ≡ true → IsDirection key
unfolding repeats
repeats-IsDirection Key.up h = tt
repeats-IsDirection Key.down h = tt
repeats-IsDirection Key.left h = tt
repeats-IsDirection Key.right h = tt
repeats-IsDirection Key.ok h = cc
repeats-IsDirection Key.back h = cc

-- A repeat is of a direction.
abbrev pub Proper : Kind → Key → Type 0
Proper press key = Unit
Proper repeat key = IsDirection key

-- An event whose key is down, and that is a repeat of a direction alone.
unfoldable pub Genuine : Pad → Event → Type 0
unfolding is_pressed
Genuine p e = (is_pressed e.key p ≡ true) × Proper e.kind e.key

-- A repeat is scheduled only for a direction that is down.
abbrev Repeating : Key → Bool → Option ℕ → Type 0
Repeating key settled none = Unit
Repeating key settled (some due) = (settled ≡ true) × IsDirection key

abbrev Held : Key → Switch → Type 0
Held key s = Repeating key s.settled s.next_repeat

abbrev From : Key → Switch → Option Event → Type 0
From key s none = Unit
From key s (some e) = (e.key ≡ key) × (s.settled ≡ true) × Proper e.kind e.key

abbrev Sound : Key → Switch × Option Event → Type 0
Sound key (s, event) = Held key s × From key s event

edge-Held :
    (key : Key) (pressed : Bool) (now : ℕ) (since : Option ℕ) (s : Switch)
    → Held key s
    → Held key (edge pressed now since s)
edge-Held key pressed now none s h = h
edge-Held key pressed now (some since) s h = h

switch_level-Held :
    (key : Key) (pressed : Bool) (now : ℕ) (s : Switch)
    → Held key s
    → Held key (switch_level pressed now s)
unfolding switch_level
switch_level-Held key pressed now s h = elim (Bool-cases (same_level pressed s.raw)) [
  | inl same ↦
      subst (λ b. Held key (if b then s else edge pressed now s.unstable_since s)) (sym same) h
  | inr new_level ↦
      subst (λ b. Held key (if b then s else edge pressed now s.unstable_since s)) (sym new_level)
        (edge-Held key pressed now s.unstable_since s h)
]

commit-Sound :
    (key : Key) (now since : ℕ) (raw : Bool) (s : Switch) → Sound key (commit key now since raw s)
commit-Sound key now since false s = (tt, tt)
commit-Sound key now since true s =
    let Scheduled : Bool → Type 0 =
      λ b. Repeating key true (if b then some ((now + 400) % 2 ^ 64) else none) in
    let held : Scheduled (repeats key) = elim (Bool-cases (repeats key)) [
      | inl direction ↦ subst Scheduled (sym direction) (refl, repeats-IsDirection key direction)
      | inr other ↦ subst Scheduled (sym other) tt
    ] in
    (held, (refl, refl, tt))

debounce-Sound :
    (key : Key) (now : ℕ) (since : Option ℕ) (s : Switch)
    → Held key s
    → Sound key (debounce key now since s)
unfolding debounce
debounce-Sound key now none s h = (h, tt)
debounce-Sound key now (some since) s h =
    let believed = commit key now since s.raw s in
    let settles : Switch × Option Event = (record s { unstable_since = none }, none) in
    let Inner : Bool → Type 0 = λ b. Sound key (if b then settles else believed) in
    let inner : Inner (same_level s.raw s.settled) =
      elim (Bool-cases (same_level s.raw s.settled)) [
        | inl same ↦ subst Inner (sym same) (h, tt)
        | inr changed ↦ subst Inner (sym changed) (commit-Sound key now since s.raw s)
      ] in
    let Outer : Bool → Type 0 = λ b.
      Sound key
        (if b then if same_level s.raw s.settled then settles else believed else (s, none)) in
    elim (Bool-cases (leb 10 (now - s.last_edge))) [
      | inl old ↦ subst Outer (sym old) inner
      | inr young ↦ subst Outer (sym young) (h, tt)
    ]

repeat_due-Sound :
    (key : Key) (now : ℕ) (due : Option ℕ) (s : Switch) (event : Option Event)
    → Sound key (s, event)
    → Repeating key s.settled due
    → Sound key (repeat_due key now due (s, event))
unfolding repeat_due
repeat_due-Sound key now none s event h r = h
repeat_due-Sound key now (some due) s event h r =
    let again : Switch × Option Event = (
      record s { next_repeat = some ((now + 125) % 2 ^ 64) },
      some record { key = key; kind = repeat; bounces = 0; settle_ms = 0 },
    ) in
    let Goal : Bool → Type 0 = λ b. Sound key (if b then again else (s, event)) in
    elim (Bool-cases (leb due now)) [
      | inl reached ↦ subst Goal (sym reached) (r, (refl, r.0, r.1))
      | inr later ↦ subst Goal (sym later) h
    ]

switch_poll-Sound :
    (key : Key) (now : ℕ) (s : Switch) → Held key s → Sound key (switch_poll key now s)
unfolding switch_poll
switch_poll-Sound key now s h =
    let first = debounce key now s.unstable_since s in
    let sound : Sound key first = debounce-Sound key now s.unstable_since s h in
    repeat_due-Sound key now first.0.next_repeat first.0 first.1 sound sound.0

pub record AllHeld (p : Pad) : Type 0 where
  pub held : (key : Key) → Held key (p.switches key)

set_switch-AllHeld :
    (key : Key) (s : Switch) (p : Pad) → Held key s → AllHeld p → AllHeld (set_switch key s p)
unfolding set_switch
set_switch-AllHeld key s p h all_held = record {
  held = λ k.
      let Goal : Bool → Type 0 = λ b. Held k (if b then s else p.switches k) in
      elim (Bool-cases (index k == index key)) [
        | inl same ↦
            subst Goal (sym same) (subst (λ j. Held j s) (sym (index-injective k key same)) h)
        | inr other ↦ subst Goal (sym other) (all_held.held k)
      ];
}

-- The switch of a key that is not among those polled stays as it is.
Other : Key → List Key → Type 0
Other key keys = All (λ k. (index key == index k) ≡ false) keys

Distinct : List Key → Type 0
Distinct [] = Unit
Distinct (key ∷ keys) = Other key keys × Distinct keys

set_switch_self : (key : Key) (s : Switch) (p : Pad) → (set_switch key s p).switches key ≡ s
unfolding set_switch
set_switch_self key s p = let same : (index key == index key) ≡ true = ground arith in rw same

poll_keys-Other :
    (keys : List Key) (now : ℕ) (p : Pad) (key : Key)
    → Other key keys
    → (poll_keys keys now p).0.switches key ≡ p.switches key
unfolding poll_keys Other set_switch
poll_keys-Other [] now p key o = refl
poll_keys-Other (k ∷ keys) now p key (apart, o) =
    poll_keys-Other keys now (set_switch k (switch_poll k now (p.switches k)).0 p) key o ∙ rw apart

poll_keys-AllHeld :
    (keys : List Key) (now : ℕ) (p : Pad) → AllHeld p → AllHeld (poll_keys keys now p).0
unfolding poll_keys
poll_keys-AllHeld [] now p h = h
poll_keys-AllHeld (key ∷ keys) now p h =
    let polled = switch_poll key now (p.switches key) in
    poll_keys-AllHeld keys now (set_switch key polled.0 p) (
      set_switch-AllHeld key polled.0 p (switch_poll-Sound key now (p.switches key) (h.held key)).0
        h)

with_event-All :
    (q : Pad) (key : Key) (s : Switch) (event : Option Event) (events : List Event)
    → q.switches key ≡ s
    → From key s event
    → All (Genuine q) events
    → All (Genuine q) (with_event event events)
unfolding Genuine is_pressed
with_event-All q key s none events eq f h = h
with_event-All q key s (some e) events eq (of_key, down, proper) h = (
  (ap (λ k. (q.switches k).settled) of_key ∙ ap (λ (t : Switch). t.settled) eq ∙ down, proper),
  h,
)

poll_keys-Genuine :
    (keys : List Key) (now : ℕ) (p : Pad)
    → AllHeld p
    → Distinct keys
    → All (Genuine (poll_keys keys now p).0) (poll_keys keys now p).1
unfolding poll_keys Distinct
poll_keys-Genuine [] now p h d = tt
poll_keys-Genuine (key ∷ keys) now p h (o, d) =
    let polled = switch_poll key now (p.switches key) in
    let sound = switch_poll-Sound key now (p.switches key) (h.held key) in
    let next = set_switch key polled.0 p in
    with_event-All (poll_keys keys now next).0 key polled.0 polled.1 (poll_keys keys now next).1
      (poll_keys-Other keys now next key o ∙ set_switch_self key polled.0 p) sound.1
      (poll_keys-Genuine keys now next (set_switch-AllHeld key polled.0 p sound.0 h) d)

after-AllHeld : (steps : List Step) (p : Pad) → AllHeld p → AllHeld (after steps p)
unfolding after level poll
after-AllHeld [] p h = h
after-AllHeld (reports key pressed now ∷ steps) p h =
    after-AllHeld steps (level key pressed now p) (
      set_switch-AllHeld key (switch_level pressed now (p.switches key)) p
        (switch_level-Held key pressed now (p.switches key) (h.held key)) h)
after-AllHeld (polls now ∷ steps) p h =
    after-AllHeld steps (poll now p).0 (poll_keys-AllHeld all now p h)

new-AllHeld : AllHeld new
unfolding new
new-AllHeld = record { held = λ key. tt }

all-Distinct : Distinct all
unfolding Distinct Other index
all-Distinct = (
  (refl, (refl, (refl, (refl, (refl, tt))))),
  (
    (refl, (refl, (refl, (refl, tt)))),
    ((refl, (refl, (refl, tt))), ((refl, (refl, tt)), ((refl, tt), (tt, tt)))),
  ),
)

-- Whatever levels a new pad was told at whatever times, and whenever it was polled: each event of the
-- next poll is of a key that the pad holds to be down, and is a repeat only if the key is up, down, left
-- or right, so a held OK or back key gives no repeat.
pub poll-Genuine :
    (steps : List Step) (now : ℕ)
    → All (Genuine (poll now (after steps new)).0) (poll now (after steps new)).1
unfolding poll
poll-Genuine steps now =
    poll_keys-Genuine all now (after steps new) (after-AllHeld steps new new-AllHeld) all-Distinct
