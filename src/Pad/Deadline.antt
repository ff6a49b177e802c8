-- ===== src/Pad/Deadline.antt =====
-- Between the turns that the pad asks for there is nothing to do.
use oxinode.Prelude.{
  ℕ, zero, suc, ◌-◌, ◌<◌, true, false, List, [], ◌∷◌, Option, none, some, ◌≡◌, refl, sym, ap, ◌∙◌,
  fun_ext, arith, if◌then◌else◌, leb, ◌==◌, Bool-cases, inl, inr,
}
use oxinode.Pad.{
  Key, Switch, Pad, Event, index, debounce, repeat_due, switch_poll, earlier, debounced_at,
  switch_deadline, set_switch, poll_keys, poll, all, deadline_of, deadline,
}

-- A time is before a deadline, if there is one.
abbrev pub Before : ℕ → Option ℕ → Type 0
Before now none = Unit
Before now (some t) = now < t

earlier-Before : (now : ℕ) (a b : Option ℕ) → Before now (earlier a b) → Before now a × Before now b
earlier-Before now (some a) (some b) h = (omega arith, omega arith)
earlier-Before now (some a) none h = (h, tt)
earlier-Before now none b h = (tt, h)

debounce-quiet :
    (key : Key) (now : ℕ) (since : Option ℕ) (s : Switch)
    → Before now (debounced_at since s.last_edge)
    → debounce key now since s ≡ (s, none)
unfolding debounce
debounce-quiet key now none s h = refl
debounce-quiet key now (some since) s h =
    let early : leb 10 (now - s.last_edge) ≡ false = ground arith in rw early

repeat-quiet :
    (key : Key) (now : ℕ) (due : Option ℕ) (s : Switch)
    → Before now due
    → repeat_due key now due (s, none) ≡ (s, none)
unfolding repeat_due
repeat-quiet key now none s h = refl
repeat-quiet key now (some due) s h = let early : leb due now ≡ false = ground arith in rw early

switch-quiet :
    (key : Key) (now : ℕ) (s : Switch)
    → Before now (switch_deadline s)
    → switch_poll key now s ≡ (s, none)
unfolding switch_poll switch_deadline
switch-quiet key now s h =
    let both = earlier-Before now (debounced_at s.unstable_since s.last_edge) s.next_repeat h in
    ap (λ (first : Switch × Option Event). repeat_due key now first.0.next_repeat first)
      (debounce-quiet key now s.unstable_since s both.0)
    ∙ repeat-quiet key now s.next_repeat s both.1

-- The key of an index.
unfoldable key_at : ℕ → Key
key_at zero = Key.up
key_at (suc zero) = Key.down
key_at (suc (suc zero)) = Key.left
key_at (suc (suc (suc zero))) = Key.right
key_at (suc (suc (suc (suc zero)))) = Key.ok
key_at _ = Key.back

key_at-index : (key : Key) → key_at (index key) ≡ key
unfolding key_at index
key_at-index Key.up = refl
key_at-index Key.down = refl
key_at-index Key.left = refl
key_at-index Key.right = refl
key_at-index Key.ok = refl
key_at-index Key.back = refl

pub index-injective : (k j : Key) → (index k == index j) ≡ true → k ≡ j
index-injective k j h =
    let same : index k ≡ index j = ground arith in
    sym (key_at-index k) ∙ ap key_at same ∙ key_at-index j

same_switch :
    (key k : Key) (p : Pad)
    → (if index k == index key then p.switches key else p.switches k) ≡ p.switches k
same_switch key k p = elim (Bool-cases (index k == index key)) [
  | inl same ↦ rw same (ap p.switches (sym (index-injective k key same)))
  | inr other ↦ rw other
]

set_switch-same : (key : Key) (p : Pad) → set_switch key (p.switches key) p ≡ p
unfolding set_switch
set_switch-same key p =
    ap (λ (f : Key → Switch). record { switches = f }) (fun_ext (λ k. same_switch key k p))

poll_keys-quiet :
    (keys : List Key) (now : ℕ) (p : Pad)
    → Before now (deadline_of keys p)
    → poll_keys keys now p ≡ (p, [])
unfolding poll_keys deadline_of
poll_keys-quiet [] now p h = refl
poll_keys-quiet (key ∷ keys) now p h =
    let both = earlier-Before now (switch_deadline (p.switches key)) (deadline_of keys p) h in
    rw (
      switch-quiet key now (p.switches key) both.0,
      set_switch-same key p,
      poll_keys-quiet keys now p both.1,
    )

-- Before the deadline of a pad, and at any time if it has none, a poll changes nothing and gives no
-- event, so the firmware may sleep until then.
pub poll-quiet : (now : ℕ) (p : Pad) → Before now (deadline p) → poll now p ≡ (p, [])
unfolding poll deadline
poll-quiet now p h = poll_keys-quiet all now p h
