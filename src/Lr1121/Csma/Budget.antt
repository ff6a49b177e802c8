-- ===== src/Lr1121/Csma/Budget.antt =====
-- A wait ends.
use oxinode.Prelude.{
  subst, inl, inr, ℕ, ◌+◌, ◌-◌, ◌*◌, ◌^◌, min, ◌≤◌, ◌<◌, List, [], ◌∷◌, Option, none, some, length,
  ◌≡◌, refl, ap, sym, ◌∙◌, arith,
}
use native.Mathlib.Nat.{mul-le-mul_right}
use oxinode.Prelude.Finds.{Option-cases}
use oxinode.Lr1121.Config.{RadioConfig}
use oxinode.Lr1121.Csma.{
  Backoff, Channel, clear, busy, Step, wait, transmit, force, next, heard, wait_or_force, new,
}
use oxinode.Lr1121.Csma.Bounds.{new-bounds}

abbrev pub if_wait : Backoff × Step → Option Backoff
if_wait (b, wait t) = some b
if_wait (b, transmit) = none
if_wait (b, force) = none

-- The wait behind some senses, if none of them was answered by a transmission.
unfoldable pub still_waiting : Backoff → List Channel → Option Backoff
still_waiting b [] = some b
still_waiting b (c ∷ cs) = elim (if_wait (next b c)) [ none ↦ none | some b' ↦ still_waiting b' cs ]

-- What a wait spends: a slot, and only while its budget is not spent.
abbrev Spends : Backoff → Option Backoff → Type 0
Spends b none = Unit
Spends b (some b') =
    (b.report.waited_us < b.budget)
    × (b'.report.waited_us ≡ min (b.report.waited_us + b.slot) (2 ^ 32 - 1))
    × (b'.slot ≡ b.slot)
    × (b'.budget ≡ b.budget)

next-Spends : (b : Backoff) (c : Channel) → Spends b (if_wait (next b c))
unfolding next heard wait_or_force
next-Spends b clear = ground arith
next-Spends b busy = ground arith

abbrev or_stop : List Channel → Option Backoff → Option Backoff
or_stop cs r = elim r [ none ↦ none | some b ↦ still_waiting b cs ]

spent :
    (cs : List Channel) (b b' : Backoff)
    → b.budget + b.slot < 2 ^ 32
    → b.report.waited_us < b.budget + b.slot
    → still_waiting b cs ≡ some b'
    → b.report.waited_us + length cs * b.slot < b.budget + b.slot
unfolding still_waiting
spent [] b b' fits w h = grind arith
spent (c ∷ cs) b b' fits w h = elim (Option-cases (if_wait (next b c))) [
  | inl e ↦ let stop : none ≡ some b' = ap (or_stop cs) (sym e) ∙ h in cc
  | inr (b1, e) ↦
      let s : Spends b (some b1) = subst (Spends b) e (next-Spends b c) in
      let (less, waited, slot, budget) = s in
      let rest = spent cs b1 b' (omega arith) (omega arith) (ap (or_stop cs) (sym e) ∙ h) in
      let same_slot : length cs * b1.slot ≡ length cs * b.slot = ap (λ x. length cs * x) slot in
      grind arith
]

new-waited : (config : RadioConfig) (len seed : ℕ) → (new config len seed).report.waited_us ≡ 0
unfolding new
new-waited config len seed = refl

-- A packet goes: for any configuration, payload and seed, and whatever is heard, one of the first
-- 3335 senses of a wait is answered by a transmission.
pub still_waiting-new :
    (config : RadioConfig) (len seed : ℕ) (cs : List Channel)
    → 3335 ≤ length cs
    → still_waiting (new config len seed) cs ≡ none
still_waiting-new config len seed cs many =
    let b = new config len seed in
    elim (Option-cases (still_waiting b cs)) [
      | inl e ↦ e
      | inr (b', e) ↦
          let (low, high, short, long, need, window, fresh, sync) = new-bounds config len seed in
          let spend = spent cs b b' (omega arith) (omega (arith, new-waited config len seed)) e in
          let more : 3335 * b.slot ≤ length cs * b.slot = mul-le-mul_right b.slot many in
          absurd (omega arith)
    ]
