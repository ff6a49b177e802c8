-- ===== src/Lr1121/Csma/Difs.antt =====
-- When a wait lets a packet go.
use oxinode.Prelude.{
  Option, ℕ, suc, ◌+◌, ◌%◌, ◌^◌, ◌≤◌, ◌<◌, List, [], ◌∷◌, some, none, ◌≡◌, refl, ap, sym, ◌∙◌, ◌↔◌,
  arith, subst,
}
use oxinode.Lr1121.Config.{RadioConfig}
use oxinode.Lr1121.Csma.{
  Backoff, Channel, clear, busy, transmit, next, heard, wait_or_force, new, draw,
}
use oxinode.Lr1121.Csma.Budget.{if_wait}

-- The waits that a wait reaches by senses, the latest first, none of which was answered by a
-- transmission.
pub data Reaches (start : Backoff) : List Channel → Backoff → Type 0 where
  begin : Reaches start [] start
  sense :
      {hs : List Channel} {b b' : Backoff} (c : Channel)
      → Reaches start hs b
      → if_wait (next b c) ≡ some b'
      → Reaches start (c ∷ hs) b'

-- The clear senses since the latest busy one, and all busy ones.
unfoldable pub clears : List Channel → ℕ
clears [] = 0
clears (busy ∷ hs) = 0
clears (clear ∷ hs) = suc (clears hs)

unfoldable pub busies : List Channel → ℕ
busies [] = 0
busies (busy ∷ hs) = suc (busies hs)
busies (clear ∷ hs) = busies hs

-- The clear senses in a row that are asked for behind some senses.
abbrev pub asked : ℕ → List Channel → ℕ
asked seed hs = 2 + draw ((seed + busies hs) % 2 ^ 64)

record Counts (seed : ℕ) (hs : List Channel) (b : Backoff) : Type 0 where
  row : b.clear_run ≡ clears hs
  short : b.clear_run < b.need
  seeded : b.seed ≡ (seed + busies hs) % 2 ^ 64
  window : b.need ≡ asked seed hs
  small : b.need ≤ 17

draw-lt : (seed : ℕ) → draw seed < 16
unfolding draw
draw-lt seed = omega arith

-- What one sense does to a wait that goes on.
abbrev Tracks : Backoff → Channel → Option Backoff → Type 0
Tracks b c none = Unit
Tracks b clear (some b') =
    (b'.clear_run ≡ b.clear_run + 1)
    × (b'.clear_run < b.need)
    × (b'.need ≡ b.need)
    × (b'.seed ≡ b.seed)
Tracks b busy (some b') =
    (b'.clear_run ≡ 0) × (b'.need ≡ 2 + draw b'.seed) × (b'.seed ≡ (b.seed + 1) % 2 ^ 64)

next-Tracks :
    (b : Backoff) (c : Channel)
    → b.clear_run < b.need
    → b.need ≤ 17
    → Tracks b c (if_wait (next b c))
unfolding next heard wait_or_force
next-Tracks b clear short small = ground arith
next-Tracks b busy short small = ground arith

next-Counts :
    (seed : ℕ) (hs : List Channel) (b b' : Backoff) (c : Channel)
    → Counts seed hs b
    → if_wait (next b c) ≡ some b'
    → Counts seed (c ∷ hs) b'
unfolding clears busies
next-Counts seed hs b b' clear k h =
    let t : Tracks b clear (some b') =
      subst (Tracks b clear) h (next-Tracks b clear k.short k.small) in
    let (row, short, need, seeded) = t in
    record {
      row = row ∙ omega (arith, k.row);
      short = omega (arith, k.short);
      seeded = seeded ∙ k.seeded;
      window = need ∙ k.window;
      small = omega (arith, k.small);
    }
next-Counts seed hs b b' busy k h =
    let t : Tracks b busy (some b') =
      subst (Tracks b busy) h (next-Tracks b busy k.short k.small) in
    let (row, need, seeded) = t in
    let e : b'.seed ≡ (seed + suc (busies hs)) % 2 ^ 64 = omega (arith, k.seeded) in
    let d = draw-lt b'.seed in
    record {
      row = row;
      short = omega arith;
      seeded = e;
      window = need ∙ ap (λ s. 2 + draw s) e;
      small = omega arith;
    }

reached-Counts :
    (config : RadioConfig) (len seed : ℕ) {hs : List Channel} {b : Backoff}
    → seed < 2 ^ 64
    → Reaches (new config len seed) hs b
    → Counts seed hs b
unfolding new clears busies
reached-Counts config len seed h begin =
    let d = draw-lt seed in
    record {
      row = refl;
      short = omega arith;
      seeded = omega arith;
      window = ap (λ s. 2 + draw s) (omega arith);
      small = omega arith;
    }
reached-Counts config len seed h (sense c r e) =
    next-Counts seed _ _ _ c (reached-Counts config len seed h r) e

lets_go :
    (b : Backoff) (c : Channel)
    → b.clear_run < b.need
    → b.need ≤ 17
    → ((next b c).1 ≡ transmit) ↔ ((c ≡ clear) × (b.clear_run + 1 ≡ b.need))
unfolding next heard wait_or_force
lets_go b clear short small = ((λ h. (refl, ground arith)), (λ h. ground arith))
lets_go b busy short small = ((λ h. absurd (ground arith)), (λ h. cc (h.0)))

-- A sense that follows others is answered with a clear way exactly if it is clear and makes, with
-- the clear ones right before it, as many in a row as were asked for: two and a window, drawn from
-- the seed, and again from its successor at each busy sense.
pub next-Reaches :
    (config : RadioConfig) (len seed : ℕ) (c : Channel) {hs : List Channel} {b : Backoff}
    → seed < 2 ^ 64
    → Reaches (new config len seed) hs b
    → ((next b c).1 ≡ transmit) ↔ ((c ≡ clear) × (clears hs + 1 ≡ asked seed hs))
next-Reaches config len seed c {hs} {b} h r =
    let k = reached-Counts config len seed h r in
    let (to, from) = lets_go b c k.short k.small in
    let row = k.row in
    let window = k.window in
    (
      (λ t. ((to t).0, ap (λ k. k + 1) (sym row) ∙ (to t).1 ∙ window)),
      (λ t. from (t.0, ap (λ k. k + 1) row ∙ t.1 ∙ sym window)),
    )
