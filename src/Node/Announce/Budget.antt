-- ===== src/Node/Announce/Budget.antt =====
-- However the reasons to announce come, the announces that go leave the channel the quiet that the cap
-- asks for.
use oxinode.Prelude.{
  ℕ, ◌+◌, ◌*◌, ◌/◌, ◌^◌, ◌≤◌, ◌<◌, Bool, false, List, [], ◌∷◌, ◌++◌, Option, none, some, ◌≡◌, refl,
  ap, sym, ◌∙◌, subst, arith, if◌then◌else◌, ltb, Bool-cases, inl, inr,
}
use oxinode.Prelude.Finds.{All}
use oxinode.Node.Outbox.{gap_ms}
use oxinode.Node.Announce.{
  Kind, Schedule, want, started, withhold, quiet_until, allowed_from, tick, take_due, due, sent,
  new,
}

-- What happens to the schedule. At a turn, what is due goes at once and takes an airtime.
pub data Event : Type 0 where
  wants : Kind → Event
  starts : ℕ → Event
  withholds : Event
  turn : (now airtime : ℕ) → Event

-- An announce that went: when, and for how many microseconds.
abbrev pub Sent : Type 0
Sent = ℕ × ℕ

-- What went at a turn, if anything was due.
abbrev gone : ℕ → ℕ → Schedule × Option Kind → Schedule × List Sent
gone now airtime (s, none) = (s, [])
gone now airtime (s, some k) = (sent now airtime s, (now, airtime) ∷ [])

unfoldable pub step : Event → Schedule → Schedule × List Sent
unfolding want started withhold due sent
step (wants k) s = (want k s, [])
step (starts now) s = (started now s, [])
step withholds s = (withhold s, [])
step (turn now airtime) s = gone now airtime (due now s)

-- The announces of a run, in their order.
unfoldable pub announces : List Event → Schedule → List Sent
unfolding step
announces [] s = []
announces (e ∷ es) s = let (next, log) = step e s in log ++ announces es next

-- The clock is far from the end of its 64 bits.
abbrev pub IsEarly : Event → Type 0
IsEarly (turn now airtime) = now + airtime < 2 ^ 64
IsEarly _ = Unit

-- A time in milliseconds is later than one before 50 times the airtime behind an announce, of which the
-- airtime is in microseconds.
abbrev pub Behind : Option Sent → ℕ → Type 0
Behind none now = Unit
Behind (some (at, airtime)) now = (at ≤ now) × (1000 * at + 50 * airtime < 1000 * (now + 1))

unfoldable pub Spaced : Option Sent → List Sent → Type 0
Spaced last [] = Unit
Spaced last ((now, airtime) ∷ log) = Behind last now × Spaced (some (now, airtime)) log

-- The announce that a schedule remembers, with the quiet that it asks for.
abbrev Remembered : Option Sent → Option (ℕ × ℕ) → Type 0
Remembered none last = last ≡ none
Remembered (some (at, airtime)) last = (last ≡ some (at, gap_ms airtime)) × (at + airtime < 2 ^ 64)

Behind-quiet_until :
    (r : Option Sent) (last : Option (ℕ × ℕ)) (now : ℕ)
    → Remembered r last
    → ltb now (quiet_until last) ≡ false
    → Behind r now
unfolding gap_ms
Behind-quiet_until none last now f h = tt
Behind-quiet_until (some (at, airtime)) last now (e, fits) h =
    let apart : ltb now (quiet_until (some (at, airtime * 50 / 1000))) ≡ false =
      ap (λ l. ltb now (quiet_until l)) (sym e) ∙ h in
    (ground arith, ground arith)

tick-last : (now : ℕ) (s : Schedule) → (tick now s).last ≡ s.last
unfolding tick want
tick-last now s = ground arith

module _ (now airtime : ℕ) (log : Schedule → List Sent) (early : now + airtime < 2 ^ 64)
    (ih : (r : Option Sent) (s : Schedule) → Remembered r s.last → Spaced r (log s))
    (r : Option Sent) where
  -- The log that a turn adds to, behind the last announce.
  abbrev Goes : Schedule × Option Kind → Type 0
  Goes t = let (next, went) = gone now airtime t in Spaced r (went ++ log next)

  taken : (p : Option Kind) (s : Schedule) → Remembered r s.last → Behind r now → Goes (s, p)
  unfolding Spaced sent
  taken none s f b = ih r s f
  taken (some k) s f b = (b, ih (some (now, airtime)) (sent now airtime s) (refl, early))

  take_due-Goes : (s : Schedule) → Remembered r s.last → Goes (take_due now s)
  unfolding take_due allowed_from
  take_due-Goes s f =
      let Goal : Bool → Type 0 =
        λ b. Goes (if b then (s, none) else (record s { pending = none }, s.pending)) in
      elim (Bool-cases (ltb now (quiet_until s.last))) [
        | inl quiet ↦ subst Goal (sym quiet) (ih r s f)
        | inr free ↦ subst Goal (sym free) (
            taken s.pending (record s { pending = none }) f
              (Behind-quiet_until r s.last now f free))
      ]

  due-Goes : (s : Schedule) → Remembered r s.last → Goes (due now s)
  unfolding due
  due-Goes s f = take_due-Goes (tick now s) (subst (Remembered r) (sym (tick-last now s)) f)

spaced :
    (es : List Event) (r : Option Sent) (s : Schedule)
    → All IsEarly es
    → Remembered r s.last
    → Spaced r (announces es s)
unfolding announces step Spaced want started withhold
spaced [] r s early f = tt
spaced (wants k ∷ es) r s (e, early) f = spaced es r (want k s) early f
spaced (starts now ∷ es) r s (e, early) f = spaced es r (started now s) early f
spaced (withholds ∷ es) r s (e, early) f = spaced es r (withhold s) early f
spaced (turn now airtime ∷ es) r s (e, early) f =
    due-Goes now airtime (announces es) e (λ r' next fits. spaced es r' next early fits) r s f

-- However a new schedule is asked for announces, started, withheld and given turns, and whenever the
-- turns come: an announce is never before the one that went before it, and less than one millisecond
-- short of 50 times the airtime of that one behind it, or later. Each time with the airtime added stays
-- within 64 bits.
pub announces-Spaced : (es : List Event) → All IsEarly es → Spaced none (announces es new)
unfolding new
announces-Spaced es early = spaced es none new early refl
