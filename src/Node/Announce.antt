-- ===== src/Node/Announce.antt =====
-- core/src/node/announce.rs: when the board may say on the air that it is there.
pub mod Budget
mod Tests
use oxinode.Prelude.{ℕ, Bool, true, false, Option, none, some, if◌then◌else◌, ltb, leb}
use oxinode.Node.Outbox.{gap_ms, add64}

abbrev pub interval_ms : ℕ
interval_ms = 1800000

pub data Kind : Type 0 where
  path_response announce : Kind

pub record Schedule : Type 0 where
  pub last : Option (ℕ × ℕ)
  pub pending : Option Kind
  pub next_interval_ms : Option ℕ

unfoldable pub new : Schedule
new = record { last = none; pending = none; next_interval_ms = none }

-- The greater of two kinds, in the order of the source: an announce covers a path response.
unfoldable pub stronger : Kind → Kind → Kind
stronger path_response k = k
stronger announce k = announce

abbrev pub with_waiting : Option Kind → Kind → Kind
with_waiting none kind = kind
with_waiting (some k) kind = stronger k kind

unfoldable pub want : Kind → Schedule → Schedule
unfolding stronger
want kind s = record s { pending = some (with_waiting s.pending kind) }

unfoldable pub started : ℕ → Schedule → Schedule
unfolding want
started now s = record (want announce s) { next_interval_ms = some (add64 now interval_ms) }

unfoldable pub withhold : Schedule → Schedule
withhold s = record s { pending = none; next_interval_ms = none }

abbrev pub quiet_until : Option (ℕ × ℕ) → ℕ
quiet_until none = 0
quiet_until (some (at, gap)) = add64 at gap

unfoldable pub allowed_from : Schedule → ℕ
allowed_from s = quiet_until s.last

abbrev pub has_come : Option ℕ → ℕ → Bool
has_come none now = false
has_come (some t) now = leb t now

-- The first step of `due`: the interval asks.
unfoldable pub tick : ℕ → Schedule → Schedule
unfolding want
tick now s =
    if has_come s.next_interval_ms now
    then record (want announce s) { next_interval_ms = some (add64 now interval_ms) }
    else s

-- The rest of `due`: what is waiting is taken, if the budget allows it.
unfoldable pub take_due : ℕ → Schedule → Schedule × Option Kind
unfolding allowed_from
take_due now s =
    if ltb now (allowed_from s) then (s, none) else (record s { pending = none }, s.pending)

unfoldable pub due : ℕ → Schedule → Schedule × Option Kind
unfolding tick take_due
due now s = take_due now (tick now s)

unfoldable pub sent : ℕ → ℕ → Schedule → Schedule
unfolding gap_ms
sent now airtime s = record s { last = some (now, gap_ms airtime) }
