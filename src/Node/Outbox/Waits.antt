-- ===== src/Node/Outbox/Waits.antt =====
-- How long the attempts of a message take.
use oxinode.Prelude.{ℕ, ◌+◌, ◌*◌, ◌/◌, ◌^◌, ◌<◌, max, ◌≡◌, arith}
use oxinode.Node.Outbox.{wait_ms, give_up_ms, gap_ms, retry_ms}

-- The wait after the first attempt.
abbrev pub first_wait : ℕ → ℕ
first_wait airtime_us = max retry_ms (airtime_us * 50 / 1000)

-- For an attempt that took any `u32` of microseconds, the waits are the first one, its double and
-- its fourfold, so a message is given up behind seven times the first; and each of them is at least
-- fifty times the airtime, in whole milliseconds, so that no more than a fiftieth of the time is
-- spent on the air.
wait_lem :
    (airtime_us : ℕ)
    → airtime_us < 2 ^ 32
    → (wait_ms 1 airtime_us ≡ first_wait airtime_us)
      × (wait_ms 2 airtime_us ≡ 2 * first_wait airtime_us)
      × (wait_ms 3 airtime_us ≡ 4 * first_wait airtime_us)
      × (give_up_ms airtime_us ≡ 7 * first_wait airtime_us)
      × (50 * airtime_us < 1000 * (wait_ms 1 airtime_us + 1))
unfolding give_up_ms wait_ms gap_ms
wait_lem a h =
    let one : wait_ms 1 a ≡ first_wait a = omega arith in
    let two : wait_ms 2 a ≡ 2 * first_wait a = omega arith in
    let three : wait_ms 3 a ≡ 4 * first_wait a = omega arith in
    (one, two, three, omega arith, omega arith)
