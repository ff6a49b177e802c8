-- ===== src/Lr1121/Csma.antt =====
-- core/src/lr1121/csma.rs: when the channel counts as clear, and how long to wait when it is not.
pub mod Bounds
pub mod Budget
pub mod Difs
mod Tests
use oxinode.Prelude.{
  ℕ, ◌+◌, ◌-◌, ◌*◌, ◌/◌, ◌%◌, ◌^◌, min, Bool, true, false, if◌then◌else◌, ltb, leb, inc_u32,
  bit_xor,
}
use oxinode.Lr1121.Config.{RadioConfig, symbol_time_us, airtime_us}

abbrev pub slot_symbols : ℕ
slot_symbols = 12

abbrev pub slot_min_us : ℕ
slot_min_us = 6000

abbrev pub slot_max_us : ℕ
slot_max_us = 100000

abbrev pub difs_slots : ℕ
difs_slots = 2

abbrev pub cw_max : ℕ
cw_max = 15

abbrev pub budget_airtimes : ℕ
budget_airtimes = 10

abbrev pub budget_min_us : ℕ
budget_min_us = 2000000

abbrev pub budget_max_us : ℕ
budget_max_us = 20000000

abbrev pub cad_symbols : ℕ
cad_symbols = 4

unfoldable pub slot_us : RadioConfig → ℕ
slot_us config =
    let slot = slot_symbols * symbol_time_us config % 2 ^ 32 in
    if ltb slot slot_min_us then slot_min_us else if ltb slot_max_us slot then slot_max_us else slot

unfoldable pub cad_timeout_us : RadioConfig → ℕ
cad_timeout_us config = (2 * cad_symbols * symbol_time_us config + 20000) % 2 ^ 32

unfoldable pub cad_rx_timeout_us : RadioConfig → ℕ
cad_rx_timeout_us config = airtime_us config 0

-- `div_ceil` of the slot by the symbol time, a slot, a preamble, a header of 8 and a margin of 8.
unfoldable pub sync_timeout_symbols : RadioConfig → ℕ
unfolding slot_us
sync_timeout_symbols config =
    let tsym = symbol_time_us config in
    let slot = (slot_us config + tsym - 1) / tsym in
    let symbols = slot + (config.preamble_symbols + 5) + 8 + 8 in
    if ltb 255 symbols then 255 else symbols

unfoldable pub budget_us : RadioConfig → ℕ → ℕ
budget_us config payload_len =
    let budget = budget_airtimes * airtime_us config payload_len in
    if ltb budget budget_min_us
    then budget_min_us
    else if ltb budget_max_us budget
    then budget_max_us
    else budget

-- SplitMix64's output function on `u64`.
unfoldable pub draw : ℕ → ℕ
draw seed =
    let z = (seed + 0x9E3779B97F4A7C15) % 2 ^ 64 in
    let z' = bit_xor z (z / 2 ^ 30) * 0xBF58476D1CE4E5B9 % 2 ^ 64 in
    let z'' = bit_xor z' (z' / 2 ^ 27) * 0x94D049BB133111EB % 2 ^ 64 in
    bit_xor z'' (z'' / 2 ^ 31) % (cw_max + 1)

pub data Channel : Type 0 where
  clear busy : Channel

pub data Step : Type 0 where
  wait : ℕ → Step
  transmit force : Step

pub record Report : Type 0 where
  pub senses : ℕ
  pub busy_senses : ℕ
  pub waited_us : ℕ
  pub forced : Bool

-- The fields `slot_us` and `budget_us` are a slot and the budget of this wait.
pub record Backoff : Type 0 where
  pub slot : ℕ
  pub budget : ℕ
  pub seed : ℕ
  pub need : ℕ
  pub clear_run : ℕ
  pub report : Report

unfoldable pub new : RadioConfig → ℕ → ℕ → Backoff
unfolding slot_us budget_us
new config payload_len seed = record {
  slot = slot_us config;
  budget = budget_us config payload_len;
  seed = seed;
  need = difs_slots + draw seed;
  clear_run = 0;
  report = record { senses = 0; busy_senses = 0; waited_us = 0; forced = false };
}

-- The end of `next`, behind an answer that does not let the packet go.
unfoldable pub wait_or_force : Backoff → Backoff × Step
wait_or_force b =
    if leb b.budget b.report.waited_us
    then (record b { report = record b.report { forced = true } }, force)
    else (
      record b {
        report = record b.report { waited_us = min (b.report.waited_us + b.slot) (2 ^ 32 - 1) };
      },
      wait b.slot,
    )

unfoldable pub heard : Backoff → Channel → Backoff
heard b clear = record b {
  clear_run = inc_u32 b.clear_run;
  report = record b.report { senses = inc_u32 b.report.senses };
}
heard b busy =
    let seed' : ℕ = (b.seed + 1) % 2 ^ 64 in
    record b {
      seed = seed';
      need = difs_slots + draw seed';
      clear_run = 0;
      report = record b.report {
        senses = inc_u32 b.report.senses;
        busy_senses = inc_u32 b.report.busy_senses;
      };
    }

unfoldable pub next : Backoff → Channel → Backoff × Step
unfolding wait_or_force heard
next b clear =
    let b' = heard b clear in if leb b'.need b'.clear_run then (b', transmit) else wait_or_force b'
next b busy = wait_or_force (heard b busy)
