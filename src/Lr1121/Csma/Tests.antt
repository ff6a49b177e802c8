-- ===== src/Lr1121/Csma/Tests.antt =====
-- A wait at concrete inputs.
use oxinode.Prelude.{◌+◌, [], none, true, false, replicate, length-replicate, ◌≡◌, ◌↔◌, arith}
use oxinode.Prelude.Int.{pos}
use oxinode.Lr1121.Config.{RadioConfig}
use oxinode.Lr1121.Csma.{clear, busy, next, new, transmit}
use oxinode.Lr1121.Csma.Budget.{still_waiting, still_waiting-new}
use oxinode.Lr1121.Csma.Difs.{begin, clears, asked, next-Reaches}

abbrev config : RadioConfig
config = record {
  frequency_hz = 915000000;
  bandwidth_hz = 125000;
  spreading_factor = 8;
  coding_rate = 5;
  tx_power_dbm = pos 14;
  preamble_symbols = 18;
  sync_word = 0x12;
  correct_reference = true;
  implicit_header = false;
  crc = true;
  invert_iq = false;
}

still_waiting-new_example : still_waiting (new config 100 7) (replicate 3335 busy) ≡ none
still_waiting-new_example =
    still_waiting-new config 100 7 (replicate 3335 busy) (omega (arith, length-replicate 3335 busy))

next-Reaches_example :
    ((next (new config 100 7) clear).1 ≡ transmit)
    ↔ ((clear ≡ clear) × (clears [] + 1 ≡ asked 7 []))
next-Reaches_example = next-Reaches config 100 7 clear (omega arith) begin
