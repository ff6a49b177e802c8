-- ===== src/Rnode/Air/Tests.antt =====
-- Packets cut and joined, and the theorems at concrete inputs.
use oxinode.Prelude.{
  ℕ, [], ◌∷◌, ◌≡◌, refl, true, none, some, Bytes, replicate, length-replicate, take, arith, ◌≤◌,
  length,
}
use oxinode.Prelude.Int.{pos, negsuc}
use oxinode.Rnode.Air.{
  Split, new_split, frames, header, Reassembler, new, Signal, mean, feed, is_stale,
}
use oxinode.Rnode.Air.Refine.{IsValid, Feeds, held, feed_refines}
use oxinode.Rnode.Air.RoundTrip.{Delivers, run, arrives, run-split_two, half}
use oxinode.Rnode.Air.View.{receive, fresh}

abbrev long : Bytes
long = replicate 300 7

abbrev out : Bytes
out = replicate 255 0

abbrev near : Signal
near = record { rssi_dbm = negsuc 59; snr_quarter_db = pos 40 }

abbrev far : Signal
far = record { rssi_dbm = negsuc 70; snr_quarter_db = negsuc 2 }

abbrev cut_long : Split
cut_long = record { head = header 5 true; packet = long }

abbrev short : Bytes
short = 1 ∷ 2 ∷ []

abbrev cut_short : Split
cut_short = record { head = 0x50; packet = short }

-- A first half with the same nibble, received long before.
abbrev holding : Reassembler
holding = record (new 1000) { pending = some (record { sequence = 5; signal = far; since_us = 7 }) }

holding-IsValid : IsValid holding
unfolding new
holding-IsValid = omega (arith, length-replicate {0} {A = ℕ} 508 0)

mean_of_two : mean near far ≡ record { rssi_dbm = negsuc 64; snr_quarter_db = pos 18 }
unfolding mean
mean_of_two = refl

room : 255 ≤ length out
room = omega (arith, length-replicate {0} {A = ℕ} 255 0)

feed_refines_example :
    Feeds 1000 (feed holding short near 1500) (receive 1000 (held holding) short near 1500)
unfolding new
feed_refines_example = feed_refines holding short near 1500 holding-IsValid (omega arith)

run-split_two_example :
    (frames cut_long ≡ 2)
    × Delivers
        (run holding (arrives cut_long out 0 near 2000 ∷ []))
        (some (half 5 near 2000 (take 254 long)), [])
    × Delivers
        (run holding (arrives cut_long out 0 near 2000 ∷ arrives cut_long out 1 far 3000 ∷ []))
        (none, record { payload = long; signal = mean near far } ∷ [])
unfolding new_split new fresh is_stale replicate
run-split_two_example =
    run-split_two holding-IsValid long 5 (omega arith) refl out room near far 2000 3000
      (omega arith) tt (omega arith)
