-- ===== src/Pad/Tests.antt =====
-- The pad on presses of known times.
use oxinode.Prelude.{true, false, List, [], ◌∷◌, some, ◌≡◌, refl, arith}
use oxinode.Prelude.Finds.{All}
use oxinode.Pad.{
  Key, Event, press, repeat, switch_level, switch_deadline, switch_poll, debounce, repeat_due,
  level, set_switch, index, repeats, new, poll, poll_keys, deadline, deadline_of,
}
use oxinode.Pad.Deadline.{poll-quiet}
use oxinode.Pad.Held.{Step, reports, polls, after, Genuine, poll-Genuine}

-- Up goes down at 0, and bounces once, 3 ms later.
abbrev bounced : List Step
bounced = reports Key.up true 0 ∷ reports Key.up false 2 ∷ reports Key.up true 3 ∷ []

abbrev held : List Step
held = reports Key.up true 0 ∷ reports Key.up false 2 ∷ reports Key.up true 3 ∷ polls 13 ∷ []

abbrev up_press : Event
up_press = record { key = Key.up; kind = press; bounces = 2; settle_ms = 3 }

abbrev up_repeat : Event
up_repeat = record { key = Key.up; kind = repeat; bounces = 0; settle_ms = 0 }

deadline-bounced : deadline (after bounced new) ≡ some 13
unfolding deadline deadline_of switch_deadline after level switch_level set_switch index new
deadline-bounced = refl

poll-bounced : (poll 13 (after bounced new)).1 ≡ up_press ∷ []
unfolding poll poll_keys switch_poll debounce repeat_due repeats after level switch_level set_switch
    index new
poll-bounced = refl

poll-held : (poll 413 (after held new)).1 ≡ up_repeat ∷ []
unfolding poll poll_keys switch_poll debounce repeat_due repeats after level switch_level set_switch
    index new
poll-held = refl

early_poll : (poll 412 (after held new)).1 ≡ []
unfolding poll poll_keys switch_poll debounce repeat_due repeats after level switch_level set_switch
    index new
early_poll = refl

poll-quiet_example : poll 12 (after bounced new) ≡ (after bounced new, [])
unfolding deadline deadline_of switch_deadline after level switch_level set_switch index new
poll-quiet_example = poll-quiet 12 (after bounced new) (omega arith)

poll-Genuine_example : All (Genuine (poll 413 (after held new)).0) (poll 413 (after held new)).1
poll-Genuine_example = poll-Genuine held 413
