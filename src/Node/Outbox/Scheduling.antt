-- ===== src/Node/Outbox/Scheduling.antt =====
-- `due` of core/src/node/outbox.rs: the next thing to do, oldest message first.
use oxinode.Prelude.{
  ℕ, ◌-◌, Bool, true, false, List, [], ◌∷◌, Option, none, some, if◌then◌else◌, ltb, leb, inc_u32,
}
use oxinode.Node.Delivery.{turn, path, no_path, no_proof, Delivery, queued, sent, failed}
use oxinode.Node.Peers.{Table, get}
use oxinode.Node.Outbox.{
  max_attempts, path_ask_ms, path_timeout_ms, never, add64, Sending, Due, ask, send, given_up,
  Outbox,
}

abbrev pub hand_out : Sending → Delivery → Sending × Due
hand_out s d =
    (record s { delivery = d; next_ms = never }, send s.message.hash s.message.destination)

abbrev pub ask_path : Sending → ℕ → Sending × Due
ask_path s now = (
  record s { delivery = queued path; asked_since_ms = now; next_ms = add64 now path_ask_ms },
  ask s.message.destination,
)

-- The loop of `due` at one message, by what the message waits for.
unfoldable pub due_turn : ℕ → Bool → Sending → Option (Sending × Due)
due_turn now known s =
    if ltb now s.next_ms
    then none
    else if known
    then some (hand_out s (queued turn))
    else some (ask_path s now)

unfoldable pub due_path : ℕ → Bool → Sending → Option (Sending × Due)
due_path now known s =
    if known
    then some (hand_out s (queued turn))
    else if leb path_timeout_ms (now - s.asked_since_ms)
    then some (
      record s { delivery = failed no_path },
      given_up s.message.hash s.message.destination no_path,
    )
    else if leb s.next_ms now
    then some (record s { next_ms = add64 now path_ask_ms }, ask s.message.destination)
    else none

unfoldable pub due_sent : ℕ → Bool → ℕ → Sending → Option (Sending × Due)
due_sent now known n s =
    if ltb now s.next_ms
    then none
    else if leb max_attempts n
    then some (
      record s { delivery = failed no_proof; next_ms = never },
      given_up s.message.hash s.message.destination no_proof,
    )
    else if known
    then some (hand_out s (sent n))
    else some (ask_path s now)

unfoldable pub due_in : Delivery → ℕ → Bool → Sending → Option (Sending × Due)
unfolding due_turn due_path due_sent
due_in (queued turn) now known s = due_turn now known s
due_in (queued path) now known s = due_path now known s
due_in (sent n) now known s = due_sent now known n s
due_in _ now known s = none

abbrev pub is_known : Table → Sending → Bool
is_known peers s = elim (get peers s.message.destination) [ none ↦ false | some p ↦ true ]

-- The loop at one message: an early return, or what the messages behind it give.
unfoldable pub or_later :
    Option (Sending × Due)
    → Sending
    → List Sending
    → List Sending × Option Due
    → List Sending × Option Due
or_later (some found) s rest later = (found.0 ∷ rest, some found.1)
or_later none s rest later = (s ∷ later.0, later.1)

-- The messages behind the loop, and what the loop returned.
unfoldable pub due_loop : ℕ → (Sending → Bool) → List Sending → List Sending × Option Due
unfolding due_in or_later
due_loop now known [] = ([], none)
due_loop now known (s ∷ rest) =
    or_later (due_in s.delivery now (known s) s) s rest (due_loop now known rest)

abbrev pub failures : Option Due → ℕ → ℕ
failures (some (given_up hash to why)) n = inc_u32 n
failures _ n = n

unfoldable pub due : Outbox → ℕ → Table → Outbox × Option Due
unfolding due_loop
due o now peers =
    let (kept', found) = due_loop now (is_known peers) o.kept in
    (record o { kept = kept'; failed_count = failures found o.failed_count }, found)
