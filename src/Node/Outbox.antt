-- ===== src/Node/Outbox.antt =====
-- core/src/node/outbox.rs: the messages that the board sends, and where each has got to.
pub mod Scheduling
pub mod Attempts
pub mod Holding
pub mod Fates
pub mod Turns
pub mod Drain
pub mod Room
pub mod Resuming
pub mod Named
pub mod Proofs
pub mod Waits
mod Tests
use oxinode.Prelude.{
  ℕ, ◌+◌, ◌-◌, ◌*◌, ◌/◌, ◌%◌, ◌^◌, min, max, Bool, true, false, not, ◌&&◌, List, [], ◌∷◌, ◌++◌, map,
  Option, none, some, if◌then◌else◌, ltb, leb, ◌==◌, Bytes, length, take, inc_u32,
}
use oxinode.Prelude.Finds.{same, find, change_first, remove_first, count}
use oxinode.Node.Delivery.{
  Wait, turn, path, host, idle, Failure, no_path, no_proof, Delivery, queued, sent, delivered,
  failed, is_delivered, is_failed, in_flight, is_held, with_radio,
}
use oxinode.Node.Peers.{Table, Peer, get}

abbrev pub max_attempts : ℕ
max_attempts = 3

abbrev pub retry_ms : ℕ
retry_ms = 20000

abbrev pub path_ask_ms : ℕ
path_ask_ms = 20000

abbrev pub path_timeout_ms : ℕ
path_timeout_ms = 60000

abbrev pub again_ms : ℕ
again_ms = 1000

-- `u64::MAX`.
abbrev pub never : ℕ
never = 2 ^ 64 - 1

-- Sums of `u64`, which wrap.
abbrev pub add64 : ℕ → ℕ → ℕ
add64 a b = (a + b) % 2 ^ 64

-- `announce::gap_ms`: `CAP_PERCENT` is 2.
unfoldable pub gap_ms : ℕ → ℕ
gap_ms airtime_us = airtime_us * 50 / 1000

unfoldable pub wait_ms : ℕ → ℕ → ℕ
unfolding gap_ms
wait_ms attempt airtime_us = max retry_ms (gap_ms airtime_us) * 2 ^ min (attempt - 1) 8 % 2 ^ 64

unfoldable pub give_up_ms : ℕ → ℕ
unfolding wait_ms
give_up_ms airtime_us =
    add64 (add64 (wait_ms 1 airtime_us) (wait_ms 2 airtime_us)) (wait_ms 3 airtime_us)

-- `Outbound` of core/src/node/lxmf.rs.
pub record Outbound : Type 0 where
  pub hash : Bytes
  pub destination : Bytes
  pub plaintext : Bytes

pub record Sending : Type 0 where
  pub message : Outbound
  pub content : Bytes
  pub at_ms : ℕ
  pub delivery : Delivery
  pub attempts : ℕ
  pub next_ms : ℕ
  pub asked_since_ms : ℕ
  pub packets : List Bytes

pub data Due : Type 0 where
  ask : Bytes → Due
  send : Bytes → Bytes → Due
  given_up : Bytes → Bytes → Failure → Due

pub record Outbox : Type 0 where
  pub kept : List Sending
  pub delivered_count : ℕ
  pub failed_count : ℕ

abbrev pub capacity : ℕ
capacity = 8

abbrev pub or_else {ℓ} : {A : Type ℓ} → Option A → Option A → Option A
or_else none y = y
or_else (some x) y = some x

-- The messages with room for one more: the oldest delivered one goes, then the oldest failed one.
unfoldable pub make_room : List Sending → Option (List Sending)
make_room kept =
    if length kept == capacity
    then or_else (remove_first (λ s. is_delivered s.delivery) kept)
        (remove_first (λ s. is_failed s.delivery) kept)
    else some kept

abbrev pub wait_of : Option Wait → Wait
wait_of none = turn
wait_of (some w) = w

abbrev pub due_from : Option Wait → ℕ → ℕ
due_from none now = now
due_from (some w) now = never

abbrev pub written : Outbound → Bytes → ℕ → Option Wait → Sending
written message content now held = record {
  message = message;
  content = content;
  at_ms = now;
  delivery = queued (wait_of held);
  attempts = 0;
  next_ms = due_from held now;
  asked_since_ms = now;
  packets = [];
}

-- `queue`: nothing for `Err(Refused::Full)`, which leaves the outbox as it was.
unfoldable pub queue : Outbox → Outbound → Bytes → ℕ → Option Wait → Option Outbox
unfolding make_room
queue o message content now held = elim (make_room o.kept) [
  | none ↦ none
  | some kept ↦ some (record o { kept = kept ++ written message content now held ∷ [] })
]
