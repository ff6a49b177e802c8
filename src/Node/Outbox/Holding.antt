-- ===== src/Node/Outbox/Holding.antt =====
-- `hold`, `resume` and `retry` of core/src/node/outbox.rs.
use oxinode.Prelude.{ℕ, Bool, ◌&&◌, map, Option, if◌then◌else◌, Bytes}
use oxinode.Prelude.Finds.{same, count}
use oxinode.Node.Delivery.{Wait, turn, queued, is_failed, in_flight, is_held}
use oxinode.Node.Outbox.{never, Sending, Outbox, wait_of, due_from}

abbrev pub hold_one : Wait → Sending → Sending
hold_one why s =
    if in_flight s.delivery then record s { delivery = queued why; next_ms = never } else s

unfoldable pub hold : Outbox → Wait → Outbox × ℕ
hold o why =
    (record o { kept = map (hold_one why) o.kept }, count (λ s. in_flight s.delivery) o.kept)

abbrev pub resume_one : ℕ → Sending → Sending
resume_one now s =
    if is_held s.delivery then record s { delivery = queued turn; next_ms = now } else s

unfoldable pub resume : Outbox → ℕ → Outbox × ℕ
resume o now =
    (record o { kept = map (resume_one now) o.kept }, count (λ s. is_held s.delivery) o.kept)

abbrev pub is_failed_to : Bytes → Sending → Bool
is_failed_to peer s = same s.message.destination peer && is_failed s.delivery

abbrev pub retry_one : Bytes → ℕ → Option Wait → Sending → Sending
retry_one peer now held s =
    if is_failed_to peer s
    then record s {
      delivery = queued (wait_of held);
      attempts = 0;
      next_ms = due_from held now;
      asked_since_ms = now;
    }
    else s

unfoldable pub retry : Outbox → Bytes → ℕ → Option Wait → Outbox × ℕ
retry o peer now held =
    (record o { kept = map (retry_one peer now held) o.kept }, count (is_failed_to peer) o.kept)
