-- ===== src/Node/Outbox/Resuming.antt =====
-- A host arrives and leaves again: `hold`, then `resume`.
use oxinode.Prelude.{
  Bytes, some, ◌<◌, ℕ, ◌+◌, ◌-◌, ◌^◌, true, false, List, [], ◌∷◌, map, ◌≡◌, refl, ap₂, arith,
  if◌then◌else◌, inl, inr, Bool-cases,
}
use oxinode.Prelude.Finds.{count}
use oxinode.Node.Delivery.{
  Wait, turn, host, Delivery, queued, sent, delivered, failed, in_flight, is_held, with_radio,
}
use oxinode.Node.Outbox.{Sending, Outbox, send}
use oxinode.Node.Outbox.Scheduling.{due_in, due_turn}
use oxinode.Node.Outbox.Attempts.{went_by}
use oxinode.Node.Outbox.Holding.{hold, resume, hold_one, resume_one}

-- A message on its way, queued again at `now`.
abbrev pub queued_again : ℕ → Sending → Sending
queued_again now s =
    if in_flight s.delivery then record s { delivery = queued turn; next_ms = now } else s

landed : (d : Delivery) → in_flight d ≡ false → is_held d ≡ false
unfolding in_flight is_held
landed delivered h = refl
landed (failed why) h = refl
landed (queued w) h = cc
landed (sent n) h = cc

module _ (now : ℕ) (why : Wait) (held : is_held (queued why) ≡ true) where
  one :
      (s : Sending)
      → (resume_one now (hold_one why s) ≡ queued_again now s)
        × (is_held (hold_one why s).delivery ≡ in_flight s.delivery)
  one s = elim (Bool-cases (in_flight s.delivery)) [
    | inl up ↦ rw (up, held) (refl, refl)
    | inr down ↦ rw (down, landed s.delivery down) (refl, refl)
  ]

  all :
      (xs : List Sending)
      → (map (resume_one now) (map (hold_one why) xs) ≡ map (queued_again now) xs)
        × (count (λ s. is_held s.delivery) (map (hold_one why) xs)
            ≡ count (λ s. in_flight s.delivery) xs)
  unfolding count
  all [] = (refl, refl)
  all (s ∷ xs) =
      let (rest, counted) = all xs in
      let (e, held_too) = one s in
      (ap₂ (λ x ys. x ∷ ys) e rest, ap₂ (λ b n. if b then n + 1 else n) held_too counted)

  -- A host that comes and goes, or a configuration that goes and comes, leaves every message on its
  -- way queued for its turn at the time of the return, whatever it waited for before, and all others
  -- as they were; as many are queued again as were held.
  pub resume-hold :
      (o : Outbox)
      → ((resume (hold o why).0 now).0.kept ≡ map (queued_again now) o.kept)
        × ((resume (hold o why).0 now).1 ≡ (hold o why).1)
  unfolding hold resume
  resume-hold o = all o.kept

-- A message that went `n` times and is held and resumed is sent again if its recipient is known, `due`
-- answering with its hash and destination, for an attempt `n + 1`, also when `n` is 3, the most attempts
-- a message may have.
pub due_in-resume :
    (s : Sending) (n now then_ airtime : ℕ) (packet : Bytes)
    → s.delivery ≡ sent n
    → s.attempts ≡ n
    → n < 255
    → let s' = resume_one now (hold_one host s) in
      let out : Sending = record s' { next_ms = 2 ^ 64 - 1 } in
      (due_in s'.delivery now true s' ≡ some (out, send s.message.hash s.message.destination))
      × ((went_by (some airtime) packet then_ out).delivery ≡ sent (n + 1))
unfolding due_in due_turn went_by in_flight is_held with_radio
due_in-resume s n now then_ airtime packet d a h = rw (d, a) (ground arith, ground arith)
