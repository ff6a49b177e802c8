-- ===== src/Node/Outbox/Room.antt =====
-- What `queue` lets go to make room.
use oxinode.Prelude.{
  ℕ, ◌+◌, ◌≤◌, Bool, true, false, List, [], ◌∷◌, ◌++◌, Option, none, some, length, length-append,
  ◌≡◌, refl, ap, sym, ◌∙◌, arith, ◌==◌, inl, inr, Bytes, Bool-cases,
}
use oxinode.Prelude.Finds.{
  All, filter, filter-append, remove_first, remove_first-none, remove_first-some, Option-cases,
}
use oxinode.Node.Delivery.{
  Wait, Delivery, queued, sent, delivered, failed, is_delivered, is_failed, in_flight,
}
use oxinode.Node.Outbox.{Sending, Outbox, Outbound, capacity, make_room, queue, written, or_else}

-- A message that is not delivered and not failed.
abbrev pub flying : Sending → Bool
flying s = in_flight s.delivery

delivered-down : (s : Sending) → is_delivered s.delivery ≡ true → flying s ≡ false
unfolding is_delivered in_flight
delivered-down s h = down s.delivery h
  where
    down : (d : Delivery) → is_delivered d ≡ true → in_flight d ≡ false
    down delivered h = refl
    down (failed why) h = refl
    down (queued w) h = cc
    down (sent n) h = cc

failed-down : (s : Sending) → is_failed s.delivery ≡ true → flying s ≡ false
unfolding is_failed in_flight
failed-down s h = down s.delivery h
  where
    down : (d : Delivery) → is_failed d ≡ true → in_flight d ≡ false
    down delivered h = refl
    down (failed why) h = refl
    down (queued w) h = cc
    down (sent n) h = cc

up : (d : Delivery) → is_delivered d ≡ false → is_failed d ≡ false → in_flight d ≡ true
unfolding is_delivered is_failed in_flight
up delivered a b = cc
up (failed why) a b = cc
up (queued w) a b = refl
up (sent n) a b = refl

up-All :
    (xs : List Sending)
    → All (λ s. is_delivered s.delivery ≡ false) xs
    → All (λ s. is_failed s.delivery ≡ false) xs
    → All (λ s. flying s ≡ true) xs
up-All [] a b = tt
up-All (s ∷ xs) (a, as_) (b, bs) = (up s.delivery a b, up-All xs as_ bs)

-- What `make_room` answers: every message flies and the outbox is full, or there is room and what
-- flies is kept.
abbrev Roomy : List Sending → Option (List Sending) → Type 0
Roomy kept none = (length kept ≡ capacity) × All (λ s. flying s ≡ true) kept
Roomy kept (some kept') = (length kept' + 1 ≤ capacity) × (filter flying kept ≡ filter flying kept')

removed-Roomy :
    (kept : List Sending)
    → length kept ≡ capacity
    → Roomy kept (
        or_else
          (remove_first (λ s. is_delivered s.delivery) kept)
          (remove_first (λ s. is_failed s.delivery) kept))
removed-Roomy kept full = elim (Option-cases (remove_first (λ s. is_delivered s.delivery) kept)) [
  | inr (ys, e) ↦
      let (size, same_kept) =
        remove_first-some (λ s. is_delivered s.delivery) flying kept ys delivered-down e in
      rw e (omega arith, same_kept)
  | inl none_delivered ↦ elim (Option-cases (remove_first (λ s. is_failed s.delivery) kept)) [
    | inr (ys, e) ↦
        let (size, same_kept) =
          remove_first-some (λ s. is_failed s.delivery) flying kept ys failed-down e in
        rw (none_delivered, e) (omega arith, same_kept)
    | inl none_failed ↦
        rw (none_delivered, none_failed)
          (
            full,
            up-All kept (remove_first-none _ kept none_delivered)
                (remove_first-none _ kept none_failed),
          )
  ]
]

make_room-Roomy : (kept : List Sending) → length kept ≤ capacity → Roomy kept (make_room kept)
unfolding make_room
make_room-Roomy kept h = elim (Bool-cases (length kept == capacity)) [
  | inl full ↦ rw full (removed-Roomy kept (ground arith))
  | inr room ↦ rw room (ground arith, refl)
]

-- What `queue` answers for a message.
abbrev pub Queued : List Sending → Sending → Option Outbox → Type 0
Queued kept new_one none = (length kept ≡ capacity) × All (λ s. flying s ≡ true) kept
Queued kept new_one (some o) =
    (length o.kept ≤ capacity) × (filter flying o.kept ≡ filter flying kept ++ new_one ∷ [])

written-Queued :
    (o : Outbox) (message : Outbound) (content : Bytes) (now : ℕ) (held : Option Wait)
    (room : Option (List Sending))
    → Roomy o.kept room
    → Queued o.kept (written message content now held) (elim room [
      | none ↦ none
      | some kept ↦ some (record o { kept = kept ++ written message content now held ∷ [] })
    ])
unfolding in_flight filter
written-Queued o message content now held none r = r
written-Queued o message content now held (some kept) (size, same_kept) =
    let new_one : Sending = written message content now held in
    (
      omega (arith, length-append kept (new_one ∷ [])),
      filter-append flying kept (new_one ∷ []) ∙ ap (λ xs. xs ++ new_one ∷ []) (sym same_kept),
    )

-- A message is refused only if the outbox is full and every message in it is still on its way; it
-- is taken otherwise, and then the outbox keeps to its capacity, and the messages on their way are
-- those from before, in their order, and the new one behind them.
pub queue-Queued :
    (o : Outbox) (message : Outbound) (content : Bytes) (now : ℕ) (held : Option Wait)
    → length o.kept ≤ capacity
    → Queued o.kept (written message content now held) (queue o message content now held)
unfolding queue
queue-Queued o message content now held h =
    written-Queued o message content now held (make_room o.kept) (make_room-Roomy o.kept h)
