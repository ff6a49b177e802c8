-- ===== src/Node/Outbox/Drain.antt =====
-- `due` called until it has nothing more to say.
use oxinode.Prelude.{
  subst, ℕ, zero, suc, ◌+◌, ◌≤◌, ◌<◌, List, [], Option, none, some, length, ◌≡◌, refl, ap, sym, ◌∙◌,
  arith,
}
use oxinode.Prelude.Finds.{count, count-le_length}
use oxinode.Node.Peers.{Table}
use oxinode.Node.Outbox.{Sending, Due, Outbox, path_ask_ms, never}
use oxinode.Node.Outbox.Fates.{Fates}
use oxinode.Node.Outbox.Scheduling.{due}
use oxinode.Node.Outbox.Turns.{
  is_ready, Counted, with_answer, due-falls, last_list, full_log, loop-Leads, count-ends,
  list-Fates,
}

-- `due` called `k` times at `now`, and what it answered.
unfoldable pub calls : ℕ → Outbox → ℕ → Table → Outbox × List Due
calls zero o now peers = (o, [])
calls (suc k) o now peers =
    let (next, d) = due o now peers in
    let (last, answers) = calls k next now peers in (last, with_answer d answers)

module _ (now : ℕ) (peers : Table) (h : now + path_ask_ms < never) where
  fewer :
      {A : Type 0} (d : Option A) (before after k : ℕ)
      → Counted d before after
      → before ≤ suc k
      → after ≤ k
  fewer none before after k (z, z') le = omega arith
  fewer (some d) before after k e le = omega arith

  -- Enough calls reach the end, and leave nothing ready.
  abbrev Ends : List Sending → Outbox × List Due → Type 0
  Ends xs (o', answers) =
      (count (is_ready now peers) o'.kept ≡ 0)
      × (o'.kept ≡ last_list now peers h xs)
      × (answers ≡ full_log now peers h xs)

  calls-Ends :
      (k : ℕ) (o : Outbox)
      → count (is_ready now peers) o.kept ≤ k
      → Ends o.kept (calls k o now peers)
  unfolding calls due
  calls-Ends zero o le =
      let none_left : count (is_ready now peers) o.kept ≡ 0 = omega arith in
      let (ends, logs) = count-ends now peers h o.kept none_left in (none_left, ends, logs)
  calls-Ends (suc k) o le =
      let (o', d) = due o now peers in
      let (ends, logs) = loop-Leads now peers h o.kept in
      let (none_left, kept, answers) =
        calls-Ends k o' (fewer d _ _ k (due-falls now peers h o) le) in
      (none_left, kept ∙ ends, ap (with_answer d) answers ∙ logs)

  zero-none :
      {A : Type 0} (d : Option A) (before after : ℕ)
      → Counted d before after
      → before ≡ 0
      → d ≡ none
  zero-none none before after c z = refl
  zero-none (some d) before after c z = absurd (omega arith)

  -- As long as the clock is more than twenty seconds from its end, `due` called at one time as often
  -- as there are messages answers nothing when it is called again. By then each message has had its
  -- turn, and the answers stand in the order of the messages: one for which nothing was answered is
  -- as it was, and its time has not come; one that is sent was ready, with a known key, and the answer
  -- has its hash and destination; one whose path is asked for was ready, with no known key, and is to
  -- be asked for again twenty seconds later; one that is given up had waited a minute for a path, or
  -- had gone three times.
  pub calls-Settled :
      (o : Outbox)
      → let (o', answers) = calls (length o.kept) o now peers in
        ((due o' now peers).1 ≡ none) × Fates now peers o.kept o'.kept answers
  calls-Settled o =
      let (o', answers) = calls (length o.kept) o now peers in
      let (none_left, kept, log) =
        calls-Ends (length o.kept) o (count-le_length (is_ready now peers) o.kept) in
      (
        zero-none (due o' now peers).1 _ _ (due-falls now peers h o') none_left,
        subst (λ ys. Fates now peers o.kept ys answers) (sym kept)
            (subst (Fates now peers o.kept (last_list now peers h o.kept)) (sym log)
              (list-Fates now peers h o.kept)),
      )
