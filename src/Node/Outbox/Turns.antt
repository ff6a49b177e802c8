-- ===== src/Node/Outbox/Turns.antt =====
-- One turn of `due`: how many messages are left to do something for, and what they end as.
use oxinode.Prelude.{
  subst, ℕ, ◌+◌, ◌<◌, Bool, true, false, List, [], ◌∷◌, Option, none, some, ◌≡◌, refl, ap, ap₂, sym,
  ◌∙◌, arith, if◌then◌else◌, inl, inr,
}
use oxinode.Prelude.Finds.{count, count-skip, count-ne_zero, Option-cases}
use oxinode.Node.Delivery.{turn, path, host, idle, Delivery, queued, sent, delivered, failed}
use oxinode.Node.Peers.{Table, get}
use oxinode.Node.Outbox.{Sending, Due, Outbox, path_ask_ms, never}
use oxinode.Node.Outbox.Fates.{FateOf, Fates, has_key, due_in-Fate}
use oxinode.Node.Outbox.Scheduling.{
  due, due_loop, due_in, due_turn, due_path, due_sent, or_later, is_known,
}

abbrev found : Sending → ℕ → Bool → Option (Sending × Due)
found s now known = due_in s.delivery now known s

-- Behind what is done for a message nothing is left to do for it at that time.
abbrev Done : ℕ → Bool → Option (Sending × Due) → Sending → Type 0
Done now known none s = Unit
Done now known (some (s', d)) s = (found s' now known ≡ none) × (s'.message ≡ s.message)

turn-Done :
    (now : ℕ) (known : Bool) (s : Sending)
    → now + path_ask_ms < never
    → Done now known (due_turn now known s) s
unfolding due_turn due_in due_path
turn-Done now true s h = ground arith
turn-Done now false s h = ground arith

path-Done :
    (now : ℕ) (known : Bool) (s : Sending)
    → s.delivery ≡ queued path
    → now + path_ask_ms < never
    → Done now known (due_path now known s) s
unfolding due_turn due_in due_path
path-Done now true s e h = ground arith
path-Done now false s e h = rw e (ground arith)

sent-Done :
    (now : ℕ) (known : Bool) (n : ℕ) (s : Sending)
    → now + path_ask_ms < never
    → Done now known (due_sent now known n s) s
unfolding due_sent due_in due_path
sent-Done now true n s h = ground arith
sent-Done now false n s h = ground arith

due_in-Done :
    (d : Delivery) (now : ℕ) (known : Bool) (s : Sending)
    → s.delivery ≡ d
    → now + path_ask_ms < never
    → Done now known (due_in d now known s) s
unfolding due_in
due_in-Done (queued turn) now known s e h = turn-Done now known s h
due_in-Done (queued path) now known s e h = path-Done now known s e h
due_in-Done (sent n) now known s e h = sent-Done now known n s h
due_in-Done (queued host) now known s e h = tt
due_in-Done (queued idle) now known s e h = tt
due_in-Done delivered now known s e h = tt
due_in-Done (failed why) now known s e h = tt

-- An answer, if there is one, before the others.
abbrev pub with_answer : Option Due → List Due → List Due
with_answer none log = log
with_answer (some d) log = d ∷ log

abbrev answered {ℓ} : {A : Type ℓ} → Option A → Bool
answered none = false
answered (some a) = true

-- What the loop answers, by how many messages there is something to do for.
abbrev pub Counted {ℓ} : {A : Type ℓ} → Option A → ℕ → ℕ → Type 0
Counted none before after = (before ≡ 0) × (after ≡ 0)
Counted (some d) before after = before ≡ after + 1

-- Whether there is something to do for a message.
abbrev pub is_ready : ℕ → Table → Sending → Bool
is_ready now peers s = answered (due_in s.delivery now (is_known peers s) s)

module _ (now : ℕ) (peers : Table) (h : now + path_ask_ms < never) where
  abbrev ready : Sending → Bool
  ready = is_ready now peers

  -- What was done for a message leaves nothing to do for it, its key known or not.
  handled-ready :
      (s s' : Sending) (d : Due)
      → due_in s.delivery now (is_known peers s) s ≡ some (s', d)
      → ready s' ≡ false
  handled-ready s s' d e =
      let done : Done now (is_known peers s) (some (s', d)) s =
        subst (λ r. Done now (is_known peers s) r s) e
          (due_in-Done s.delivery now (is_known peers s) s refl h) in
      ap (λ m. answered (due_in s'.delivery now (answered (get peers m.destination)) s')) done.1
      ∙ ap answered done.0

  -- The loop at a message, by what is to be done for it.
  abbrev at_one : Option (Sending × Due) → Sending → List Sending → List Sending × Option Due
  at_one r s rest = or_later r s rest (due_loop now (is_known peers) rest)

  abbrev Falls : List Sending × Option Due → ℕ → Type 0
  Falls (xs', d) before = Counted d before (count ready xs')

  loop_lem : (xs : List Sending) → Falls (due_loop now (is_known peers) xs) (count ready xs)
  unfolding due_loop count or_later
  loop_lem [] = (refl, refl)
  loop_lem (s ∷ rest) =
      let n : ℕ = count ready rest in
      let Goal : Option (Sending × Due) → Type 0 =
        λ r. Falls (at_one r s rest) (if answered r then n + 1 else n) in
      elim (Option-cases (due_in s.delivery now (is_known peers s) s)) [
        | inl e ↦ subst Goal (sym e) (
            subst (Counted _ n)
              (sym (count-skip ready s (due_loop now (is_known peers) rest).0 (ap answered e)))
              (loop_lem rest))
        | inr (f, e) ↦
            subst Goal (sym e)
              (ap (λ k. k + 1) (sym (count-skip ready f.0 rest (handled-ready s f.0 f.1 e))))
      ]

  -- The messages as `due` leaves them in the end, and all that it answers for them.
  next_of : Option (Sending × Due) → Sending → Sending
  next_of none s = s
  next_of (some found) s = found.0

  log_of : Option (Sending × Due) → List Due → List Due
  log_of none log = log
  log_of (some found) log = found.1 ∷ log

  pub last_list : List Sending → List Sending
  unfolding next_of
  last_list [] = []
  last_list (s ∷ rest) = next_of (due_in s.delivery now (is_known peers s) s) s ∷ last_list rest

  pub full_log : List Sending → List Due
  unfolding log_of
  full_log [] = []
  full_log (s ∷ rest) = log_of (due_in s.delivery now (is_known peers s) s) (full_log rest)

  -- A turn of the loop adds the answer that it gives to those that are left, and changes no end.
  abbrev Leads : List Sending × Option Due → List Sending → List Due → Type 0
  Leads (xs', d) end log = (last_list xs' ≡ end) × (with_answer d (full_log xs') ≡ log)

  ready-none : (s : Sending) → ready s ≡ false → due_in s.delivery now (is_known peers s) s ≡ none
  ready-none s h = elim (Option-cases (due_in s.delivery now (is_known peers s) s)) [
    | inl e ↦ e
    | inr (f, e) ↦ let bad : true ≡ false = sym (ap answered e) ∙ h in cc
  ]

  pub loop-Leads :
      (xs : List Sending) → Leads (due_loop now (is_known peers) xs) (last_list xs) (full_log xs)
  unfolding due_loop last_list full_log next_of log_of or_later
  loop-Leads [] = (refl, refl)
  loop-Leads (s ∷ rest) =
      let Goal : Option (Sending × Due) → Type 0 =
        λ r. Leads (at_one r s rest) (next_of r s ∷ last_list rest) (log_of r (full_log rest)) in
      elim (Option-cases (due_in s.delivery now (is_known peers s) s)) [
        | inl e ↦
            let (ends, logs) = loop-Leads rest in
            let (rest', d) = due_loop now (is_known peers) rest in
            subst Goal (sym e) (
              ap₂ (λ x ys. x ∷ ys) (ap (λ r. next_of r s) e) ends,
              ap (λ r. with_answer d (log_of r (full_log rest'))) e ∙ logs,
            )
        | inr (f, e) ↦
            let quiet = ready-none f.0 (handled-ready s f.0 f.1 e) in
            subst Goal (sym e) (
              ap (λ r. next_of r f.0 ∷ last_list rest) quiet,
              ap (λ r. f.1 ∷ log_of r (full_log rest)) quiet,
            )
      ]

  -- With nothing ready the list is as it will stay.
  pub count-ends :
      (xs : List Sending) → count ready xs ≡ 0 → (xs ≡ last_list xs) × ([] ≡ full_log xs)
  unfolding count last_list full_log next_of log_of
  count-ends [] c = (refl, refl)
  count-ends (s ∷ rest) c = elim (Option-cases (due_in s.delivery now (is_known peers s) s)) [
    | inl e ↦
        let (ends, logs) = count-ends rest (sym (count-skip ready s rest (ap answered e)) ∙ c) in
        rw e (ap (λ ys. s ∷ ys) ends, logs)
    | inr (f, e) ↦ absurd (count-ne_zero ready s rest (ap answered e) c)
  ]

  pub list-Fates : (xs : List Sending) → Fates now peers xs (last_list xs) (full_log xs)
  unfolding Fates last_list full_log next_of log_of
  list-Fates [] = refl
  list-Fates (s ∷ rest) =
      let known : Bool = has_key peers s in
      let r = due_in s.delivery now known s in
      let fate : FateOf now known s.delivery s r = due_in-Fate s.delivery now known s refl h in
      let Goal : Option (Sending × Due) → Type 0 =
        λ r. Fates now peers (s ∷ rest) (next_of r s ∷ last_list rest) (log_of r (full_log rest)) in
      elim (Option-cases r) [
        | inl e ↦
            subst Goal (sym e)
              (inl ((refl, subst (FateOf now known s.delivery s) e fate), list-Fates rest))
        | inr (f, e) ↦ subst Goal (sym e) (
            inr (
              f.1,
              full_log rest,
              refl,
              subst (FateOf now known s.delivery s) e fate,
              list-Fates rest,
            ))
      ]

  pub due-falls :
      (o : Outbox)
      → let (o', d) = due o now peers in Counted d (count ready o.kept) (count ready o'.kept)
  unfolding due
  due-falls o = loop_lem o.kept
