-- ===== src/Rnode/Protocol/Persist.antt =====
-- When the store is written to flash: the timer of the loop in src/bin/rnode.rs around the protocol.
-- Times are milliseconds.
use oxinode.Prelude.{
  ℕ, ◌+◌, ◌-◌, ◌≤◌, Bool, true, false, List, [], ◌∷◌, Option, none, some, if◌then◌else◌, ltb, ◌≡◌,
  ◌⊎◌, inl, inr, refl, sym, subst, ◌∙◌, arith, Bool-cases,
}
use oxinode.Prelude.Finds.{All}
use oxinode.Rnode.Store.Record.{DeviceStore}
use oxinode.Rnode.Protocol.{
  Protocol, Action, reconfigure, standby, nothing, persist, transmit, restart, redraw,
  report_display,
}
use oxinode.Rnode.Protocol.Radio.{Event, after}
use oxinode.Rnode.Protocol.Lock.{must_save, after-saved}

abbrev persist_idle_ms : ℕ
persist_idle_ms = 250

-- The device, what the flash holds, and since when the two may differ.
pub record Board : Type 0 where
  pub device : Protocol
  pub flash : DeviceStore
  pub dirty_since : Option ℕ

-- `commit`: the driver of the flash says whether the record was written.
unfoldable pub commit : Bool → Board → Board
commit written b = record b { flash = if written then b.device.store else b.flash }

abbrev is_restart : Action → Bool
is_restart restart = true
is_restart reconfigure = false
is_restart standby = false
is_restart nothing = false
is_restart persist = false
is_restart (transmit payload) = false
is_restart redraw = false
is_restart report_display = false

abbrev noted : Bool → ℕ → Option ℕ → Option ℕ
noted true now since = some now
noted false now since = since

-- An event that the loop takes. A restart that the host asks for writes at once; a run goes on past it
-- as if the board had not started again.
unfoldable pub takes : Event → (now : ℕ) → (written : Bool) → Board → Board
unfolding after must_save commit
takes e now written b =
    let next : Board = record b {
      device = (after e b.device).0;
      dirty_since = noted (must_save e b.device) now b.dirty_since;
    } in
    if is_restart (after e b.device).1 then commit written next else next

abbrev settle_since : Option ℕ → (now : ℕ) → (written : Bool) → Board → Board
settle_since none now written b = b
settle_since (some since) now written b =
    if ltb persist_idle_ms (now - since)
    then record (commit written b) { dirty_since = none }
    else b

-- The test of the timer, on every turn of the loop.
unfoldable pub settle : (now : ℕ) → (written : Bool) → Board → Board
unfolding commit
settle now written b = settle_since b.dirty_since now written b

pub data Step : Type 0 where
  event : Event → (now : ℕ) → (written : Bool) → Step
  turns : (now : ℕ) → (written : Bool) → Step

unfoldable pub run : List Step → Board → Board
unfolding takes settle
run [] b = b
run (event e now written ∷ steps) b = run steps (takes e now written b)
run (turns now written ∷ steps) b = run steps (settle now written b)

-- The writes of a step, if there are any, succeed.
abbrev pub Writes : Step → Type 0
Writes (event e now written) = written ≡ true
Writes (turns now written) = written ≡ true

-- The flash holds the store, or the timer runs.
abbrev pub IsSaved : Board → Type 0
IsSaved b = (b.flash ≡ b.device.store) ⊎ ((since : ℕ) × (b.dirty_since ≡ some since))

commit-saved :
    (written : Bool) (b : Board) → written ≡ true → (commit written b).flash ≡ b.device.store
unfolding commit
commit-saved true b h = refl
commit-saved false b h = cc

takes-IsSaved :
    (e : Event) (now : ℕ) (written : Bool) (b : Board)
    → written ≡ true
    → IsSaved b
    → IsSaved (takes e now written b)
unfolding takes commit
takes-IsSaved e now written b w saved =
    let marked : Bool → Board =
      λ m. record b { device = (after e b.device).0; dirty_since = noted m now b.dirty_since } in
    let still : (m : Bool) → must_save e b.device ≡ m → IsSaved (marked m) = λ m.
      elim m as (λ k. must_save e b.device ≡ k → IsSaved (marked k)) [
        | true ↦ λ h. inr (now, refl)
        | false ↦ λ h. elim saved [
          | inl same ↦ inl (same ∙ sym (after-saved e b.device h))
          | inr running ↦ inr running
        ]
      ] in
    let next : Board = marked (must_save e b.device) in
    let Goal : Bool → Type 0 = λ r. IsSaved (if r then commit written next else next) in
    elim (Bool-cases (is_restart (after e b.device).1)) [
      | inl again ↦ subst Goal (sym again) (inl (commit-saved written next w))
      | inr on_with ↦ subst Goal (sym on_with) (still (must_save e b.device) refl)
    ]

-- What a turn of the loop leaves: the flash holds the store, or the last change is younger than the
-- timer.
abbrev pub Settles : ℕ → Option ℕ → Board → Type 0
Settles now dirty_since b =
    (b.flash ≡ b.device.store) ⊎ ((since : ℕ) × (dirty_since ≡ some since) × (now ≤ since + 250))

settle_since-Settles :
    (since : Option ℕ) (now : ℕ) (written : Bool) (b : Board)
    → written ≡ true
    → (b.flash ≡ b.device.store) ⊎ ((t : ℕ) × (since ≡ some t))
    → Settles now since (settle_since since now written b)
unfolding commit
settle_since-Settles none now written b w (inl same) = inl same
settle_since-Settles none now written b w (inr (t, e)) = cc
settle_since-Settles (some since) now written b w saved =
    let Goal : Bool → Type 0 = λ r.
      Settles now (some since)
        (if r then record (commit written b) { dirty_since = none } else b) in
    elim (Bool-cases (ltb 250 (now - since))) [
      | inl late ↦ subst Goal (sym late) (inl (commit-saved written b w))
      | inr early ↦ subst Goal (sym early) (inr (since, refl, ground arith))
    ]

settle_since-IsSaved :
    (since : Option ℕ) (now : ℕ) (written : Bool) (b : Board)
    → written ≡ true
    → since ≡ b.dirty_since
    → IsSaved b
    → IsSaved (settle_since since now written b)
unfolding commit
settle_since-IsSaved none now written b w e saved = saved
settle_since-IsSaved (some since) now written b w e saved =
    let Goal : Bool → Type 0 =
      λ r. IsSaved (if r then record (commit written b) { dirty_since = none } else b) in
    elim (Bool-cases (ltb 250 (now - since))) [
      | inl late ↦ subst Goal (sym late) (inl (commit-saved written b w))
      | inr early ↦ subst Goal (sym early) saved
    ]

steps-IsSaved :
    (steps : List Step) (b : Board) → All Writes steps → IsSaved b → IsSaved (run steps b)
unfolding run settle
steps-IsSaved [] b w saved = saved
steps-IsSaved (event e now written ∷ steps) b (w, ws) saved =
    steps-IsSaved steps (takes e now written b) ws (takes-IsSaved e now written b w saved)
steps-IsSaved (turns now written ∷ steps) b (w, ws) saved =
    steps-IsSaved steps (settle now written b) ws
      (settle_since-IsSaved b.dirty_since now written b w refl saved)

-- Start with a flash that holds the store. Whatever the host, the panel, a phone and the radio do then, in
-- whatever order with the turns of the loop, and as long as the writes succeed: while no change is noted,
-- the flash holds the store; and behind a turn of the loop it does so too, unless a change was noted at most
-- 250 ms before.
pub run-Saved :
    (steps : List Step) (b : Board) (now : ℕ)
    → b.flash ≡ b.device.store
    → All Writes steps
    → IsSaved (run steps b) × Settles now (run steps b).dirty_since (settle now true (run steps b))
unfolding settle
run-Saved steps b now same w =
    let saved = steps-IsSaved steps b w (inl same) in
    (saved, settle_since-Settles (run steps b).dirty_since now true (run steps b) refl saved)
