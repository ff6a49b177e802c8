-- ===== src/Mode/Changes.antt =====
-- When the board becomes a host's RNode, and when it stops being one.
use oxinode.Prelude.{
  ℕ, ◌-◌, Bool, true, false, not, ◌&&◌, ◌||◌, ◌≡◌, refl, List, [], ◌∷◌, Option, none, some, leb,
  arith, ◌↔◌,
}
use oxinode.Rnode.Transport.{Transport}
use oxinode.Mode.{
  hold_ms, Seen, Change, host_arrived, host_left, Side, absent, since, update_side, Presence, host,
  mode, mode_of, has_host, change_of, is_some, update,
}

-- The changes that a board reports over a sequence of updates.
unfoldable pub changes : Presence → List (ℕ × Seen) → List Change
changes p [] = []
changes p ((now, seen) ∷ rest) =
    let (p', change) = update p now seen in
    let later = changes p' rest in elim change [ none ↦ later | some c ↦ c ∷ later ]

-- Changes that alternate, an arrival first if there is no host and a departure if there is one.
abbrev pub Alternates : Bool → List Change → Type 0
Alternates b [] = Unit
Alternates b (host_arrived t ∷ cs) = (b ≡ false) × Alternates true cs
Alternates b (host_left ∷ cs) = (b ≡ true) × Alternates false cs

Alternates-cons :
    (was : Bool) (h : Option Transport) (rest : List Change)
    → Alternates (is_some h) rest
    → Alternates was (elim (change_of was h) [ none ↦ rest | some c ↦ c ∷ rest ])
unfolding change_of
Alternates-cons true none rest a = (refl, a)
Alternates-cons true (some t) rest a = a
Alternates-cons false none rest a = a
Alternates-cons false (some t) rest a = (refl, a)

-- Over any updates at any times the reported changes alternate: arrivals of a host and departures
-- of the last one, an arrival first exactly if the board was not an RNode before.
pub changes-Alternates :
    (p : Presence) (seen : List (ℕ × Seen)) → Alternates p.was_rnode (changes p seen)
unfolding changes update
changes-Alternates p [] = tt
changes-Alternates p ((now, s) ∷ rest) =
    let p' = (update p now s).0 in
    Alternates-cons p.was_rnode (host p') (changes p' rest) (changes-Alternates p' rest)

mode-change :
    (was stored : Bool) (h : Option Transport)
    → (has_host (mode_of h stored) ≡ is_some h) × ((change_of was h ≡ none) ↔ (was ≡ is_some h))
unfolding has_host mode_of change_of
mode-change true true none = (refl, ((λ e. cc), (λ e. cc)))
mode-change true false none = (refl, ((λ e. cc), (λ e. cc)))
mode-change true stored (some t) = (refl, ((λ e. refl), (λ e. refl)))
mode-change false true none = (refl, ((λ e. refl), (λ e. refl)))
mode-change false false none = (refl, ((λ e. refl), (λ e. refl)))
mode-change false stored (some t) = (refl, ((λ e. cc), (λ e. cc)))

-- Behind an update the board's mode, whether a configuration is stored or not, is that of a host's
-- RNode exactly if the update noted a host, and the update reports no change exactly if it noted
-- what was noted before.
update-mode :
    (p : Presence) (now : ℕ) (seen : Seen) (stored : Bool)
    → let (p', change) = update p now seen in
      (has_host (mode p' stored) ≡ p'.was_rnode) × ((change ≡ none) ↔ (p.was_rnode ≡ p'.was_rnode))
unfolding update mode
update-mode p now seen stored = mode-change p.was_rnode stored (host (update p now seen).0)

-- A side after some updates at which its host neither spoke nor was attached.
unfoldable pub quiet : Side → List ℕ → Side
quiet s [] = s
quiet s (now ∷ times) = quiet (update_side s now false false) times

abbrev pub any_late : ℕ → List ℕ → Bool
any_late t [] = false
any_late t (now ∷ times) = leb hold_ms (now - t) || any_late t times

quiet-absent : (times : List ℕ) → quiet absent times ≡ absent
unfolding quiet update_side
quiet-absent [] = refl
quiet-absent (now ∷ times) = quiet-absent times

-- A host that was seen to go at `t`, and is silent since, is forgotten exactly if an update comes
-- three seconds after `t` or later.
pub quiet_lem :
    (times : List ℕ) (s : Side) (t : ℕ)
    → s.present ≡ true
    → s.gone_since ≡ some t
    → (quiet s times).present ≡ not (any_late t times)
unfolding quiet update_side
quiet_lem [] s t here gone = here
quiet_lem (now ∷ times) s t here gone =
    ground
      (arith, quiet-absent times, quiet_lem times (record s { gone_since = some t }) t here refl)

-- A side counts its host as present behind an update exactly if the host spoke, or was present and
-- is attached, or was present and has been gone for less than three seconds.
pub side_lem :
    (s : Side) (now : ℕ) (spoke attached : Bool)
    → (update_side s now spoke attached).present
      ≡ (spoke || (s.present && (attached || not (leb hold_ms (now - since s.gone_since now)))))
unfolding update_side
side_lem s now spoke attached = ground arith
