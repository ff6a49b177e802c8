-- ===== src/Battery/Shown.antt =====
-- What the screen shows is near the average, and its percentage is that of its voltage.
use oxinode.Prelude.{
  ℕ, ◌*◌, ◌<◌, Bool, List, [], ◌∷◌, Option, none, some, if◌then◌else◌, ◌≡◌, refl, sym, ap, subst,
  arith, Bool-cases, inl, inr,
}
use oxinode.Prelude.Int.{ℤ, pos}
use oxinode.Battery.{
  Reading, Smoothed, new, percent, in_millivolts, next_average, has_moved, abs_diff, show, update,
}

-- A reading within ten millivolts of an average.
abbrev pub Near : ℤ → Reading → Type 0
Near average r =
    (r.percentage ≡ percent r.millivolts) × (abs_diff r.millivolts (in_millivolts average) < 10)

-- Either there is no cell, and nothing is shown, or what is shown is near the average.
abbrev pub Steady : Option ℤ → Option Reading → Type 0
Steady none none = Unit
Steady none (some r) = ⊥
Steady (some average) none = ⊥
Steady (some average) (some r) = Near average r

abbrev pub IsSteady : Smoothed → Type 0
IsSteady s = Steady s.average s.shown

show-Steady :
    (average : ℤ) (shown : Option Reading)
    → ((r : Reading) → shown ≡ some r → r.percentage ≡ percent r.millivolts)
    → Steady (some average) (show shown (in_millivolts average))
unfolding show
show-Steady average none h = (refl, omega arith)
show-Steady average (some r) h =
    let mv : ℕ = in_millivolts average in
    let moved : Reading = record { millivolts = mv; percentage = percent mv } in
    let Goal : Bool → Type 0 = λ b. Steady (some average) (if b then some moved else some r) in
    elim (Bool-cases (has_moved (some r) mv)) [
      | inl away ↦ subst Goal (sym away) (refl, omega arith)
      | inr here ↦ subst Goal (sym here) (h r refl, ground arith)
    ]

percentage-lem :
    (average : Option ℤ) (shown : Option Reading)
    → Steady average shown
    → (r : Reading) → shown ≡ some r
    → r.percentage ≡ percent r.millivolts
percentage-lem none none k r e = cc
percentage-lem none (some q) k r e = elim k [ ]
percentage-lem (some a) none k r e = elim k [ ]
percentage-lem (some a) (some q) k r e =
    let same : q ≡ r = ap (λ o. elim o [ none ↦ q | some x ↦ x ]) e in
    subst (λ x. x.percentage ≡ percent x.millivolts) same k.0

update-IsSteady : (sample : Option Reading) (s : Smoothed) → IsSteady s → IsSteady (update sample s)
unfolding update new
update-IsSteady none s h = tt
update-IsSteady (some fresh) s h =
    show-Steady (next_average s.average (pos (fresh.millivolts * 16))) s.shown
      (percentage-lem s.average s.shown h)

unfoldable pub update_all : List (Option Reading) → Smoothed → Smoothed
unfolding update
update_all [] s = s
update_all (sample ∷ samples) s = update_all samples (update sample s)

steady :
    (samples : List (Option Reading)) (s : Smoothed) → IsSteady s → IsSteady (update_all samples s)
unfolding update_all
steady [] s h = h
steady (sample ∷ samples) s h = steady samples (update sample s) (update-IsSteady sample s h)

-- Whatever is sampled, with the cell there or gone, what is shown then is less than ten millivolts away
-- from the average, its percentage is the estimate for its own voltage, and nothing is shown exactly
-- while there is no average.
pub update_all-IsSteady : (samples : List (Option Reading)) → IsSteady (update_all samples new)
unfolding new
update_all-IsSteady samples = steady samples new tt
