-- ===== src/Prelude/Finds.antt =====
-- What `iter().find`, `position` and `filter` do to a list, and equality of bytes.
use Prim.Native.Nat.{ℕ, ◌+◌, ◌≤◌}
use mathlib.Core.Path.{◌≡◌, refl, ap, ap₂, sym, ◌∙◌}
use mathlib.Core.Bool.{Bool, true, false, ◌&&◌}
use mathlib.Core.Logic.{◌≢◌, ◌⊎◌, inl, inr}
use mathlib.Core.Option.{Option, none, some}
use mathlib.Core.List.{List, [], ◌∷◌, ◌++◌}
use native.Mathlib.Omega.{arith}
use oxinode.Prelude.Tests.{◌==◌, if◌then◌else◌, Bool-cases}
use oxinode.Prelude.Lists.{length}

-- Equality of byte arrays.
unfoldable pub same : List ℕ → List ℕ → Bool
same [] [] = true
same (a ∷ as_) (b ∷ bs) = a == b && same as_ bs
same _ _ = false

pub same_self : (xs : List ℕ) → same xs xs ≡ true
unfolding same
same_self [] = refl
same_self (x ∷ xs) = ground (arith, same_self xs)

pub same-eq : (xs ys : List ℕ) → same xs ys ≡ true → xs ≡ ys
unfolding same
same-eq [] [] h = refl
same-eq [] (y ∷ ys) h = cc
same-eq (x ∷ xs) [] h = cc
same-eq (x ∷ xs) (y ∷ ys) h = ap₂ (λ a b. a ∷ b) (ground arith) (same-eq xs ys (ground arith))

module _ {ℓ} {A : Type ℓ} where
  -- Whether an option holds something, as a case split.
  pub Option-cases : (x : Option A) → (x ≡ none) ⊎ ((a : A) × (x ≡ some a))
  Option-cases none = inl refl
  Option-cases (some a) = inr (a, refl)

module _ {ℓ} {A : Type ℓ} where
  -- `iter().find(test)`.
  unfoldable pub find : (A → Bool) → List A → Option A
  find test [] = none
  find test (x ∷ xs) = if test x then some x else find test xs

  -- `iter_mut().find(test)`, with what is then done to the place.
  unfoldable pub change_first : (A → Bool) → (A → A) → List A → List A
  change_first test f [] = []
  change_first test f (x ∷ xs) = if test x then f x ∷ xs else x ∷ change_first test f xs

  -- `position(test)` and `remove` of the place.
  unfoldable pub remove_first : (A → Bool) → List A → Option (List A)
  remove_first test [] = none
  remove_first test (x ∷ xs) =
      if test x
      then some xs
      else elim (remove_first test xs) [ none ↦ none | some rest ↦ some (x ∷ rest) ]

  unfoldable pub count : (A → Bool) → List A → ℕ
  count test [] = 0
  count test (x ∷ xs) = let rest = count test xs in if test x then rest + 1 else rest

  unfoldable pub filter : (A → Bool) → List A → List A
  filter test [] = []
  filter test (x ∷ xs) = let rest = filter test xs in if test x then x ∷ rest else rest

  abbrev pub All {κ} : (A → Type κ) → List A → Type κ
  All P [] = Unit
  All P (x ∷ xs) = P x × All P xs

  pub count-le_length : (test : A → Bool) (xs : List A) → count test xs ≤ length xs
  unfolding count
  count-le_length test [] = omega arith
  count-le_length test (x ∷ xs) = ground (arith, count-le_length test xs)

  pub count-skip :
      (test : A → Bool) (x : A) (xs : List A) → test x ≡ false → count test (x ∷ xs) ≡ count test xs
  unfolding count
  count-skip test x xs h = rw h

  pub count-ne_zero :
      (test : A → Bool) (x : A) (xs : List A) → test x ≡ true → count test (x ∷ xs) ≢ 0
  unfolding count
  count-ne_zero test x xs h = ground arith

  pub remove_first-none :
      (test : A → Bool) (xs : List A) → remove_first test xs ≡ none → All (λ x. test x ≡ false) xs
  unfolding remove_first
  remove_first-none test [] h = tt
  remove_first-none test (x ∷ xs) h = (ground arith, remove_first-none test xs (ground arith))

  -- A place that is removed meets the test, so a filter that leaves out what meets it keeps the rest.
  pub remove_first-some :
      (test keep : A → Bool) (xs ys : List A)
      → ((x : A) → test x ≡ true → keep x ≡ false)
      → remove_first test xs ≡ some ys
      → (length xs ≡ length ys + 1) × (filter keep xs ≡ filter keep ys)
  unfolding remove_first filter
  remove_first-some test keep [] ys out h = cc
  remove_first-some test keep (x ∷ xs) ys out h = elim (Bool-cases (test x)) [
    | inl hit ↦ (ground arith, ground (arith, out x hit))
    | inr miss ↦ elim (Option-cases (remove_first test xs)) [
      | inl e ↦ cc
      | inr (zs, e) ↦
          let ih = remove_first-some test keep xs zs out e in
          (ground (arith, ih.0), ground (arith, ih.1))
    ]
  ]

  pub filter-append :
      (keep : A → Bool) (xs ys : List A) → filter keep (xs ++ ys) ≡ filter keep xs ++ filter keep ys
  unfolding filter
  filter-append keep [] ys = refl
  filter-append keep (x ∷ xs) ys = ground (arith, filter-append keep xs ys)

module _ {A : Type 0} where
  -- Some element has a property.
  abbrev pub Any : (A → Type 0) → List A → Type 0
  Any P [] = ⊥
  Any P (x ∷ xs) = P x ⊎ Any P xs

  pub find-Any :
      (test : A → Bool) (xs : List A) (x : A)
      → find test xs ≡ some x
      → (test x ≡ true) × Any (λ y. y ≡ x) xs
  unfolding find
  find-Any test [] x h = cc
  find-Any test (y ∷ xs) x h = elim (Bool-cases (test y)) [
    | inl hit ↦ let e : y ≡ x = ground arith in (ap test (sym e) ∙ hit, inl e)
    | inr miss ↦ let (holds, at) = find-Any test xs x (ground arith) in (holds, inr at)
  ]

  pub count-change_first :
      (p test : A → Bool) (f : A → A) (xs : List A)
      → ((x : A) → test x ≡ true → (p x ≡ false) × (p (f x) ≡ true))
      → Any (λ x. test x ≡ true) xs
      → count p (change_first test f xs) ≡ count p xs + 1
  unfolding count change_first
  count-change_first p test f [] turns hit = elim hit [ ]
  count-change_first p test f (x ∷ xs) turns (inl hit) =
      let (before, after) = turns x hit in ground arith
  count-change_first p test f (x ∷ xs) turns (inr hit) = elim (Bool-cases (test x)) [
    | inl here ↦ let (before, after) = turns x here in ground arith
    | inr miss ↦ ground (arith, count-change_first p test f xs turns hit)
  ]

  pub find-change_first :
      (test : A → Bool) (v x : A) (xs : List A)
      → find test xs ≡ some x
      → Any (λ y. y ≡ v) (change_first test (λ x. v) xs)
  unfolding find change_first
  find-change_first test v x [] h = cc
  find-change_first test v x (y ∷ xs) h = elim (Bool-cases (test y)) [
    | inl hit ↦ rw hit (inl refl)
    | inr miss ↦ rw miss (inr (find-change_first test v x xs (ground arith)))
  ]

  -- What does not meet the test stays.
  pub Any-change_first :
      (test : A → Bool) (f : A → A) (v : A) (xs : List A)
      → test v ≡ false
      → Any (λ y. y ≡ v) xs
      → Any (λ y. y ≡ v) (change_first test f xs)
  unfolding change_first
  Any-change_first test f v [] out h = h
  Any-change_first test f v (y ∷ xs) out (inl e) = rw (ap test e ∙ out) (inl e)
  Any-change_first test f v (y ∷ xs) out (inr h) = elim (Bool-cases (test y)) [
    | inl hit ↦ rw hit (inr h)
    | inr miss ↦ rw miss (inr (Any-change_first test f v xs out h))
  ]

  pub length-change_first :
      (test : A → Bool) (f : A → A) (xs : List A) → length (change_first test f xs) ≡ length xs
  unfolding change_first
  length-change_first test f [] = refl
  length-change_first test f (x ∷ xs) = ground (arith, length-change_first test f xs)
