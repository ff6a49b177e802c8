-- ===== src/Prelude/Reads.antt =====
-- An element read by its index out of parts of a list, and after a write of several elements.
use Prim.Native.Nat.{ℕ, zero, suc, ◌+◌, ◌-◌, ◌≤◌, ◌<◌}
use mathlib.Core.Path.{◌≡◌, refl, ap, ◌∙◌}
use mathlib.Core.List.{List, [], ◌∷◌, ◌++◌}
use native.Mathlib.Omega.{arith}
use oxinode.Prelude.Lists.{length, take, drop, get_or, replicate, length-take}
use oxinode.Prelude.Slices.{write_at}

module _ {ℓ} {A : Type ℓ} where
  pub get_or-drop : (xs : List A) (i k : ℕ) (d : A) → get_or (drop i xs) k d ≡ get_or xs (i + k) d
  get_or-drop xs zero k d = ap (λ j. get_or xs j d) (omega arith)
  get_or-drop [] (suc i) k d = refl
  get_or-drop (x ∷ xs) (suc i) k d =
      get_or-drop xs i k d ∙ ap (λ j. get_or (x ∷ xs) j d) {x = suc (i + k)} (omega arith)

  pub get_or-take : (xs : List A) (n k : ℕ) (d : A) → k < n → get_or (take n xs) k d ≡ get_or xs k d
  get_or-take xs zero k d h = absurd (omega arith)
  get_or-take [] (suc n) k d h = refl
  get_or-take (x ∷ xs) (suc n) zero d h = refl
  get_or-take (x ∷ xs) (suc n) (suc k) d h = get_or-take xs n k d (omega arith)

  pub get_or-append_left :
      (xs ys : List A) (k : ℕ) (d : A) → k < length xs → get_or (xs ++ ys) k d ≡ get_or xs k d
  get_or-append_left [] ys k d h = absurd (omega arith)
  get_or-append_left (x ∷ xs) ys zero d h = refl
  get_or-append_left (x ∷ xs) ys (suc k) d h = get_or-append_left xs ys k d (omega arith)

  pub get_or-append_right :
      (xs ys : List A) (n k : ℕ) (d : A)
      → n ≡ length xs
      → get_or (xs ++ ys) (n + k) d ≡ get_or ys k d
  get_or-append_right [] ys n k d h = ap (λ j. get_or ys j d) (omega arith)
  get_or-append_right (x ∷ xs) ys zero k d h = absurd (omega arith)
  get_or-append_right (x ∷ xs) ys (suc n) k d h =
      ap (λ j. get_or (x ∷ (xs ++ ys)) j d) {y = suc (n + k)} (omega arith)
      ∙ get_or-append_right xs ys n k d (omega arith)

  pub get_or-replicate : (n k : ℕ) (d : A) → get_or (replicate n d) k d ≡ d
  unfolding replicate
  get_or-replicate zero k d = refl
  get_or-replicate (suc n) zero d = refl
  get_or-replicate (suc n) (suc k) d = get_or-replicate n k d

  pub get_or-write_at_inside :
      (i k : ℕ) (ys xs : List A) (d : A)
      → k < length ys
      → i ≤ length xs
      → get_or (write_at i ys xs) (i + k) d ≡ get_or ys k d
  get_or-write_at_inside i k ys xs d h room =
      get_or-append_right (take i xs) (ys ++ drop (i + length ys) xs) i k d
        (omega (arith, length-take i xs))
      ∙ get_or-append_left ys (drop (i + length ys) xs) k d h

  pub get_or-write_at_before :
      (i k : ℕ) (ys xs : List A) (d : A)
      → k < i
      → i ≤ length xs
      → get_or (write_at i ys xs) k d ≡ get_or xs k d
  get_or-write_at_before i k ys xs d h room =
      get_or-append_left (take i xs) (ys ++ drop (i + length ys) xs) k d
        (omega (arith, length-take i xs))
      ∙ get_or-take xs i k d h

  pub get_or-write_at_after :
      (i k : ℕ) (ys xs : List A) (d : A)
      → i + length ys ≤ k
      → i ≤ length xs
      → get_or (write_at i ys xs) k d ≡ get_or xs k d
  get_or-write_at_after i k ys xs d h room =
      let j : ℕ = k - (i + length ys) in
      ap (λ m. get_or (write_at i ys xs) m d) {y = i + (length ys + j)} (omega arith)
      ∙ get_or-append_right (take i xs) (ys ++ drop (i + length ys) xs) i (length ys + j) d
          (omega (arith, length-take i xs))
      ∙ get_or-append_right ys (drop (i + length ys) xs) (length ys) j d refl
      ∙ get_or-drop xs (i + length ys) j d
      ∙ ap (λ m. get_or xs m d) (omega arith)
