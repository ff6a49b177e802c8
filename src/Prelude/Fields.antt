-- ===== src/Prelude/Fields.antt =====
-- A field of a record of bytes: what is read behind a write there, and behind a write elsewhere.
use Prim.Native.Nat.{ℕ, zero, suc, ◌+◌, ◌-◌, ◌≤◌, ◌<◌}
use mathlib.Core.Path.{◌≡◌, refl, ap, sym, ◌∙◌}
use mathlib.Core.List.{List, [], ◌∷◌, ◌++◌, append_assoc}
use native.Mathlib.Omega.{arith}
use oxinode.Prelude.Lists.{length, take, drop, set, get_or, length-append, length-take}
use oxinode.Prelude.Slices.{write_at, drop-drop, take-append, drop-append, drop-set}

module _ {ℓ} {A : Type ℓ} where
  -- `bytes[i..i + n]`.
  abbrev pub slice : ℕ → ℕ → List A → List A
  slice i n xs = take n (drop i xs)

  slice-append_left : (a b : List A) (i n : ℕ) → i + n ≤ length a → slice i n (a ++ b) ≡ slice i n a
  slice-append_left a b zero zero h = refl
  slice-append_left [] b zero (suc n) h = absurd (omega arith)
  slice-append_left (x ∷ a) b zero (suc n) h =
      ap (λ xs. x ∷ xs) (slice-append_left a b zero n (omega arith))
  slice-append_left [] b (suc i) n h = absurd (omega arith)
  slice-append_left (x ∷ a) b (suc i) n h = slice-append_left a b i n (omega arith)

  drop-append_right : (a b : List A) (k : ℕ) → drop (length a + k) (a ++ b) ≡ drop k b
  drop-append_right [] b k = ap (λ i. drop i b) (omega arith)
  drop-append_right (x ∷ a) b k =
      ap (λ i. drop i (x ∷ (a ++ b))) {y = suc (length a + k)} (omega arith)
      ∙ drop-append_right a b k

  slice-take : (xs : List A) (i n j : ℕ) → i + n ≤ j → slice i n (take j xs) ≡ slice i n xs
  slice-take xs zero zero j h = refl
  slice-take xs zero (suc n) zero h = absurd (omega arith)
  slice-take [] zero (suc n) (suc j) h = refl
  slice-take (x ∷ xs) zero (suc n) (suc j) h =
      ap (λ ys. x ∷ ys) (slice-take xs zero n j (omega arith))
  slice-take xs (suc i) n zero h = absurd (omega arith)
  slice-take [] (suc i) n (suc j) h = refl
  slice-take (x ∷ xs) (suc i) n (suc j) h = slice-take xs i n j (omega arith)

  pub slice-write_at_before :
      (i n j : ℕ) (ys xs : List A)
      → i + n ≤ j
      → j ≤ length xs
      → slice i n (write_at j ys xs) ≡ slice i n xs
  slice-write_at_before i n j ys xs h room =
      slice-append_left (take j xs) (ys ++ drop (j + length ys) xs) i n
        (omega (arith, length-take j xs))
      ∙ slice-take xs i n j h

  pub slice-write_at_after :
      (i n j : ℕ) (ys xs : List A)
      → j + length ys ≤ i
      → j + length ys ≤ length xs
      → slice i n (write_at j ys xs) ≡ slice i n xs
  slice-write_at_after i n j ys xs h room =
      let front : List A = take j xs ++ ys in
      let size = length-append (take j xs) ys in
      let kept = length-take j xs in
      let k : ℕ = i - (j + length ys) in
      ap (take n) (
        ap (drop i) (sym (append_assoc (take j xs) ys (drop (j + length ys) xs)))
        ∙ ap (λ m. drop m (front ++ drop (j + length ys) xs)) {y = length front + k} (omega arith)
        ∙ drop-append_right front (drop (j + length ys) xs) k
        ∙ drop-drop k (j + length ys) xs
        ∙ ap (λ m. drop m xs) (omega arith))

  pub slice-write_at_self :
      (j n : ℕ) (ys xs : List A) → length ys ≡ n → j ≤ length xs → slice j n (write_at j ys xs) ≡ ys
  slice-write_at_self j n ys xs e room =
      ap (take n)
        (drop-append (take j xs) (ys ++ drop (j + length ys) xs) (omega (arith, length-take j xs)))
      ∙ take-append ys (drop (j + length ys) xs) (sym e)

  pub get_or-slice : (xs : List A) (i : ℕ) (d : A) → get_or xs i d ≡ get_or (slice i 1 xs) 0 d
  get_or-slice [] zero d = refl
  get_or-slice [] (suc i) d = refl
  get_or-slice (x ∷ xs) zero d = refl
  get_or-slice (x ∷ xs) (suc i) d = get_or-slice xs i d

  -- A write of one element behind a slice, or before it.
  pub slice-set_after :
      (i n j : ℕ) (v : A) (xs : List A) → i + n ≤ j → slice i n (set xs j v) ≡ slice i n xs
  slice-set_after i n j v [] h = refl
  slice-set_after zero zero j v (x ∷ xs) h = refl
  slice-set_after zero (suc n) zero v (x ∷ xs) h = absurd (omega arith)
  slice-set_after zero (suc n) (suc j) v (x ∷ xs) h =
      ap (λ ys. x ∷ ys) (slice-set_after zero n j v xs (omega arith))
  slice-set_after (suc i) n zero v (x ∷ xs) h = absurd (omega arith)
  slice-set_after (suc i) n (suc j) v (x ∷ xs) h = slice-set_after i n j v xs (omega arith)

  pub slice-set_before :
      (i n j : ℕ) (v : A) (xs : List A) → j < i → slice i n (set xs j v) ≡ slice i n xs
  slice-set_before i n j v xs h = ap (take n) (drop-set xs v h)
