-- ===== src/Prelude/Slices.antt =====
-- Parts of a list: what a write into a buffer leaves before and behind it.
use Prim.Native.Nat.{ℕ, zero, suc, ◌+◌, ◌-◌, ◌≤◌, ◌<◌, min}
use mathlib.Core.Path.{◌≡◌, refl, ap, ap₂, sym, ◌∙◌}
use mathlib.Core.Logic.{◌≢◌}
use mathlib.Core.List.{List, [], ◌∷◌, ◌++◌, append_assoc}
use native.Mathlib.Decide.{dec_le}
use native.Mathlib.Omega.{arith}
use oxinode.Prelude.Lists.{
  length, get_or, take, drop, set, length-append, length-take, length-drop, take-append-drop,
}

module _ {ℓ} {A : Type ℓ} where
  pub take-append : (xs ys : List A) {n : ℕ} → n ≡ length xs → take n (xs ++ ys) ≡ xs
  take-append [] ys {n = zero} e = refl
  take-append [] ys {n = suc n} e = absurd (omega arith)
  take-append (x ∷ xs) ys {n = zero} e = absurd (omega arith)
  take-append (x ∷ xs) ys {n = suc n} e = ap (◌∷◌ x) (take-append xs ys (omega arith))

  pub drop-append : (xs ys : List A) {n : ℕ} → n ≡ length xs → drop n (xs ++ ys) ≡ ys
  drop-append [] ys {n = zero} e = refl
  drop-append [] ys {n = suc n} e = absurd (omega arith)
  drop-append (x ∷ xs) ys {n = zero} e = absurd (omega arith)
  drop-append (x ∷ xs) ys {n = suc n} e = drop-append xs ys (omega arith)

  pub take-all : (xs : List A) (n : ℕ) → length xs ≤ n → take n xs ≡ xs
  take-all [] zero h = refl
  take-all [] (suc n) h = refl
  take-all (x ∷ xs) zero h = absurd (omega arith)
  take-all (x ∷ xs) (suc n) h = ap (◌∷◌ x) (take-all xs n (omega arith))

  pub drop-all : (xs : List A) (n : ℕ) → length xs ≤ n → drop n xs ≡ []
  drop-all [] zero h = refl
  drop-all [] (suc n) h = refl
  drop-all (x ∷ xs) zero h = absurd (omega arith)
  drop-all (x ∷ xs) (suc n) h = drop-all xs n (omega arith)

  pub drop-drop : (n m : ℕ) (xs : List A) → drop n (drop m xs) ≡ drop (m + n) xs
  drop-drop n zero xs = ap (λ k. drop k xs) (omega arith)
  drop-drop zero (suc m) [] = ap (λ k. drop {A = A} k []) {x = suc m} {y = suc m + 0} (omega arith)
  drop-drop (suc n) (suc m) [] = sym (drop-all [] (suc m + suc n) (omega arith))
  drop-drop n (suc m) (x ∷ xs) =
      drop-drop n m xs ∙ ap (λ k. drop k (x ∷ xs)) {x = suc (m + n)} (omega arith)

  pub take-set : (xs : List A) (n : ℕ) (v : A) → take n (set xs n v) ≡ take n xs
  take-set [] zero v = refl
  take-set [] (suc n) v = refl
  take-set (x ∷ xs) zero v = refl
  take-set (x ∷ xs) (suc n) v = ap (◌∷◌ x) (take-set xs n v)

  -- A write just behind a prefix extends it.
  pub take-suc-set :
      (xs : List A) (n : ℕ) (v : A)
      → n < length xs
      → take (suc n) (set xs n v) ≡ take n xs ++ (v ∷ [])
  take-suc-set [] n v h = absurd (omega arith)
  take-suc-set (x ∷ xs) zero v h = refl
  take-suc-set (x ∷ xs) (suc n) v h = ap (◌∷◌ x) (take-suc-set xs n v (omega arith))

  pub set-append :
      (xs : List A) (y v : A) (zs : List A) {n : ℕ}
      → n ≡ length xs
      → set (xs ++ (y ∷ zs)) n v ≡ xs ++ (v ∷ zs)
  set-append [] y v zs {n = zero} e = refl
  set-append [] y v zs {n = suc n} e = absurd (omega arith)
  set-append (x ∷ xs) y v zs {n = zero} e = absurd (omega arith)
  set-append (x ∷ xs) y v zs {n = suc n} e = ap (◌∷◌ x) (set-append xs y v zs (omega arith))

  pub drop-set : (xs : List A) {i k : ℕ} (v : A) → i < k → drop k (set xs i v) ≡ drop k xs
  drop-set [] v h = refl
  drop-set (x ∷ xs) {i = i} {k = zero} v h = absurd (omega arith)
  drop-set (x ∷ xs) {i = zero} {k = suc k} v h = refl
  drop-set (x ∷ xs) {i = suc i} {k = suc k} v h = drop-set xs v (omega arith)

  pub get_or-set_self :
      (xs : List A) (i : ℕ) (v d : A) → i < length xs → get_or (set xs i v) i d ≡ v
  get_or-set_self [] i v d h = absurd (omega arith)
  get_or-set_self (x ∷ xs) zero v d h = refl
  get_or-set_self (x ∷ xs) (suc i) v d h = get_or-set_self xs i v d (omega arith)

  pub get_or-set_ne :
      (xs : List A) {i j : ℕ} (v d : A) → i ≢ j → get_or (set xs i v) j d ≡ get_or xs j d
  get_or-set_ne [] v d h = refl
  get_or-set_ne (x ∷ xs) {i = zero} {j = zero} v d h = absurd (h refl)
  get_or-set_ne (x ∷ xs) {i = zero} {j = suc j} v d h = refl
  get_or-set_ne (x ∷ xs) {i = suc i} {j = zero} v d h = refl
  get_or-set_ne (x ∷ xs) {i = suc i} {j = suc j} v d h = get_or-set_ne xs v d (λ e. h (ap suc e))

  -- Bytes written from index `i` on: what `copy_from_slice` and a loop of writes leave.
  abbrev pub write_at : ℕ → List A → List A → List A
  write_at i ys xs = take i xs ++ (ys ++ drop (i + length ys) xs)

  pub write_at-nil : (i : ℕ) (xs : List A) → write_at i [] xs ≡ xs
  write_at-nil i xs = ap (λ k. take i xs ++ drop k xs) (omega arith) ∙ take-append-drop i xs

  pub write_at-cons :
      (i : ℕ) (y : A) (ys xs : List A)
      → i < length xs
      → write_at (i + 1) ys (set xs i y) ≡ write_at i (y ∷ ys) xs
  write_at-cons i y ys xs h =
      ap₂ ◌++◌ (ap (λ k. take k (set xs i y)) {y = suc i} (omega arith) ∙ take-suc-set xs i y h) (
        ap (λ zs. ys ++ zs)
          (drop-set xs {k = i + 1 + length ys} y (omega arith)
            ∙ ap (λ k. drop k xs) {y = i + suc (length ys)} (omega arith)))
      ∙ append_assoc (take i xs) (y ∷ []) _

  pub length-write_at :
      (i : ℕ) (ys xs : List A) → i + length ys ≤ length xs → length (write_at i ys xs) ≡ length xs
  length-write_at i ys xs h = omega (
    arith,
    length-append (take i xs) (ys ++ drop (i + length ys) xs),
    length-append ys (drop (i + length ys) xs),
    length-take i xs,
    length-drop (i + length ys) xs,
  )

  pub drop_split :
      (i : ℕ) (xs : List A) → i < length xs → (y : A) × (drop i xs ≡ y ∷ drop (i + 1) xs)
  drop_split i [] h = absurd (omega arith)
  drop_split zero (x ∷ xs) h = (x, refl)
  drop_split (suc i) (x ∷ xs) h =
      let (y, e) = drop_split i xs (omega arith) in
      (y, e ∙ ap (λ k. y ∷ drop k (x ∷ xs)) {x = suc (i + 1)} (omega arith))

  pub set-write_at :
      (i : ℕ) (ys xs : List A) (v : A)
      → i + length ys < length xs
      → set (write_at i ys xs) (i + length ys) v ≡ write_at i (ys ++ (v ∷ [])) xs
  set-write_at i ys xs v h =
      let (y, e) = drop_split (i + length ys) xs h in
      rw (e, ← append_assoc)
        (set-append (take i xs ++ ys) y v (drop (i + length ys + 1) xs)
            (omega (arith, length-append (take i xs) ys, length-take i xs))
          ∙ append_assoc (take i xs) ys _
          ∙ ap (λ zs. take i xs ++ zs)
              (sym (append_assoc ys (v ∷ []) _)
                ∙ ap (λ k. (ys ++ (v ∷ [])) ++ drop k xs)
                    (omega (arith, length-append ys (v ∷ [])))))

  pub drop-append_le :
      (k : ℕ) (xs ys : List A) → k ≤ length xs → drop k (xs ++ ys) ≡ drop k xs ++ ys
  drop-append_le zero xs ys h = refl
  drop-append_le (suc k) [] ys h = absurd (omega arith)
  drop-append_le (suc k) (x ∷ xs) ys h = drop-append_le k xs ys (omega arith)

  -- The last `n` elements.
  abbrev pub keep_last : ℕ → List A → List A
  keep_last n xs = drop (length xs - n) xs

  pub keep_last-append :
      (n : ℕ) (xs ys : List A) → keep_last n (keep_last n xs ++ ys) ≡ keep_last n (xs ++ ys)
  keep_last-append n xs ys =
      let k : ℕ = length xs - n in
      rw (← drop-append_le k xs ys (omega arith)) (
        drop-drop _ k (xs ++ ys)
        ∙ ap (λ j. drop j (xs ++ ys))
            (omega (arith, length-drop k (xs ++ ys), length-append xs ys)))

  pub length-keep_last : (n : ℕ) (xs : List A) → length (keep_last n xs) ≡ min n (length xs)
  length-keep_last n xs = omega (arith, length-drop (length xs - n) xs)

  pub take-append_ge :
      (n : ℕ) (xs ys : List A) → length xs ≤ n → take n (xs ++ ys) ≡ xs ++ take (n - length xs) ys
  take-append_ge n [] ys h = ap (λ k. take k ys) (omega arith)
  take-append_ge zero (x ∷ xs) ys h = absurd (omega arith)
  take-append_ge (suc n) (x ∷ xs) ys h = ap (◌∷◌ x) (
      take-append_ge n xs ys (omega arith)
      ∙ ap (λ k. xs ++ take k ys) {y = suc n - suc (length xs)} (omega arith))

  pub take-min : (n : ℕ) (xs : List A) → take (min n (length xs)) xs ≡ take n xs
  take-min n xs = elim (dec_le (length xs) n) [
    | yes h ↦ take-all xs _ (omega arith) ∙ sym (take-all xs n h)
    | no h ↦ ap (λ k. take k xs) (omega arith)
  ]
