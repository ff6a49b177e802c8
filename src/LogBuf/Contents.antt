-- ===== src/LogBuf/Contents.antt =====
-- The bytes that a ring holds, oldest first, and its invariant.
use oxinode.Prelude.{
  ℕ, suc, zero, ◌+◌, ◌-◌, ◌%◌, ◌≤◌, ◌<◌, [], ◌∷◌, ◌++◌, ◌≡◌, ◌≢◌, refl, ap, ap₂, sym, ◌∙◌, Bytes,
  length, get_or, set, drop, arith, length-replicate, get_or-set_ne,
}
use native.Mathlib.Nat.{mod-add-mod}
use oxinode.LogBuf.{RingBuffer, new}

pub record IsValid (n : ℕ) (r : RingBuffer) : Type 0 where
  pub sized : length r.buf ≡ n
  pub read_in : r.read < n
  pub len_in : r.len ≤ n

-- The `k` bytes from the `i`-th on, where `pop` reads them.
abbrev pub window : ℕ → Bytes → ℕ → ℕ → ℕ → Bytes
window n buf read i zero = []
window n buf read i (suc k) = get_or buf ((read + i) % n) 0 ∷ window n buf read (i + 1) k

abbrev pub contents : ℕ → RingBuffer → Bytes
contents n r = window n r.buf r.read 0 r.len

-- Distinct offsets less than a turn apart are distinct places.
pub place_ne : (n read i j : ℕ) → read < n → i < j → j < n → (read + i) % n ≢ (read + j) % n
place_ne n read i j hr hij hj = grind arith

module _ (n : ℕ) (buf : Bytes) where
  pub length-window : (read i k : ℕ) → length (window n buf read i k) ≡ k
  length-window read i zero = refl
  length-window read i (suc k) = ap suc (length-window read (i + 1) k)

  -- Moving the read index is moving the offset.
  pub window-shift :
      (read s i k : ℕ) → window n buf ((read + s) % n) i k ≡ window n buf read (s + i) k
  window-shift read s i zero = refl
  window-shift read s i (suc k) =
      ap₂ ◌∷◌
        (ap (λ p. get_or buf p 0) (mod-add-mod (read + s) n i ∙ ap (λ k. k % n) (omega arith)))
        (window-shift read s (i + 1) k ∙ ap (λ j. window n buf read j k) (omega arith))

  pub window-suc :
      (read i k : ℕ)
      → window n buf read i (suc k)
        ≡ window n buf read i k ++ (get_or buf ((read + (i + k)) % n) 0 ∷ [])
  window-suc read i zero = ap (λ j. get_or buf ((read + j) % n) 0 ∷ []) (omega arith)
  window-suc read i (suc k) =
      ap (λ w. get_or buf ((read + i) % n) 0 ∷ w)
        (window-suc read (i + 1) k
          ∙ ap (λ j. window n buf read (i + 1) k ++ (get_or buf ((read + j) % n) 0 ∷ []))
              (omega arith))

  -- A write behind a window leaves it alone.
  pub window-set :
      (read i k j v : ℕ)
      → read < n
      → i + k ≤ j
      → j < n
      → window n (set buf ((read + j) % n) v) read i k ≡ window n buf read i k
  window-set read i zero j v hr h hj = refl
  window-set read i (suc k) j v hr h hj =
      ap₂ ◌∷◌ (get_or-set_ne buf v 0 (λ e. place_ne n read i j hr (omega arith) hj (sym e)))
        (window-set read (i + 1) k j v hr (omega arith) hj)

  pub drop-window :
      (read i k s : ℕ) → s ≤ k → drop s (window n buf read i k) ≡ window n buf read (i + s) (k - s)
  drop-window read i k zero h = ap₂ (λ j l. window n buf read j l) (omega arith) (omega arith)
  drop-window read i zero (suc s) h = absurd (omega arith)
  drop-window read i (suc k) (suc s) h =
      drop-window read (i + 1) k s (omega arith)
      ∙ ap₂ (λ j l. window n buf read j l) (omega arith) (omega arith)

pub new-IsValid : (n : ℕ) → 0 < n → IsValid n (new n)
unfolding new
new-IsValid n h = omega (arith, length-replicate {0} {A = ℕ} n 0)
