-- ===== src/LogBuf/Pop.antt =====
-- `RingBuffer::pop` hands out the oldest bytes.
use oxinode.Prelude.{
  ℕ, suc, zero, ◌+◌, ◌-◌, ◌%◌, ◌≤◌, min, [], ◌∷◌, ◌++◌, ◌≡◌, refl, ap, sym, ◌∙◌, Bytes, length,
  get_or, take, drop, arith,
}
use oxinode.LogBuf.{RingBuffer, copy_out, pop}
use oxinode.LogBuf.Contents.{IsValid, window, contents, window-shift, drop-window}

module _ (n : ℕ) where
  copy_out-window :
      (r : RingBuffer) (i k : ℕ) (out : Bytes)
      → k ≤ length out
      → copy_out n r i k out ≡ window n r.buf r.read i k ++ drop k out
  unfolding copy_out
  copy_out-window r i zero out h = refl
  copy_out-window r i (suc k) [] h = absurd (omega arith)
  copy_out-window r i (suc k) (x ∷ out) h =
      ap (◌∷◌ (get_or r.buf ((r.read + i) % n) 0)) (copy_out-window r (i + 1) k out (omega arith))

  take-window :
      (buf : Bytes) (read i k j : ℕ)
      → j ≤ k
      → take j (window n buf read i k) ≡ window n buf read i j
  take-window buf read i k zero h = refl
  take-window buf read i zero (suc j) h = absurd (omega arith)
  take-window buf read i (suc k) (suc j) h =
      ap (◌∷◌ (get_or buf ((read + i) % n) 0)) (take-window buf read (i + 1) k j (omega arith))

-- A pop takes as many bytes as there are and as fit, oldest first, into the front of `out`, leaves
-- the rest of `out` and of the contents in order, and keeps the invariant and the drop count.
pub pop_lem :
    (n : ℕ) {r : RingBuffer} (out : Bytes)
    → IsValid n r
    → let (r', out', k) = pop n r out in
      (k ≡ min (length out) r.len)
      × (out' ≡ take k (contents n r) ++ drop k out)
      × (contents n r' ≡ drop k (contents n r))
      × (r'.dropped ≡ r.dropped)
      × IsValid n r'
unfolding pop
pop_lem n {r} out v =
    let k : ℕ = min (length out) r.len in
    (
      refl,
      copy_out-window n r 0 k out (omega arith)
          ∙ ap (λ xs. xs ++ drop k out) (sym (take-window n r.buf r.read 0 r.len k (omega arith))),
      window-shift n r.buf r.read k 0 (r.len - k)
          ∙ ap (λ j. window n r.buf r.read j (r.len - k)) (omega arith)
          ∙ sym (drop-window n r.buf r.read 0 r.len k (omega arith)),
      refl,
      record { sized = v.sized; read_in = grind arith; len_in = omega arith },
    )
