-- ===== src/LogBuf/Push.antt =====
-- `RingBuffer::push` keeps the newest bytes.
use oxinode.Prelude.{
  ℕ, suc, ◌+◌, ◌-◌, ◌%◌, ◌^◌, ◌<◌, min, [], ◌∷◌, ◌++◌, ◌≡◌, refl, ap, ap₂, sym, ◌∙◌, Bytes, length,
  get_or, set, drop, arith, length-set, length-append, get_or-set_self, keep_last, keep_last-append,
  append-nil, drop-append_le, append_assoc, if◌then◌else◌, ◌==◌,
}
use oxinode.LogBuf.{RingBuffer, evict, push_byte, push_loop, push}
use oxinode.LogBuf.Contents.{
  IsValid, window, contents, length-window, window-shift, window-suc, window-set, drop-window,
}

module _ (n : ℕ) where
  length-contents : (r : RingBuffer) → length (contents n r) ≡ r.len
  length-contents r = length-window n r.buf r.read 0 r.len

  evict-IsValid : (r : RingBuffer) → IsValid n r → IsValid n (evict n r)
  unfolding evict
  evict-IsValid r v = ground arith

  -- The eviction makes room by dropping the oldest byte, if there is no room.
  evict_lem :
      (r : RingBuffer)
      → IsValid n r
      → (contents n (evict n r) ≡ drop (r.len + 1 - n) (contents n r)) × ((evict n r).len < n)
  unfolding evict
  evict_lem r v = ground (
    arith,
    drop-window n r.buf r.read 0 r.len (r.len + 1 - n),
    window-shift n r.buf r.read 1 0 (r.len - 1),
  )

  -- With room, a byte goes behind the contents.
  push_room :
      (r : RingBuffer) (b : ℕ)
      → IsValid n r
      → r.len < n
      → window n (set r.buf ((r.read + r.len) % n) b) r.read 0 (r.len + 1)
        ≡ contents n r ++ (b ∷ [])
  push_room r b v h =
      ap (λ k. window n (set r.buf ((r.read + r.len) % n) b) r.read 0 k) {y = suc r.len}
        (omega arith)
      ∙ window-suc n (set r.buf ((r.read + r.len) % n) b) r.read 0 r.len
      ∙ ap₂ (λ xs y. xs ++ (y ∷ []))
          (window-set n r.buf r.read 0 r.len r.len b v.read_in (omega arith) h)
          (ap (λ k. get_or (set r.buf ((r.read + r.len) % n) b) (k % n) 0) (omega arith)
            ∙ get_or-set_self r.buf ((r.read + r.len) % n) b 0 (grind arith))

  push_byte-IsValid : (r : RingBuffer) (b : ℕ) → IsValid n r → IsValid n (push_byte n r b)
  unfolding push_byte
  push_byte-IsValid r b v =
      let e = evict n r in
      let w = evict-IsValid r v in
      let room = (evict_lem r v).1 in
      record {
        sized = length-set e.buf ((e.read + e.len) % n) b ∙ w.sized;
        read_in = w.read_in;
        len_in = omega arith;
      }

  push_byte_lem :
      (r : RingBuffer) (b : ℕ)
      → IsValid n r
      → contents n (push_byte n r b) ≡ keep_last n (contents n r ++ (b ∷ []))
  unfolding push_byte
  push_byte_lem r b v =
      let (kept, room) = evict_lem r v in
      push_room (evict n r) b (evict-IsValid r v) room
      ∙ ap (λ xs. xs ++ (b ∷ [])) kept
      ∙ sym (
          drop-append_le (r.len + 1 - n) (contents n r) (b ∷ []) (omega (arith, length-contents r)))
      ∙ ap (λ k. drop k (contents n r ++ (b ∷ [])))
          (omega (arith, length-append (contents n r) (b ∷ []), length-contents r))

  dropped-push_byte : (r : RingBuffer) (b : ℕ) → (push_byte n r b).dropped ≡ r.dropped
  unfolding push_byte
  dropped-push_byte r b = ground arith

  count_push_byte :
      (r : RingBuffer) (b : ℕ)
      → IsValid n r
      → (c k : ℕ)
      → (if r.len == n then c + 1 else c) + ((push_byte n r b).len + k - n)
        ≡ c + (r.len + suc k - n)
  unfolding push_byte
  count_push_byte r b v c k = ground arith

  push_loop_lem :
      (bytes : Bytes) (r : RingBuffer) (evicted : ℕ)
      → IsValid n r
      → let (r', e) = push_loop n r evicted bytes in
        IsValid n r'
        × (contents n r' ≡ keep_last n (contents n r ++ bytes))
        × (e ≡ evicted + (r.len + length bytes - n))
        × (r'.dropped ≡ r.dropped)
  unfolding push_loop
  push_loop_lem [] r evicted v = (
    v,
    rw append-nil (ap (λ k. drop k (contents n r)) {x = 0} (omega (arith, length-contents r))),
    omega arith,
    refl,
  )
  push_loop_lem (b ∷ bytes) r evicted v =
      let r' = push_byte n r b in
      let evicted' : ℕ = if r.len == n then evicted + 1 else evicted in
      let (w, c, e, d) = push_loop_lem bytes r' evicted' (push_byte-IsValid r b v) in
      (
        w,
        c
            ∙ ap (λ xs. keep_last n (xs ++ bytes)) (push_byte_lem r b v)
            ∙ keep_last-append n (contents n r ++ (b ∷ [])) bytes
            ∙ ap (keep_last n) (append_assoc (contents n r) (b ∷ []) bytes),
        e ∙ count_push_byte r b v evicted (length bytes),
        d ∙ dropped-push_byte r b,
      )

-- A push of any bytes keeps the newest `n` of what was held and what is pushed, in order, returns
-- the number of bytes that this lost, adds that number to the drop count up to the count's limit,
-- and keeps the invariant.
pub push_lem :
    (n : ℕ) {r : RingBuffer} (bytes : Bytes)
    → IsValid n r
    → let (r', evicted) = push n r bytes in
      (contents n r' ≡ keep_last n (contents n r ++ bytes))
      × (evicted ≡ length (contents n r ++ bytes) - n)
      × (r'.dropped ≡ min (2 ^ 32 - 1) (r.dropped + evicted % 2 ^ 32))
      × IsValid n r'
unfolding push
push_lem n {r} bytes v =
    let (w, c, e, d) = push_loop_lem n bytes r 0 v in
    (
      c,
      omega (arith, e, length-append (contents n r) bytes, length-contents n r),
      ap (λ k. min (2 ^ 32 - 1) (k + (push_loop n r 0 bytes).1 % 2 ^ 32)) d,
      record { sized = w.sized; read_in = w.read_in; len_in = w.len_in },
    )
