-- ===== src/LogBuf.antt =====
-- core/src/logbuf.rs: the byte ring between the logger and the USB link.
pub mod Contents
pub mod Push
pub mod Pop
mod Tests
use oxinode.Prelude.{
  ℕ, suc, zero, ◌+◌, ◌-◌, ◌%◌, ◌^◌, min, [], ◌∷◌, if◌then◌else◌, ◌==◌, Bytes, length, get_or, set,
  replicate,
}

-- The const parameter `N` is an argument of the operations.
pub record RingBuffer : Type 0 where
  pub buf : Bytes
  pub read : ℕ
  pub len : ℕ
  pub dropped : ℕ

unfoldable pub new : ℕ → RingBuffer
new n = record { buf = replicate n 0; read = 0; len = 0; dropped = 0 }

-- The eviction at the head of the loop body of `push`.
unfoldable pub evict : ℕ → RingBuffer → RingBuffer
evict n r = if r.len == n then record r { read = (r.read + 1) % n; len = r.len - 1 } else r

-- One round of the loop of `push`.
unfoldable pub push_byte : ℕ → RingBuffer → ℕ → RingBuffer
unfolding evict
push_byte n r byte =
    let r' = evict n r in
    record r' { buf = set r'.buf ((r'.read + r'.len) % n) byte; len = r'.len + 1 }

-- The loop of `push`, with the count of evicted bytes.
unfoldable pub push_loop : ℕ → RingBuffer → ℕ → Bytes → RingBuffer × ℕ
push_loop n r evicted [] = (r, evicted)
push_loop n r evicted (byte ∷ bytes) =
    push_loop n (push_byte n r byte) (if r.len == n then evicted + 1 else evicted) bytes

-- `saturating_add` on `u32`; `evicted as u32` keeps the low 32 bits.
unfoldable pub push : ℕ → RingBuffer → Bytes → RingBuffer × ℕ
unfolding push_loop
push n r bytes =
    let (r', evicted) = push_loop n r 0 bytes in
    (record r' { dropped = min (2 ^ 32 - 1) (r'.dropped + evicted % 2 ^ 32) }, evicted)

-- The loop of `pop` over the first `k` slots of `out`, from index `i`.
unfoldable pub copy_out : ℕ → RingBuffer → ℕ → ℕ → Bytes → Bytes
copy_out n r i zero out = out
copy_out n r i (suc k) [] = []
copy_out n r i (suc k) (slot ∷ out) = get_or r.buf ((r.read + i) % n) 0 ∷ copy_out n r (i + 1) k out

-- The state, the filled `out`, and the count.
unfoldable pub pop : ℕ → RingBuffer → Bytes → RingBuffer × Bytes × ℕ
unfolding copy_out
pop n r out =
    let k = min (length out) r.len in
    (record r { read = (r.read + k) % n; len = r.len - k }, copy_out n r 0 k out, k)

unfoldable pub take_dropped : RingBuffer → RingBuffer × ℕ
take_dropped r = (record r { dropped = 0 }, r.dropped)
