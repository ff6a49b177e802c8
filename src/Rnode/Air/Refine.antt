-- ===== src/Rnode/Air/Refine.antt =====
-- The reassembler of core/src/rnode/air.rs does what `View` says, and does not panic on a frame
-- that a radio can receive.
use oxinode.Prelude.{
  ℕ, ◌+◌, ◌-◌, ◌≤◌, [], ◌∷◌, ◌++◌, ◌≡◌, refl, Option, none, some, Bytes, length, take, arith,
  write_at, min, length-replicate, length-write_at, length-take, take-min, take-append_ge,
  length-append, append_assoc, sym, ap, take-append, ◌∙◌,
}
use oxinode.Rnode.Air.{
  packet_max, sequence_of, Signal, mean, Packet, Pending, Reassembler, clear, expire, store,
  feed_whole, join, hold, feed_split, feed, new,
}
use oxinode.Rnode.Air.View.{Held, fresh, whole, split, receive}

pub record IsValid (r : Reassembler) : Type 0 where
  pub sized : length r.buf ≡ packet_max
  pub fits : r.len ≤ packet_max

abbrev pub held_in : Option Pending → Bytes → Held
held_in none bs = none
held_in (some p) bs = some (record { about = p; content = bs })

abbrev pub held : Reassembler → Held
held r = held_in r.pending (take r.len r.buf)

-- What a call that did not panic leaves: a valid state that holds what it should, its age limit
-- unchanged, and the right packet.
abbrev pub Feeds : ℕ → Option (Reassembler × Option Packet) → Held × Option Packet → Type 0
Feeds age none spec = ⊥
Feeds age (some (r, out)) spec =
    IsValid r × (held r ≡ spec.0) × (out ≡ spec.1) × (r.max_age_us ≡ age)

pub new-IsValid : (age : ℕ) → IsValid (new age)
unfolding new
new-IsValid age = omega (arith, length-replicate {0} {A = ℕ} packet_max 0)

abbrev pub stored : Reassembler → Bytes → Reassembler
stored r body = record r { buf = write_at 0 body r.buf; len = length body }

store_lem :
    (r : Reassembler) (body : Bytes)
    → IsValid r
    → length body ≤ packet_max
    → (store r body ≡ some (stored r body))
      × IsValid (stored r body)
      × (take (length body) (write_at 0 body r.buf) ≡ body)
unfolding store
store_lem r body v h = (
  ground arith,
  record { sized = length-write_at 0 body r.buf (omega arith) ∙ v.sized; fits = h },
  take-append body _ refl,
)

whole_lem :
    (r : Reassembler) (body : Bytes) (signal : Signal)
    → IsValid r
    → length body ≤ packet_max
    → Feeds r.max_age_us (feed_whole r body signal) (none, whole body signal)
unfolding feed_whole whole
whole_lem r [] signal v h = ground arith
whole_lem r (b ∷ bs) signal v h = ground (arith, store_lem (clear r) (b ∷ bs))

join_lem :
    (r : Reassembler) (p : Pending) (body : Bytes) (signal : Signal)
    → IsValid r
    → let (r', out) = join r p body signal in
      IsValid r'
      × (held r' ≡ none)
      × (out
          ≡ some (record {
            payload = take packet_max (take r.len r.buf ++ body);
            signal = mean p.signal signal;
          }))
      × (r'.max_age_us ≡ r.max_age_us)
unfolding join
join_lem r p body signal v =
    let end : ℕ = min (r.len + length body) packet_max in
    let part = take (end - r.len) body in
    let size = length-take (end - r.len) body in
    let kept = length-take r.len r.buf in
    let fits = v.fits in
    let sized = v.sized in
    let joined : take end (write_at r.len part r.buf) ≡ take packet_max (take r.len r.buf ++ body) =
      ap (take end) (sym (append_assoc (take r.len r.buf) part _))
      ∙ take-append (take r.len r.buf ++ part) _
          (omega (arith, length-append (take r.len r.buf) part))
      ∙ ap (λ k. take r.len r.buf ++ take k body)
          {y = min (packet_max - length (take r.len r.buf)) (length body)} (omega arith)
      ∙ ap (λ xs. take r.len r.buf ++ xs) (take-min _ body)
      ∙ sym (take-append_ge packet_max (take r.len r.buf) body (omega arith)) in
    (
      record { sized = length-write_at r.len part r.buf (omega arith) ∙ sized; fits = omega arith },
      refl,
      ap (λ xs. some (record { payload = xs; signal = mean p.signal signal })) joined,
      refl,
    )

split_lem :
    (q : Option Pending) (r : Reassembler) (sequence : ℕ) (body : Bytes) (signal : Signal) (now : ℕ)
    → IsValid r
    → length body ≤ packet_max
    → Feeds r.max_age_us
        (feed_split q r sequence body signal now)
        (split (held_in q (take r.len r.buf)) sequence body signal now)
unfolding feed_split split hold
split_lem none r sequence body signal now v h = ground (arith, store_lem r body v h)
split_lem (some p) r sequence body signal now v h =
    ground (arith, store_lem r body v h, join_lem r p body signal v)

expire_lem :
    (q : Option Pending) (r : Reassembler) (now : ℕ)
    → IsValid r
    → q ≡ r.pending
    → let r' = expire q r now in
      IsValid r'
      × (held r' ≡ fresh r.max_age_us now (held_in q (take r.len r.buf)))
      × (r'.max_age_us ≡ r.max_age_us)
unfolding expire fresh
expire_lem none r now v e = ground arith
expire_lem (some p) r now v e = ground arith

-- A frame of at most 509 bytes, so any frame that a radio receives, does not make the reassembler
-- panic: it takes what it holds, gives the packet that the specification gives, keeps its
-- invariant and its age limit.
pub feed_refines :
    (r : Reassembler) (frame : Bytes) (signal : Signal) (now : ℕ)
    → IsValid r
    → length frame ≤ packet_max + 1
    → Feeds r.max_age_us (feed r frame signal now) (receive r.max_age_us (held r) frame signal now)
unfolding feed receive
feed_refines r [] signal now v h = ground arith
feed_refines r (b ∷ body) signal now v h =
    let r' = expire r.pending r now in
    let e = expire_lem r.pending r now v refl in
    ground
      (arith, whole_lem r' body signal, split_lem r'.pending r' (sequence_of b) body signal now)
