-- ===== src/Rnode/Air.antt =====
-- core/src/rnode/air.rs: the header byte of a frame, the splitting of a packet into frames, and the
-- reassembler.
pub mod Header
pub mod View
pub mod Refine
pub mod Frames
pub mod RoundTrip
mod Tests
use oxinode.Prelude.{
  ℕ, ◌+◌, ◌-◌, ◌*◌, ◌/◌, ◌%◌, ◌^◌, min, bit_and, bit_or, Bool, true, false, not, ◌||◌, [], ◌∷◌,
  Option, none, some, if◌then◌else◌, ltb, leb, ◌==◌, Bytes, length, take, drop, set, replicate,
  write_at,
}
use oxinode.Prelude.Int.{ℤ, ◌+ℤ◌, tdiv, wrap}

abbrev pub header_len : ℕ
header_len = 1

abbrev pub flag_split : ℕ
flag_split = 1

abbrev pub frame_max : ℕ
frame_max = 255

abbrev pub frame_payload : ℕ
frame_payload = frame_max - header_len

abbrev pub packet_max : ℕ
packet_max = 2 * frame_payload

unfoldable pub header : ℕ → Bool → ℕ
header sequence split = bit_or (sequence * 16 % 2 ^ 8) (if split then flag_split else 0)

unfoldable pub sequence_of : ℕ → ℕ
sequence_of h = h / 16

unfoldable pub is_split : ℕ → Bool
is_split h = not (bit_and h flag_split == 0)

-- `Sequence`, the nibble for the next packet.
unfoldable pub new_sequence : ℕ → ℕ
new_sequence seed = bit_and seed 15

-- `Sequence::take`: the nibble, and the sequence behind it.
unfoldable pub take_sequence : ℕ → ℕ × ℕ
take_sequence n = (n, bit_and ((n + 1) % 2 ^ 8) 15)

pub record Split : Type 0 where
  pub head : ℕ
  pub packet : Bytes

unfoldable pub new_split : Bytes → ℕ → Option Split
new_split packet sequence =
    if ltb packet_max (length packet)
    then none
    else some
        (record { head = header sequence (ltb frame_payload (length packet)); packet = packet })

unfoldable pub frames : Split → ℕ
frames s = if ltb frame_payload (length s.packet) then 2 else 1

-- The result is beside the buffer that `out` becomes.
unfoldable pub frame : Split → ℕ → Bytes → Option ℕ × Bytes
unfolding frames
frame s index out =
    let start = index * frame_payload in
    let end = min (start + frame_payload) (length s.packet) in
    let body = take (end - start) (drop start s.packet) in
    if leb (frames s) index || ltb (length out) frame_max
    then (none, out)
    else (some (header_len + length body), write_at header_len body (set out 0 s.head))

pub record Signal : Type 0 where
  pub rssi_dbm : ℤ
  pub snr_quarter_db : ℤ

-- The sum of two `i16` wraps; that of two `i8`, taken in `i16`, does not need to.
unfoldable pub mean : Signal → Signal → Signal
unfolding tdiv wrap ◌+ℤ◌
mean a b = record {
  rssi_dbm = tdiv (wrap 16 (a.rssi_dbm +ℤ b.rssi_dbm)) 2;
  snr_quarter_db = wrap 8 (tdiv (a.snr_quarter_db +ℤ b.snr_quarter_db) 2);
}

pub record Packet : Type 0 where
  pub payload : Bytes
  pub signal : Signal

pub record Pending : Type 0 where
  pub sequence : ℕ
  pub signal : Signal
  pub since_us : ℕ

pub record Reassembler : Type 0 where
  pub buf : Bytes
  pub len : ℕ
  pub pending : Option Pending
  pub max_age_us : ℕ

unfoldable pub new : ℕ → Reassembler
new age = record { buf = replicate packet_max 0; len = 0; pending = none; max_age_us = age }

unfoldable pub set_max_age_us : Reassembler → ℕ → Reassembler
set_max_age_us r age = record r { max_age_us = age }

abbrev pub is_holding : Reassembler → Bool
is_holding r = elim r.pending [ some p ↦ true | none ↦ false ]

unfoldable pub clear : Reassembler → Reassembler
clear r = record r { pending = none; len = 0 }

-- `now_us.wrapping_sub(since_us) > max_age_us`.
unfoldable pub is_stale : ℕ → ℕ → Pending → Bool
is_stale age now p = ltb age ((now + 2 ^ 64 - p.since_us) % 2 ^ 64)

-- The first half of `feed`: a first half that is too old counts as not held.
unfoldable pub expire : Option Pending → Reassembler → ℕ → Reassembler
unfolding clear is_stale
expire none r now = r
expire (some p) r now = if is_stale r.max_age_us now p then clear r else r

-- `none` is a panic: `buf[..body.len()]` is out of range.
unfoldable pub store : Reassembler → Bytes → Option Reassembler
store r body =
    if ltb packet_max (length body)
    then none
    else some (record r { buf = write_at 0 body r.buf; len = length body })

abbrev packet_in : Reassembler → Signal → Packet
packet_in r signal = record { payload = take r.len r.buf; signal = signal }

-- A frame without the split flag.
unfoldable pub feed_whole : Reassembler → Bytes → Signal → Option (Reassembler × Option Packet)
unfolding clear store
feed_whole r [] signal = some (clear r, none)
feed_whole r (b ∷ bs) signal = elim (store (clear r) (b ∷ bs)) [
  | none ↦ none
  | some r' ↦ some (r', some (packet_in r' signal))
]

-- The second half of what is held.
unfoldable pub join : Reassembler → Pending → Bytes → Signal → Reassembler × Option Packet
unfolding mean
join r p body signal =
    let end = min (r.len + length body) packet_max in
    let r' = record r {
      buf = write_at r.len (take (end - r.len) body) r.buf;
      len = end;
      pending = none;
    } in
    (r', some (packet_in r' (mean p.signal signal)))

-- A new first half.
unfoldable pub hold : Reassembler → ℕ → Bytes → Signal → ℕ → Option (Reassembler × Option Packet)
unfolding store
hold r sequence body signal now = elim (store r body) [
  | none ↦ none
  | some r' ↦ some (
    record r' { pending = some (record { sequence = sequence; signal = signal; since_us = now }) },
    none,
  )
]

unfoldable pub feed_split :
    Option Pending → Reassembler → ℕ → Bytes → Signal → ℕ → Option (Reassembler × Option Packet)
unfolding join hold
feed_split none r sequence body signal now = hold r sequence body signal now
feed_split (some p) r sequence body signal now =
    if p.sequence == sequence then some (join r p body signal) else hold r sequence body signal now

-- `Reassembler::feed`; the outer `none` is a panic, the inner one is "no packet".
unfoldable pub feed : Reassembler → Bytes → Signal → ℕ → Option (Reassembler × Option Packet)
unfolding expire feed_whole feed_split
feed r [] signal now = some (r, none)
feed r (h ∷ body) signal now =
    let r' = expire r.pending r now in
    if not (is_split h)
    then feed_whole r' body signal
    else feed_split r'.pending r' (sequence_of h) body signal now
