-- ===== src/Rnode/Kiss/Refine.antt =====
-- The decoder of core/src/rnode/kiss.rs keeps its invariant and does what `View` says.
use oxinode.Prelude.{
  ℕ, ◌≤◌, ◌≡◌, refl, arith, Bytes, length, length-set, length-take, length-replicate, take-suc-set,
}
use native.Mathlib.Numerals.{add-one}
use oxinode.Rnode.Kiss.{
  fend, fesc, Step, pending, frame, error, State, idle, command, payload, escaped, poisoned,
  Decoder, new, payload_of, push, close_in, feed, feed_in,
}
use oxinode.Rnode.Kiss.View.{
  View, outside, starting, skipping, inside, escaping, Event, nothing, complete, lost, step,
  step_in, finish, accept,
}

-- The buffer has the decoder's size, and what is stored fits in it.
pub record IsValid (n : ℕ) (d : Decoder) : Type 0 where
  pub sized : length d.buf ≡ n
  pub fits : d.len ≤ n

abbrev pub view_in : State → ℕ → Bytes → View
view_in idle c bs = outside
view_in command c bs = starting
view_in payload c bs = inside c bs
view_in escaped c bs = escaping c bs
view_in poisoned c bs = skipping

abbrev pub view : Decoder → View
view d = view_in d.state d.last_command (payload_of d)

-- What a step means, read off the decoder behind it.
abbrev pub event_of : Decoder → Step → Event
event_of d pending = nothing
event_of d frame = complete d.last_command (payload_of d)
event_of d (error e) = lost e

pub new-IsValid : (n : ℕ) → IsValid n (new n)
unfolding new
new-IsValid n = omega (arith, length-replicate {0} n)

length-payload_of : (n : ℕ) {d : Decoder} → IsValid n d → length (payload_of d) ≡ d.len
length-payload_of n {d} v = omega (arith, length-take d.len d.buf)

module _ (n : ℕ) where
  push-IsValid : (d : Decoder) (b : ℕ) → IsValid n d → IsValid n (push n d b).0
  unfolding push
  push-IsValid d b v = ground (arith, length-set d.buf d.len b)

  feed_in-IsValid : (s : State) (d : Decoder) (b : ℕ) → IsValid n d → IsValid n (feed_in n s d b).0
  unfolding feed_in
  feed_in-IsValid idle d b v = v
  feed_in-IsValid poisoned d b v = v
  feed_in-IsValid command d b v = ground arith
  feed_in-IsValid payload d b v = ground (arith, length-set d.buf d.len b)
  feed_in-IsValid escaped d b v =
      ground (arith, length-set d.buf d.len fend, length-set d.buf d.len fesc)

  close_in-IsValid : (s : State) (d : Decoder) → IsValid n d → IsValid n (close_in s d).0
  unfolding close_in
  close_in-IsValid idle d v = ground arith
  close_in-IsValid _ d v = ground arith

  pub feed-IsValid : (d : Decoder) (b : ℕ) → IsValid n d → IsValid n (feed n d b).0
  unfolding feed
  feed-IsValid d b v = ground (arith, close_in-IsValid d.state d v, feed_in-IsValid d.state d b v)

  push_refines :
      (d : Decoder) (b : ℕ)
      → IsValid n d
      → d.state ≡ payload
      → let (d', s) = push n d b in
        (view d', event_of d' s) ≡ accept n d.last_command (payload_of d) b
  unfolding push accept
  push_refines d b v e =
      ground (arith, length-payload_of n v, take-suc-set d.buf d.len b, add-one d.len)

  feed_in_refines :
      (s : State) (d : Decoder) (b : ℕ)
      → IsValid n d
      → d.state ≡ s
      → let (d', r) = feed_in n s d b in
        (view d', event_of d' r) ≡ step_in n (view_in s d.last_command (payload_of d)) b
  unfolding feed_in step_in
  feed_in_refines idle d b v e = ground arith
  feed_in_refines poisoned d b v e = ground arith
  feed_in_refines command d b v e = ground arith
  feed_in_refines payload d b v e = ground (arith, push_refines d b v e)
  feed_in_refines escaped d b v e =
      let d' = record d { state = payload } in
      ground (arith, push_refines d' fend v' refl, push_refines d' fesc v' refl)
    where
      v' : IsValid n (record d { state = payload })
      v' = record { sized = v.sized; fits = v.fits }

  close_in_refines :
      (s : State) (d : Decoder)
      → d.state ≡ s
      → let (d', r) = close_in s d in
        (view d', event_of d' r) ≡ finish (view_in s d.last_command (payload_of d))
  unfolding close_in finish
  close_in_refines idle d e = ground arith
  close_in_refines _ d e = ground arith

  -- One byte fed to a valid decoder, in any state, changes what it shows, and reports, exactly as
  -- the specification says.
  pub feed_refines :
      (d : Decoder) (b : ℕ)
      → IsValid n d
      → let (d', r) = feed n d b in (view d', event_of d' r) ≡ step n (view d) b
  unfolding feed step
  feed_refines d b v =
      ground (arith, close_in_refines d.state d refl, feed_in_refines d.state d b v refl)
