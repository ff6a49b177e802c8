-- ===== src/Rnode/Outbox/Frames.antt =====
-- Each operation of the outbox, by what it does to the bytes that wait.
use oxinode.Prelude.{
  ℕ, ◌+◌, ◌-◌, ◌≤◌, ◌<◌, ◌≡◌, refl, ap, sym, ◌∙◌, arith, min, some, Bytes, inc_u32, length, take,
  drop, ◌++◌, [], length-append, length-take, length-drop, take-append, append_assoc, le→ltb_false,
  length-replicate,
}
use oxinode.Rnode.Command.{encode_response, response_len, host_unescapes}
use oxinode.Rnode.Kiss.{encoded_len}
use oxinode.Rnode.Kiss.Encode.{encode-wire, length-wire}
use oxinode.Rnode.Kiss.RoundTrip.{wire}
use oxinode.Rnode.Outbox.{Outbox, new, pending, consume, abandon, frame}

pub record IsValid (n : ℕ) (o : Outbox) : Type 0 where
  pub sized : length o.buf ≡ n
  pub fits : o.len ≤ n

-- A response as it goes on the wire, escaped as the host reads it.
abbrev pub response : ℕ → Bytes → Bytes
response cmd payload = wire cmd payload (host_unescapes cmd)

pub length-response : (c : ℕ) (p : Bytes) → length (response c p) ≡ response_len c p
unfolding response_len
length-response c p = length-wire c p (host_unescapes c)

pub new-IsValid : (n : ℕ) → IsValid n (new n)
unfolding new
new-IsValid n = omega (arith, length-replicate {0} {A = ℕ} n 0)

pub length-pending : {n : ℕ} {o : Outbox} → IsValid n o → length (pending o) ≡ o.len
length-pending {n} {o} v = omega (arith, length-take o.len o.buf)

encode_response-room :
    (c : ℕ) (p out : Bytes)
    → response_len c p ≤ length out
    → encode_response c p out
      ≡ (some (response_len c p), response c p ++ drop (response_len c p) out)
unfolding encode_response response_len
encode_response-room c p out h =
    encode-wire c p (host_unescapes c) out
    ∙ rw (le→ltb_false (length out) (encoded_len p (host_unescapes c)) h) refl

module _ (n : ℕ) where
  pub frame_fits :
      {o : Outbox} (c : ℕ) (p : Bytes)
      → IsValid n o
      → o.len + response_len c p ≤ n
      → IsValid n (frame n o c p)
        × (pending (frame n o c p) ≡ pending o ++ response c p)
        × ((frame n o c p).dropped ≡ o.dropped)
  unfolding frame
  frame_fits {o} c p v h =
      let need : ℕ = response_len c p in
      let fits = v.fits in
      let sized = v.sized in
      let behind = drop o.len o.buf in
      let room : need ≤ length behind = omega (arith, length-drop o.len o.buf) in
      let size = length-response c p in
      let kept = length-take o.len o.buf in
      rw (encode_response-room c p behind room, le→ltb_false n (o.len + need) h)
        (
          record {
            sized = omega (
              arith,
              length-append (take o.len o.buf) (response c p ++ drop need behind),
              length-append (response c p) (drop need behind),
              length-drop need behind,
              length-drop o.len o.buf,
            );
            fits = h;
          },
          ap (take (o.len + need)) (sym (append_assoc (take o.len o.buf) (response c p) _))
              ∙ take-append (take o.len o.buf ++ response c p) _
                  (omega (arith, length-append (take o.len o.buf) (response c p))),
          refl,
        )

  pub frame_full :
      (o : Outbox) (c : ℕ) (p : Bytes)
      → n < o.len + response_len c p
      → frame n o c p ≡ record o { dropped = inc_u32 o.dropped }
  unfolding frame
  frame_full o c p h = ground arith

  pub consume_lem :
      {o : Outbox} (sent : ℕ)
      → IsValid n o
      → IsValid n (consume o sent)
        × (pending (consume o sent) ≡ drop (min sent o.len) (pending o))
        × ((consume o sent).dropped ≡ o.dropped)
  unfolding consume
  consume_lem {o} sent v =
      let k : ℕ = min sent o.len in
      let fits = v.fits in
      let sized = v.sized in
      let kept = length-drop k (take o.len o.buf) in
      let took = length-take o.len o.buf in
      (
        record {
          sized = omega (
            arith,
            length-append (drop k (take o.len o.buf)) (drop (o.len - k) o.buf),
            length-drop (o.len - k) o.buf,
          );
          fits = omega arith;
        },
        take-append (drop k (take o.len o.buf)) _ (omega arith),
        refl,
      )

  pub abandon_lem : {o : Outbox} → IsValid n o → IsValid n (abandon o) × (pending (abandon o) ≡ [])
  unfolding abandon
  abandon_lem v = (record { sized = v.sized; fits = omega arith }, refl)
