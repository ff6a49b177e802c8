-- ===== src/Rnode/Kiss/Framing.antt =====
-- Frames sent through the real encoder and decoder of core/src/rnode/kiss.rs.
use oxinode.Prelude.{
  ℕ, ◌≤◌, ◌<◌, [], ◌∷◌, ◌++◌, ◌≡◌, ◌≢◌, arith, Bytes, length, take, true, ◌∙◌, ap, take-append, ap₂,
  sym, le→ltb_false,
}
use oxinode.Rnode.Kiss.{Decoder, feed, fend, too_long, encode, encoded_len}
use oxinode.Rnode.Kiss.View.{starting, complete, lost, finish, events, step}
use oxinode.Rnode.Kiss.Refine.{IsValid, view, event_of, feed_refines, feed-IsValid}
use oxinode.Rnode.Kiss.Stream.{run, run_refines}
use oxinode.Rnode.Kiss.RoundTrip.{
  reports, wire, reports-wire, finish-starting, reports-wire_overlong,
}
use oxinode.Rnode.Kiss.Encode.{encode-wire, length-wire}

-- What an encoder with room leaves at the front of its buffer.
abbrev pub sent : ℕ → Bytes → Bytes → Bytes
sent c p out = take (encoded_len p true) (encode c p true out).1

sent-wire : (c : ℕ) (p out : Bytes) → encoded_len p true ≤ length out → sent c p out ≡ wire c p true
sent-wire c p out h =
    rw (encode-wire c p true out, le→ltb_false (length out) (encoded_len p true) h)
      (take-append (wire c p true) _ (sym (length-wire c p true)))

-- A delimiter brings any decoder to the start of a frame, and reports what it ends.
feed-fend :
    {n : ℕ} {d : Decoder}
    → IsValid n d
    → let (d', s) = feed n d fend in (view d' ≡ starting) × (event_of d' s ≡ (finish (view d)).1)
unfolding step
feed-fend {n} {d} v = ground (arith, feed_refines n d fend v, finish-starting (view d))

-- What further bytes give behind a delimiter.
run-feed-fend :
    {n : ℕ} {d : Decoder} (bs : Bytes)
    → IsValid n d
    → (run n (feed n d fend).0 bs).1 ≡ events n starting bs
run-feed-fend {n} {d} bs v =
    (run_refines n (feed n d fend).0 bs (feed-IsValid n d fend v)).0
    ∙ ap (λ w. events n w bs) (feed-fend v).0

module _ {n : ℕ} {d : Decoder} (v : IsValid n d) (c : ℕ) (p out rest : Bytes) where
  -- Encode a payload that fits the decoder, escaped, into any buffer with room; feed the bytes to a
  -- decoder in any state, and any more bytes behind them. The decoder reports what the opening
  -- delimiter ends, then the frame with its command and its payload, then what the further bytes
  -- give a decoder that has just seen a delimiter. (The command is not the delimiter.)
  pub run-encode :
      c ≢ fend
      → length p ≤ n
      → encoded_len p true ≤ length out
      → reports (run n d (sent c p out ++ rest)).1
        ≡ reports (event_of (feed n d fend).0 (feed n d fend).1 ∷ [])
          ++ (complete c p ∷ reports (run n (feed n d fend).0 rest).1)
  run-encode h fits room = rw (sent-wire c p out room) (
      ap reports (run_refines n d (wire c p true ++ rest) v).0
      ∙ reports-wire n c (view d) p rest h fits
      ∙ ap₂ (λ e es. reports (e ∷ []) ++ (complete c p ∷ reports es)) (sym (feed-fend v).1)
          (sym (run-feed-fend rest v)))

  -- A payload longer than the decoder's buffer is dropped whole: its frame gives one error, no part
  -- of it is handed up, and what follows is decoded as if it had not been there.
  pub run-encode_overlong :
      c ≢ fend
      → n < length p
      → encoded_len p true ≤ length out
      → reports (run n d (sent c p out ++ rest)).1
        ≡ reports (event_of (feed n d fend).0 (feed n d fend).1 ∷ [])
          ++ (lost too_long ∷ reports (run n (feed n d fend).0 rest).1)
  run-encode_overlong h over room = rw (sent-wire c p out room) (
      ap reports (run_refines n d (wire c p true ++ rest) v).0
      ∙ reports-wire_overlong n c (view d) p rest h over
      ∙ ap₂ (λ e es. reports (e ∷ []) ++ (lost too_long ∷ reports es)) (sym (feed-fend v).1)
          (sym (run-feed-fend rest v)))

-- A delimiter resynchronises: behind it two valid decoders report the same of any bytes, whatever
-- each had received before.
pub feed-resync :
    {n : ℕ} {d e : Decoder}
    → IsValid n d
    → IsValid n e
    → (bs : Bytes) → (run n (feed n d fend).0 bs).1 ≡ (run n (feed n e fend).0 bs).1
feed-resync {n} {d} {e} v w bs = run-feed-fend bs v ∙ sym (run-feed-fend bs w)
