-- ===== src/Rnode/Kiss/Stream.antt =====
-- A stream of bytes fed to the decoder, as the USB and Bluetooth pumps feed it (src/nus.rs): what
-- the specification makes of it, and what a frame in it gives.
use oxinode.Prelude.{ℕ, List, [], ◌∷◌, ◌≡◌, refl, arith, Bytes}
use oxinode.Rnode.Kiss.{Decoder, feed}
use oxinode.Rnode.Kiss.View.{Event, events, after}
use oxinode.Rnode.Kiss.Refine.{IsValid, view, event_of, feed-IsValid, feed_refines}

-- The decoder behind a stream, and the events of its steps in order.
unfoldable pub run : ℕ → Decoder → Bytes → Decoder × List Event
run n d [] = (d, [])
run n d (b ∷ bs) =
    let (d', s) = feed n d b in let (d'', es) = run n d' bs in (d'', event_of d' s ∷ es)

module _ (n : ℕ) where
  pub run-IsValid : (d : Decoder) (bs : Bytes) → IsValid n d → IsValid n (run n d bs).0
  unfolding run
  run-IsValid d [] v = v
  run-IsValid d (b ∷ bs) v = run-IsValid (feed n d b).0 bs (feed-IsValid n d b v)

  -- A stream of any bytes, cut and corrupted as it may be, is decoded as the specification decodes
  -- it, with its bounded buffer never overrun.
  pub run_refines :
      (d : Decoder) (bs : Bytes)
      → IsValid n d
      → let (d', es) = run n d bs in
        (es ≡ events n (view d) bs) × (view d' ≡ after n (view d) bs) × IsValid n d'
  unfolding run events after
  run_refines d [] v = (refl, refl, v)
  run_refines d (b ∷ bs) v = ground (
    arith,
    run_refines (feed n d b).0 bs (feed-IsValid n d b v),
    feed_refines n d b v,
    feed-IsValid n d b v,
  )
