-- ===== src/Rnode/Kiss/Tests.antt =====
-- Runs of the encoder and the decoder, and the theorems at concrete inputs.
use oxinode.Prelude.{[], ◌∷◌, ◌++◌, ◌≡◌, refl, some, true, Bytes, replicate, arith}
use oxinode.Rnode.Kiss.{
  Decoder, new, feed, fend, fesc, tfend, too_long, bad_escape, encode, encoded_len, escaped,
  truncated_escape,
}
use oxinode.Rnode.Kiss.Framing.{sent, run-encode, run-encode_overlong, feed-resync}
use oxinode.Rnode.Kiss.Refine.{IsValid, view, new-IsValid}
use oxinode.Rnode.Kiss.RoundTrip.{reports, escape_bytes, escape_byte, wire}
use oxinode.Rnode.Kiss.Stream.{run, run_refines}
use oxinode.Rnode.Kiss.View.{complete, lost, events, after}

abbrev small : Decoder
small = record { state = escaped; last_command = 1; buf = 5 ∷ 6 ∷ 7 ∷ 8 ∷ []; len = 2; dropped = 0 }

small-IsValid : IsValid 4 small
small-IsValid = omega arith

abbrev content : Bytes
content = 3 ∷ fend ∷ []

abbrev room : Bytes
room = replicate 16 0

encode_small : encode 7 content true room ≡ (some 6, wire 7 content true ++ replicate 10 0)
unfolding encode escape_bytes escape_byte replicate
encode_small = refl

garbage :
    reports (run 4 small (9 ∷ fend ∷ 2 ∷ fesc ∷ fend ∷ 5 ∷ 6 ∷ fend ∷ [])).1
    ≡ lost bad_escape ∷ lost truncated_escape ∷ complete 5 (6 ∷ []) ∷ []
unfolding run feed reports
garbage = refl

run_refines_example :
    let (d', es) = run 4 small (tfend ∷ fend ∷ []) in
    (es ≡ events 4 (view small) (tfend ∷ fend ∷ []))
    × (view d' ≡ after 4 (view small) (tfend ∷ fend ∷ []))
    × IsValid 4 d'
run_refines_example = run_refines 4 small (tfend ∷ fend ∷ []) small-IsValid

run-encode_example :
    reports (run 4 small (sent 7 content room ++ (9 ∷ fend ∷ []))).1
    ≡ lost truncated_escape ∷ complete 7 content ∷ complete 9 [] ∷ []
unfolding run feed reports encoded_len replicate
run-encode_example =
    run-encode small-IsValid 7 content room (9 ∷ fend ∷ []) (cc) (omega arith) (omega arith)

run-encode_overlong_example :
    reports (run 1 (new 1) (sent 7 content room ++ (9 ∷ fend ∷ []))).1
    ≡ lost too_long ∷ complete 9 [] ∷ []
unfolding run feed reports encoded_len new replicate
run-encode_overlong_example =
    run-encode_overlong (new-IsValid 1) 7 content room (9 ∷ fend ∷ []) (cc) (omega arith)
      (omega arith)

feed-resync_example :
    (run 4 (feed 4 small fend).0 (1 ∷ 2 ∷ fend ∷ [])).1
    ≡ (run 4 (feed 4 (new 4) fend).0 (1 ∷ 2 ∷ fend ∷ [])).1
feed-resync_example = feed-resync small-IsValid (new-IsValid 4) (1 ∷ 2 ∷ fend ∷ [])
