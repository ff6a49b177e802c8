-- ===== src/Rnode/Outbox/Tests.antt =====
-- An outbox at concrete inputs.
use oxinode.Prelude.{◌≡◌, refl, [], ◌∷◌, replicate}
use oxinode.Rnode.Command.{response_len, host_unescapes, encode_response}
use oxinode.Rnode.Kiss.{encode, encoded_len}
use oxinode.Rnode.Outbox.{new, consume, frame}
use oxinode.Rnode.Outbox.Frames.{new-IsValid}
use oxinode.Rnode.Outbox.Stream.{put, delivered, opened, run, step, Balanced, run-Balanced}

opened-Balanced : Balanced 6 (opened 6)
unfolding new
opened-Balanced = record { valid = new-IsValid 6; whole = refl; counted = refl }

run-refused :
    (run 6 (opened 6) (put 0x21 (7 ∷ []) ∷ delivered 2 ∷ put 0x21 (8 ∷ 9 ∷ []) ∷ [])).refused ≡ 1
unfolding run step frame consume new response_len encoded_len host_unescapes encode_response encode
    replicate
run-refused = refl

run-Balanced_example :
    Balanced 6 (run 6 (opened 6) (put 0x21 (7 ∷ []) ∷ delivered 2 ∷ put 0x21 (8 ∷ 9 ∷ []) ∷ []))
run-Balanced_example = run-Balanced 6 (opened 6) _ opened-Balanced
