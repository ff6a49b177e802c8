-- ===== src/LogBuf/Tests.antt =====
-- The ring of core/src/logbuf.rs at concrete inputs.
use oxinode.Prelude.{[], ◌∷◌, ◌≡◌, refl, arith}
use oxinode.LogBuf.{RingBuffer, push, pop, push_byte}
use oxinode.LogBuf.Contents.{IsValid, contents}
use oxinode.LogBuf.Push.{push_lem}

-- 8 and then 9, round the end of the storage.
abbrev wrapped : RingBuffer
wrapped = record { buf = 9 ∷ 7 ∷ 8 ∷ []; read = 2; len = 2; dropped = 5 }

wrapped-IsValid : IsValid 3 wrapped
wrapped-IsValid = omega arith

push_lem_example :
    let (r, evicted) = push 3 wrapped (1 ∷ 2 ∷ 3 ∷ []) in
    (contents 3 r ≡ 1 ∷ 2 ∷ 3 ∷ []) × (evicted ≡ 2) × (r.dropped ≡ 7) × IsValid 3 r
unfolding push push_byte
push_lem_example = push_lem 3 (1 ∷ 2 ∷ 3 ∷ []) wrapped-IsValid

push-pop : (pop 3 (push 3 wrapped (1 ∷ [])).0 (0 ∷ 0 ∷ [])).1 ≡ 8 ∷ 9 ∷ []
unfolding push pop push_byte
push-pop = refl
