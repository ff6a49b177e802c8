-- ===== src/Rnode/Outbox/Stream.antt =====
-- The byte stream that a host reads out of an outbox.
use oxinode.Prelude.{
  ℕ, ◌+◌, ◌≡◌, ap, sym, ◌∙◌, arith, min, if◌then◌else◌, ltb, Bytes, take, ◌++◌, [], ◌∷◌, List, true,
  false, Bool-cases, inl, inr, take-append-drop, append_assoc, ltb→lt, ◌%◌, ◌^◌,
}
use oxinode.Rnode.Command.{response_len}
use oxinode.Rnode.Outbox.{Outbox, new, pending, consume, frame}
use oxinode.Rnode.Outbox.Frames.{IsValid, response, frame_fits, frame_full, consume_lem}

-- The modem puts a response in, or the transport says how many bytes it has delivered.
pub data Op : Type 0 where
  put : ℕ → Bytes → Op
  delivered : ℕ → Op

-- The outbox behind some calls, the bytes that the transport has taken from its front, the
-- responses that were taken in whole, and the number of those that were not.
pub record Ledger : Type 0 where
  pub outbox : Outbox
  pub left : Bytes
  pub taken_in : Bytes
  pub refused : ℕ

unfoldable pub step : ℕ → Ledger → Op → Ledger
step n l (put c p) =
    let full = ltb n (l.outbox.len + response_len c p) in
    record {
      outbox = frame n l.outbox c p;
      left = l.left;
      taken_in = if full then l.taken_in else l.taken_in ++ response c p;
      refused = if full then l.refused + 1 else l.refused;
    }
step n l (delivered k) = record {
  outbox = consume l.outbox k;
  left = l.left ++ take (min k l.outbox.len) (pending l.outbox);
  taken_in = l.taken_in;
  refused = l.refused;
}

unfoldable pub run : ℕ → Ledger → List Op → Ledger
run n l [] = l
run n l (op ∷ ops) = run n (step n l op) ops

abbrev pub opened : ℕ → Ledger
opened n = record { outbox = new n; left = []; taken_in = []; refused = 0 }

-- What left and what waits make up what was taken in; each refusal is counted.
pub record Balanced (n : ℕ) (l : Ledger) : Type 0 where
  pub valid : IsValid n l.outbox
  pub whole : l.left ++ pending l.outbox ≡ l.taken_in
  pub counted : l.outbox.dropped ≡ l.refused % 2 ^ 32

module _ (n : ℕ) where
  put_full :
      (l : Ledger) (c : ℕ) (p : Bytes)
      → ltb n (l.outbox.len + response_len c p) ≡ true
      → Balanced n l
      → Balanced n (step n l (put c p))
  unfolding step
  put_full l c p full b =
      rw (full, frame_full n l.outbox c p (ltb→lt _ _ full))
        (record {
          valid = record { sized = b.valid.sized; fits = b.valid.fits };
          whole = b.whole;
          counted = omega (arith, b.counted);
        })

  put_room :
      (l : Ledger) (c : ℕ) (p : Bytes)
      → ltb n (l.outbox.len + response_len c p) ≡ false
      → Balanced n l
      → Balanced n (step n l (put c p))
  unfolding step
  put_room l c p room b =
      let (v, grown, same) = frame_fits n c p b.valid (ground arith) in
      rw room (record {
        valid = v;
        whole =
            ap (λ xs. l.left ++ xs) grown
            ∙ sym (append_assoc l.left (pending l.outbox) (response c p))
            ∙ ap (λ xs. xs ++ response c p) b.whole;
        counted = same ∙ b.counted;
      })

  pub step-Balanced : (l : Ledger) (op : Op) → Balanced n l → Balanced n (step n l op)
  step-Balanced l (put c p) b = elim (Bool-cases (ltb n (l.outbox.len + response_len c p))) [
    | inl full ↦ put_full l c p full b
    | inr room ↦ put_room l c p room b
  ]
  step-Balanced l (delivered k) b =
      unfold step in
      (let (v, less, same) = consume_lem n k b.valid in
        record {
          valid = v;
          whole =
              ap (λ xs. (l.left ++ take (min k l.outbox.len) (pending l.outbox)) ++ xs) less
              ∙ append_assoc l.left _ _
              ∙ ap (λ xs. l.left ++ xs) (take-append-drop (min k l.outbox.len) (pending l.outbox))
              ∙ b.whole;
          counted = same ∙ b.counted;
        })

  -- Whole frames or nothing: after any sequence of responses put in and bytes taken out, what the
  -- host has read and what still waits are together the responses that were taken in, each whole
  -- and in order; the drop count is the number of the others, modulo 2 ^ 32.
  pub run-Balanced : (l : Ledger) (ops : List Op) → Balanced n l → Balanced n (run n l ops)
  unfolding run
  run-Balanced l [] b = b
  run-Balanced l (op ∷ ops) b = run-Balanced (step n l op) ops (step-Balanced l op b)
