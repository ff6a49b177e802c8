-- ===== src/Rnode/Kiss/Encode.antt =====
-- `kiss::encode` writes the frame, and nothing outside it.
use oxinode.Prelude.{
  ℕ, suc, ◌+◌, ◌≤◌, ◌<◌, [], ◌∷◌, ◌++◌, ◌≡◌, refl, arith, Bytes, ◌==◌, if◌then◌else◌, length, ap₂,
  ◌∙◌, ap, true, Bool, ◌&&◌, length-append, write_at, write_at-nil, write_at-cons, length-set, drop,
  some, none, sym, set-write_at, ltb, inl, inr, Bool-cases, set, false,
}
use oxinode.Rnode.Kiss.{
  fend, fesc, tfend, tfesc, needs_escape, escaped_len, encode_body, encoded_len, encode,
}
use oxinode.Rnode.Kiss.RoundTrip.{escape_byte, escape_bytes, wire}

write_at-two :
    (i y z : ℕ) (ys out : Bytes)
    → i + 1 < length out
    → write_at (i + 2) ys (set (set out i y) (i + 1) z) ≡ write_at i (y ∷ z ∷ ys) out
write_at-two i y z ys out h =
    ap (λ k. write_at k ys (set (set out i y) (i + 1) z)) {y = i + 1 + 1} (omega arith)
    ∙ write_at-cons (i + 1) z ys (set out i y) (omega (arith, length-set out i y))
    ∙ write_at-cons i y (z ∷ ys) out (omega arith)

length-escape_bytes : (p : Bytes) → length (escape_bytes true p) ≡ escaped_len p
unfolding escape_bytes escape_byte escaped_len
length-escape_bytes [] = refl
length-escape_bytes (b ∷ p) = ground (arith, length-escape_bytes p)

length-escape_bytes_raw : (p : Bytes) → length (escape_bytes false p) ≡ length p
unfolding escape_bytes escape_byte
length-escape_bytes_raw [] = refl
length-escape_bytes_raw (b ∷ p) = ground (arith, length-escape_bytes_raw p)

pub length-wire :
    (c : ℕ) (p : Bytes) (escape : Bool) → length (wire c p escape) ≡ encoded_len p escape
unfolding encoded_len
length-wire c p true =
    omega (arith, length-escape_bytes p, length-append (escape_bytes true p) (fend ∷ []))
length-wire c p false =
    omega (arith, length-escape_bytes_raw p, length-append (escape_bytes false p) (fend ∷ []))

abbrev stand_in : ℕ → ℕ
stand_in b = if b == fend then tfend else tfesc

escape_byte-escaped :
    (e : Bool) (b : ℕ) → e && needs_escape b ≡ true → escape_byte e b ≡ fesc ∷ stand_in b ∷ []
unfolding escape_byte
escape_byte-escaped e b h = rw h

escape_byte_raw : (e : Bool) (b : ℕ) → e && needs_escape b ≡ false → escape_byte e b ≡ b ∷ []
unfolding escape_byte
escape_byte_raw e b h = rw h

-- The loop writes the escaped payload from its index on.
encode_body-write_at :
    (e : Bool) (p out : Bytes) (i : ℕ)
    → i + length (escape_bytes e p) ≤ length out
    → encode_body e p out i ≡ (write_at i (escape_bytes e p) out, i + length (escape_bytes e p))
unfolding encode_body escape_bytes
encode_body-write_at e [] out i h =
    ap₂ (λ (x : Bytes) (k : ℕ). (x, k)) (sym (write_at-nil i out)) (omega arith)
encode_body-write_at e (b ∷ p) out i h = elim (Bool-cases (e && needs_escape b)) [
  | inl esc ↦
      let same = escape_byte-escaped e b esc in
      let out' = set (set out i fesc) (i + 1) (stand_in b) in
      let room : i + suc (suc (length (escape_bytes e p))) ≤ length out = rw same at h in
      rw (esc, same)
        (encode_body-write_at e p out' (i + 2)
            (omega (arith, length-set (set out i fesc) (i + 1) (stand_in b), length-set out i fesc))
          ∙ ap₂ (λ (x : Bytes) (k : ℕ). (x, k))
              (write_at-two i fesc (stand_in b) (escape_bytes e p) out (omega arith)) (omega arith))
  | inr raw ↦
      let same = escape_byte_raw e b raw in
      let room : i + suc (length (escape_bytes e p)) ≤ length out = rw same at h in
      rw (raw, same)
        (encode_body-write_at e p (set out i b) (i + 1) (omega (arith, length-set out i b))
          ∙ ap₂ (λ (x : Bytes) (k : ℕ). (x, k))
              (write_at-cons i b (escape_bytes e p) out (omega arith)) (omega arith))
]

encode_body-wire :
    (c : ℕ) (p : Bytes) (e : Bool) (out : Bytes)
    → encoded_len p e ≤ length out
    → let (out', i) = encode_body e p (set (set out 0 fend) 1 c) 2 in
      (set out' i fend ≡ wire c p e ++ drop (encoded_len p e) out) × (i + 1 ≡ encoded_len p e)
encode_body-wire c p e out h =
    let out2 = set (set out 0 fend) 1 c in
    let body = escape_bytes e p in
    let total = length-wire c p e in
    let grown = length-append body (fend ∷ []) in
    let kept = length-set (set out 0 fend) 1 c in
    let kept' = length-set out 0 fend in
    let written = encode_body-write_at e p out2 2 (omega arith) in
    rw written (
      set-write_at 2 body out2 fend (omega arith)
          ∙ write_at-two 0 fend c (body ++ (fend ∷ [])) out (omega arith)
          ∙ ap (λ k. wire c p e ++ drop k out) (omega arith),
      omega arith,
    )

-- A buffer that is long enough gets exactly the frame, at its start, and keeps the rest; one that
-- is too short is left as it was.
pub encode-wire :
    (c : ℕ) (p : Bytes) (escape : Bool) (out : Bytes)
    → encode c p escape out ≡ (
        if ltb (length out) (encoded_len p escape)
        then (none, out)
        else (some (encoded_len p escape), wire c p escape ++ drop (encoded_len p escape) out))
unfolding encode encoded_len
encode-wire c p e out = ground (arith, encode_body-wire c p e out)
