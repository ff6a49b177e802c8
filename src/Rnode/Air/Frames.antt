-- ===== src/Rnode/Air/Frames.antt =====
-- The frames that `Split` cuts a packet into.
use oxinode.Prelude.{
  ℕ, zero, suc, lt→leb_false, le→ltb_false, ◌+◌, ◌-◌, ◌*◌, ◌≤◌, ◌<◌, ◌∷◌, ◌++◌, ◌≡◌, none, some,
  Bytes, length, take, drop, arith, min, write_at-cons, ap, ◌∙◌, take-min, length-drop, length-take,
  take-append,
}
use oxinode.Rnode.Air.{frame_max, frame_payload, Split, frames, frame}

-- The part of the packet that frame `index` carries.
abbrev pub part : Split → ℕ → Bytes
part s index = take frame_payload (drop (index * frame_payload) s.packet)

-- What the radio is given for a frame: the bytes that `frame` reports, off a buffer.
abbrev pub on_air : Split → ℕ → Bytes → Bytes
on_air s index out =
    let (n, out') = frame s index out in take (elim n [ none ↦ 0 | some k ↦ k ]) out'

cut :
    (s : Split) (index : ℕ)
    → index * frame_payload ≤ length s.packet
    → let start = index * frame_payload in
      take (min (start + frame_payload) (length s.packet) - start) (drop start s.packet)
      ≡ part s index
cut s index h =
    let start : ℕ = index * frame_payload in
    ap (λ k. take k (drop start s.packet)) {y = min frame_payload (length (drop start s.packet))}
      (omega (arith, length-drop start s.packet))
    ∙ take-min frame_payload (drop start s.packet)

in_packet : (s : Split) (index : ℕ) → index < frames s → index * frame_payload ≤ length s.packet
unfolding frames
in_packet s zero h = omega arith
in_packet s (suc zero) h = ground arith
in_packet s (suc (suc i)) h = absurd (ground arith)

-- A frame that the packet has, written to a buffer with room, is the header and the frame's part
-- of the packet; the rest of the buffer is kept.
pub frame-part :
    (s : Split) (index : ℕ) (out : Bytes)
    → index < frames s
    → frame_max ≤ length out
    → frame s index out ≡ (
      some (1 + length (part s index)),
      s.head ∷ (part s index ++ drop (1 + length (part s index)) out),
    )
unfolding frame
frame-part s index out h room =
    rw (lt→leb_false _ _ h, le→ltb_false _ _ room, cut s index (in_packet s index h))
      (ap (λ xs. (some (1 + length (part s index)), xs))
        (write_at-cons 0 s.head (part s index) out (omega arith)
          ∙ ap (λ k. s.head ∷ (part s index ++ drop k out)) (omega arith)))

pub on_air-part :
    (s : Split) (index : ℕ) (out : Bytes)
    → index < frames s
    → frame_max ≤ length out
    → on_air s index out ≡ s.head ∷ part s index
on_air-part s index out h room =
    rw (frame-part s index out h room) (take-append (s.head ∷ part s index) _ (omega arith))

pub length-part : (s : Split) (index : ℕ) → length (part s index) ≤ frame_payload
length-part s index =
    omega (arith, length-take frame_payload (drop (index * frame_payload) s.packet))
