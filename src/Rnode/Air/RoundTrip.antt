-- ===== src/Rnode/Air/RoundTrip.antt =====
-- A packet cut by `Split` and fed, frame by frame, to a `Reassembler`.
use mathlib.Core.Option
use oxinode.Prelude.{
  ℕ, ◌+◌, ◌-◌, ◌%◌, ◌^◌, ◌≤◌, ◌<◌, true, false, List, [], ◌∷◌, ◌++◌, ◌≡◌, ◌≢◌, refl, Option, none,
  some, Bytes, length, take, drop, arith, ap, ap₂, subst, lt→ltb, length-drop, length-take,
  le→ltb_false, ◌∙◌, take-all, take-append-drop, ltb,
}
use oxinode.Rnode.Air.{
  packet_max, frame_max, frame_payload, header, Split, new_split, frames, Reassembler, Signal, mean,
  Packet, feed, is_stale,
}
use oxinode.Rnode.Air.Frames.{on_air, on_air-part}
use oxinode.Rnode.Air.Header.{header_lem}
use oxinode.Rnode.Air.Refine.{IsValid, held, Feeds, feed_refines}
use oxinode.Rnode.Air.View.{Held, Half, receive, fresh, split}

-- A frame as the radio hands it up: its bytes, its signal, and when it arrived.
pub record Arrival : Type 0 where
  pub bytes : Bytes
  pub signal : Signal
  pub now : ℕ

abbrev pub collect : Option Packet → List Packet → List Packet
collect none ps = ps
collect (some p) ps = p ∷ ps

-- The reassembler behind a sequence of frames, and the packets handed up; `none` is a panic.
unfoldable pub run : Reassembler → List Arrival → Option (Reassembler × List Packet)
run r [] = some (r, [])
run r (a ∷ rest) = elim (feed r a.bytes a.signal a.now) [
  | none ↦ none
  | some (r', out) ↦
      Option.map (λ (s : Reassembler × List Packet). (s.0, collect out s.1)) (run r' rest)
]

unfoldable pub receive_all : ℕ → Held → List Arrival → Held × List Packet
receive_all age h [] = (h, [])
receive_all age h (a ∷ rest) =
    let (h', out) = receive age h a.bytes a.signal a.now in
    let (h'', ps) = receive_all age h' rest in (h'', collect out ps)

abbrev pub AllFit : List Arrival → Type 0
AllFit [] = Unit
AllFit (a ∷ rest) = (length a.bytes ≤ packet_max + 1) × AllFit rest

-- No panic, a valid state that holds `h`, and exactly these packets.
abbrev pub Delivers : Option (Reassembler × List Packet) → Held × List Packet → Type 0
Delivers none spec = ⊥
Delivers (some (r, ps)) spec = IsValid r × (held r ≡ spec.0) × (ps ≡ spec.1)

Delivers-collect :
    (m : Option (Reassembler × List Packet)) (out : Option Packet) (spec : Held × List Packet)
    → Delivers m spec
    → Delivers
        (Option.map (λ (s : Reassembler × List Packet). (s.0, collect out s.1)) m)
        (spec.0, collect out spec.1)
Delivers-collect none out spec d = d
Delivers-collect (some s) out spec (v, h, e) = (v, h, ap (collect out) e)

Delivers-step :
    (o : Option (Reassembler × Option Packet)) (age : ℕ) (spec : Held × Option Packet)
    (rest : List Arrival)
    → Feeds age o spec
    → ((r' : Reassembler)
        → IsValid r'
        → Delivers (run r' rest) (receive_all r'.max_age_us (held r') rest))
    → let (h, ps) = receive_all age spec.0 rest in
      Delivers
        (elim o [
          | none ↦ none
          | some (r', out) ↦
              Option.map (λ (s : Reassembler × List Packet). (s.0, collect out s.1)) (run r' rest)
        ])
        (h, collect spec.1 ps)
Delivers-step none age spec rest f k = absurd f
Delivers-step (some (r', out)) age spec rest (v, h, e, a) k =
    rw (← h, ← e, ← a) (Delivers-collect (run r' rest) out _ (k r' v))

-- The frames of a stream are received as the specification receives them, with no panic.
pub run_refines :
    (r : Reassembler) (arrivals : List Arrival)
    → IsValid r
    → AllFit arrivals
    → Delivers (run r arrivals) (receive_all r.max_age_us (held r) arrivals)
unfolding run receive_all
run_refines r [] v f = (v, refl, refl)
run_refines r (a ∷ rest) v f =
    Delivers-step (feed r a.bytes a.signal a.now) r.max_age_us
      (receive r.max_age_us (held r) a.bytes a.signal a.now) rest
      (feed_refines r a.bytes a.signal a.now v f.0) (λ r' v'. run_refines r' rest v' f.1)

-- Nothing with this nibble is held, so a split frame with it is a first half.
abbrev pub Unheld : ℕ → Held → Type 0
Unheld sequence none = Unit
Unheld sequence (some h) = h.about.sequence ≢ sequence

abbrev pub half : ℕ → Signal → ℕ → Bytes → Half
half sequence signal now body = record {
  about = record { sequence = sequence; signal = signal; since_us = now };
  content = body;
}

split_first :
    (h : Held) (sequence : ℕ) (body : Bytes) (signal : Signal) (now : ℕ)
    → Unheld sequence h
    → split h sequence body signal now ≡ (some (half sequence signal now body), none)
unfolding split
split_first none sequence body signal now u = refl
split_first (some h) sequence body signal now u = ground arith

module _ (age sequence : ℕ) (nibble : sequence < 16) where
  receive_one :
      (h : Held) (p : Bytes) (signal : Signal) (now : ℕ)
      → 0 < length p
      → receive age h (header sequence false ∷ p) signal now
        ≡ (none, some (record { payload = p; signal = signal }))
  unfolding receive
  receive_one h [] signal now l = absurd (omega arith)
  receive_one h (b ∷ p) signal now l = ground (arith, header_lem sequence false nibble)

  receive_first :
      (h : Held) (body : Bytes) (signal : Signal) (now : ℕ)
      → Unheld sequence (fresh age now h)
      → receive age h (header sequence true ∷ body) signal now
        ≡ (some (half sequence signal now body), none)
  unfolding receive
  receive_first h body signal now u =
      let (same, flag) = header_lem sequence true nibble in
      rw (flag, same) (split_first (fresh age now h) sequence body signal now u)

  receive_second :
      (first second : Signal) (t0 t1 : ℕ) (content body : Bytes)
      → (t1 + 2 ^ 64 - t0) % 2 ^ 64 ≤ age
      → receive age (some (half sequence first t0 content)) (header sequence true ∷ body) second t1
        ≡ (
          none,
          some (record { payload = take packet_max (content ++ body); signal = mean first second }),
        )
  unfolding receive fresh is_stale split
  receive_second first second t0 t1 content body h = ground (arith, header_lem sequence true nibble)

receive_all-cons :
    (age : ℕ) (h : Held) (a : Arrival) (rest : List Arrival) (next : Held × Option Packet)
    → receive age h a.bytes a.signal a.now ≡ next
    → receive_all age h (a ∷ rest)
      ≡ (let (h', ps) = receive_all age next.0 rest in (h', collect next.1 ps))
unfolding receive_all
receive_all-cons age h a rest next e = rw e

-- What `new_split` says of the packet that it accepts.
cut_lem :
    (p : Bytes) (sequence : ℕ) {s : Split}
    → new_split p sequence ≡ some s
    → (s ≡ record { head = header sequence (ltb frame_payload (length p)); packet = p })
      × (length p ≤ packet_max)
unfolding new_split
cut_lem p sequence h = ground arith

-- The two frames of a long packet.
on_air_two :
    (p : Bytes) (sequence : ℕ) {s : Split}
    → new_split p sequence ≡ some s
    → (out : Bytes) → frame_max ≤ length out
    → frame_payload < length p
    → (frames s ≡ 2)
      × (on_air s 0 out ≡ header sequence true ∷ take frame_payload p)
      × (on_air s 1 out ≡ header sequence true ∷ drop frame_payload p)
unfolding frames
on_air_two p sequence {s} cut out room long =
    let (e, fits) = cut_lem p sequence cut in
    let two : frames s ≡ 2 = rw e (ground arith) in
    let flag : ltb frame_payload (length p) ≡ true = lt→ltb _ _ long in
    let tail_fits : length (drop frame_payload p) ≤ frame_payload =
      omega (arith, length-drop frame_payload p) in
    (
      two,
      on_air-part s 0 out (omega (arith, two)) room
          ∙ rw e (ap (λ b. header sequence b ∷ take frame_payload p) flag),
      on_air-part s 1 out (omega (arith, two)) room
          ∙ rw e (
              ap₂ (λ b xs. header sequence b ∷ xs) flag
                (take-all (drop frame_payload p) _ tail_fits)),
    )

abbrev pub arrives : Split → Bytes → ℕ → Signal → ℕ → Arrival
arrives s out index signal now = record { bytes = on_air s index out; signal = signal; now = now }

module _ {r : Reassembler} (v : IsValid r) (p : Bytes) (sequence : ℕ) {s : Split}
    (nibble : sequence < 16) (cut : new_split p sequence ≡ some s) (out : Bytes)
    (room : frame_max ≤ length out) where
  -- A packet of one to 254 bytes is one frame, and that frame gives the packet, with the frame's
  -- signal, whatever was held; nothing is held behind it.
  pub run-split_one :
      (signal : Signal) (now : ℕ)
      → 0 < length p
      → length p ≤ frame_payload
      → (frames s ≡ 1)
        × Delivers
            (run r (arrives s out 0 signal now ∷ []))
            (none, record { payload = p; signal = signal } ∷ [])
  unfolding frames
  run-split_one signal now some_bytes short =
      let (e, fits) = cut_lem p sequence cut in
      let one : frames s ≡ 1 = rw e (ground arith) in
      let bytes : on_air s 0 out ≡ header sequence false ∷ p =
        on_air-part s 0 out (omega (arith, one)) room
        ∙ rw e (ap₂ ◌∷◌ (ap (header sequence) (le→ltb_false _ _ short)) (take-all p _ short)) in
      let a = arrives s out 0 signal now in
      let got : receive r.max_age_us (held r) a.bytes signal now
          ≡ (none, some (record { payload = p; signal = signal })) =
        rw bytes (receive_one r.max_age_us sequence nibble (held r) p signal now some_bytes) in
      (
        one,
        subst (Delivers (run r (a ∷ [])))
            (receive_all-cons r.max_age_us (held r) a [] _ got ∙ unfold receive_all in refl)
            (run_refines r (a ∷ []) v (rw bytes (omega arith), tt)),
      )

  -- A packet of 255 to 508 bytes is two frames. If no first half with its nibble is held that is
  -- fresh when the first arrives, and the second arrives within the age limit, the two give the
  -- packet, with the mean of their signals, and nothing before the second; nothing is held behind.
  pub run-split_two :
      (first second : Signal) (t0 t1 : ℕ)
      → frame_payload < length p
      → Unheld sequence (fresh r.max_age_us t0 (held r))
      → (t1 + 2 ^ 64 - t0) % 2 ^ 64 ≤ r.max_age_us
      → (frames s ≡ 2)
        × Delivers
            (run r (arrives s out 0 first t0 ∷ []))
            (some (half sequence first t0 (take frame_payload p)), [])
        × Delivers
            (run r (arrives s out 0 first t0 ∷ arrives s out 1 second t1 ∷ []))
            (none, record { payload = p; signal = mean first second } ∷ [])
  unfolding frames
  run-split_two first second t0 t1 long unheld in_time =
      let (two, front, back) = on_air_two p sequence cut out room long in
      let fits = (cut_lem p sequence cut).1 in
      let age : ℕ = r.max_age_us in
      let a = arrives s out 0 first t0 in
      let b = arrives s out 1 second t1 in
      let held' : Held = some (half sequence first t0 (take frame_payload p)) in
      let got_a : receive age (held r) a.bytes first t0 ≡ (held', none) =
        rw front
          (receive_first age sequence nibble (held r) (take frame_payload p) first t0 unheld) in
      let whole_p : take packet_max (take frame_payload p ++ drop frame_payload p) ≡ p =
        rw (take-append-drop frame_payload p) (take-all p _ fits) in
      let got_b : receive age held' b.bytes second t1
          ≡ (none, some (record { payload = p; signal = mean first second })) =
        rw back (
          receive_second age sequence nibble first second t0 t1 (take frame_payload p)
            (drop frame_payload p) in_time
          ∙ ap (λ xs. (none, some (record { payload = xs; signal = mean first second })))
              whole_p) in
      let fit_a : length a.bytes ≤ packet_max + 1 =
        rw front (omega (arith, length-take frame_payload p)) in
      (
        two,
        subst (Delivers (run r (a ∷ [])))
            (receive_all-cons age (held r) a [] _ got_a ∙ unfold receive_all in refl)
            (run_refines r (a ∷ []) v (fit_a, tt)),
        subst (Delivers (run r (a ∷ b ∷ [])))
            (receive_all-cons age (held r) a (b ∷ []) _ got_a
              ∙ rw (receive_all-cons age held' b [] _ got_b) (unfold receive_all in refl))
            (run_refines r (a ∷ b ∷ []) v
              (fit_a, (rw back (omega (arith, length-drop frame_payload p)), tt))),
      )
