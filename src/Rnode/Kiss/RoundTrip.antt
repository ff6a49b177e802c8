-- ===== src/Rnode/Kiss/RoundTrip.antt =====
-- A frame that `encode` wrote, met anywhere in a stream.
use native.Mathlib.Decide.{ℕ_discrete}
use oxinode.Prelude.{
  ℕ, ◌+◌, ◌≤◌, ◌<◌, List, [], ◌∷◌, ◌++◌, ◌≡◌, ◌≢◌, refl, arith, Bytes, ◌==◌, if◌then◌else◌, length,
  ◌∙◌, ap, true, Bool, ◌&&◌, append_assoc, append-nil, length-append,
}
use oxinode.Rnode.Kiss.{fend, fesc, tfend, tfesc, needs_escape, too_long}
use oxinode.Rnode.Kiss.View.{
  View, outside, starting, skipping, inside, Event, nothing, complete, lost, step, finish, events,
}

-- One byte of the payload as it goes on the wire, and all of them.
unfoldable pub escape_byte : Bool → ℕ → Bytes
escape_byte escape b =
    if escape && needs_escape b then fesc ∷ (if b == fend then tfend else tfesc) ∷ [] else b ∷ []

unfoldable pub escape_bytes : Bool → Bytes → Bytes
escape_bytes escape [] = []
escape_bytes escape (b ∷ bs) = escape_byte escape b ++ escape_bytes escape bs

abbrev pub wire : ℕ → Bytes → Bool → Bytes
wire c p escape = fend ∷ c ∷ (escape_bytes escape p ++ (fend ∷ []))

-- Only the steps that report something.
unfoldable pub reports : List Event → List Event
reports [] = []
reports (nothing ∷ es) = reports es
reports (e ∷ es) = e ∷ reports es

reports_cons : (e : Event) (es : List Event) → reports (e ∷ es) ≡ reports (e ∷ []) ++ reports es
unfolding reports
reports_cons nothing es = refl
reports_cons _ es = refl

pub finish-starting : (v : View) → (finish v).0 ≡ starting
unfolding finish
finish-starting outside = refl
finish-starting _ = refl

module _ (n c : ℕ) where
  -- Read one escaped byte, with room for it.
  reports-escape_byte :
      (bs : Bytes) (b : ℕ) (rest : Bytes)
      → length bs < n
      → reports (events n (inside c bs) (escape_byte true b ++ rest))
        ≡ reports (events n (inside c (bs ++ (b ∷ []))) rest)
  unfolding reports events escape_byte step
  reports-escape_byte bs b rest h = ground arith

  reports-escape_bytes :
      (bs : Bytes) (p rest : Bytes)
      → length bs + length p ≤ n
      → reports (events n (inside c bs) (escape_bytes true p ++ rest))
        ≡ reports (events n (inside c (bs ++ p)) rest)
  unfolding escape_bytes
  reports-escape_bytes bs [] rest h = rw append-nil
  reports-escape_bytes bs (b ∷ p) rest h =
      rw append_assoc (reports-escape_byte bs b (escape_bytes true p ++ rest) (omega arith))
      ∙ reports-escape_bytes (bs ++ (b ∷ [])) p rest (omega (arith, length-append bs (b ∷ [])))
      ∙ rw append_assoc

  reports-skipping :
      (p rest : Bytes)
      → reports (events n skipping (escape_bytes true p ++ rest)) ≡ reports (events n skipping rest)
  unfolding reports events escape_bytes escape_byte step
  reports-skipping [] rest = refl
  reports-skipping (b ∷ p) rest = ground (arith, reports-skipping p rest)

  -- One escaped byte too many.
  reports-overflow_byte :
      (bs : Bytes) (b : ℕ) (rest : Bytes)
      → length bs ≡ n
      → reports (events n (inside c bs) (escape_byte true b ++ rest))
        ≡ lost too_long ∷ reports (events n skipping rest)
  unfolding reports events escape_byte step
  reports-overflow_byte bs b rest h = ground arith

  reports-overflow :
      (bs : Bytes) (p rest : Bytes)
      → length bs ≤ n
      → n < length bs + length p
      → reports (events n (inside c bs) (escape_bytes true p ++ rest))
        ≡ lost too_long ∷ reports (events n skipping rest)
  unfolding escape_bytes
  reports-overflow bs [] rest h k = absurd (omega arith)
  reports-overflow bs (b ∷ p) rest h k = elim (ℕ_discrete (length bs) n) [
    | yes full ↦
        rw append_assoc (reports-overflow_byte bs b (escape_bytes true p ++ rest) full)
        ∙ ap (◌∷◌ (lost too_long)) (reports-skipping p rest)
    | no room ↦
        rw append_assoc (reports-escape_byte bs b (escape_bytes true p ++ rest) (omega arith))
        ∙ reports-overflow (bs ++ (b ∷ [])) p rest (omega (arith, length-append bs (b ∷ [])))
            (omega (arith, length-append bs (b ∷ [])))
  ]

  step_starting : c ≢ fend → step n starting c ≡ (inside c [], nothing)
  unfolding step
  step_starting h = ground arith

  -- The specification on the opening of a frame, whatever stood before it.
  reports_opening :
      (v : View) (rest : Bytes)
      → c ≢ fend
      → reports (events n v (fend ∷ c ∷ rest))
        ≡ reports ((finish v).1 ∷ []) ++ reports (events n (inside c []) rest)
  unfolding events step
  reports_opening v rest h =
      reports_cons (finish v).1 _
      ∙ ap (λ es. reports ((finish v).1 ∷ []) ++ es)
          (rw (finish-starting v) (rw (step_starting h) (unfold reports in refl)))

  reports_closing :
      (p rest : Bytes)
      → reports (events n (inside c p) (fend ∷ rest))
        ≡ complete c p ∷ reports (events n starting rest)
  unfolding reports events step
  reports_closing p rest = refl

  -- A frame that fits is handed up whole, behind what its opening delimiter ended.
  pub reports-wire :
      (v : View) (p rest : Bytes)
      → c ≢ fend
      → length p ≤ n
      → reports (events n v (wire c p true ++ rest))
        ≡ reports ((finish v).1 ∷ []) ++ (complete c p ∷ reports (events n starting rest))
  reports-wire v p rest h fits =
      reports_opening v _ h
      ∙ ap (λ es. reports ((finish v).1 ∷ []) ++ es)
          (rw append_assoc
            (reports-escape_bytes [] p (fend ∷ rest) (omega arith) ∙ reports_closing p rest))

  -- A frame that does not fit gives one error and nothing else.
  pub reports-wire_overlong :
      (v : View) (p rest : Bytes)
      → c ≢ fend
      → n < length p
      → reports (events n v (wire c p true ++ rest))
        ≡ reports ((finish v).1 ∷ []) ++ (lost too_long ∷ reports (events n starting rest))
  reports-wire_overlong v p rest h over =
      reports_opening v _ h
      ∙ ap (λ es. reports ((finish v).1 ∷ []) ++ es)
          (rw append_assoc (
            reports-overflow [] p (fend ∷ rest) (omega arith) (omega arith)
            ∙ unfold reports events step in refl))
