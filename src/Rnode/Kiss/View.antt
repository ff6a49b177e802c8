-- ===== src/Rnode/Kiss/View.antt =====
-- What a KISS decoder has to do, with no buffer and no index: the bytes of the frame in progress
-- are a list, and a frame is handed up with its command and content.
use oxinode.Prelude.{ℕ, List, [], ◌∷◌, ◌++◌, ◌==◌, if◌then◌else◌, Bytes, length}
use oxinode.Rnode.Kiss.{
  fend, fesc, tfend, tfesc, DecodeError, too_long, bad_escape, truncated_escape,
}

pub data View : Type 0 where
  outside starting skipping : View
  inside escaping : ℕ → Bytes → View

pub data Event : Type 0 where
  nothing : Event
  complete : ℕ → Bytes → Event
  lost : DecodeError → Event

unfoldable pub accept : ℕ → ℕ → Bytes → ℕ → View × Event
accept n c bs b =
    if length bs == n then (skipping, lost too_long) else (inside c (bs ++ (b ∷ [])), nothing)

unfoldable pub finish : View → View × Event
finish (inside c bs) = (starting, complete c bs)
finish (escaping c bs) = (starting, lost truncated_escape)
finish outside = (starting, nothing)
finish starting = (starting, nothing)
finish skipping = (starting, nothing)

unfoldable pub step_in : ℕ → View → ℕ → View × Event
unfolding accept
step_in n outside b = (outside, nothing)
step_in n skipping b = (skipping, nothing)
step_in n starting b = (inside b [], nothing)
step_in n (inside c bs) b = if b == fesc then (escaping c bs, nothing) else accept n c bs b
step_in n (escaping c bs) b =
    if b == tfend
    then accept n c bs fend
    else if b == tfesc
    then accept n c bs fesc
    else (skipping, lost bad_escape)

unfoldable pub step : ℕ → View → ℕ → View × Event
unfolding finish step_in
step n v b = if b == fend then finish v else step_in n v b

-- The events of a whole stream, in order, and the view behind it.
unfoldable pub events : ℕ → View → Bytes → List Event
unfolding step
events n v [] = []
events n v (b ∷ bs) = let (v', e) = step n v b in e ∷ events n v' bs

unfoldable pub after : ℕ → View → Bytes → View
unfolding step
after n v [] = v
after n v (b ∷ bs) = after n (step n v b).0 bs
