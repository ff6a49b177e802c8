-- ===== src/Rnode/Air/View.antt =====
-- What a receiver of split packets has to do, with no buffer: at most one first half is held, with
-- its content.
use oxinode.Prelude.{ℕ, not, [], ◌∷◌, ◌++◌, Option, none, some, if◌then◌else◌, ◌==◌, Bytes, take}
use oxinode.Rnode.Air.{packet_max, is_split, sequence_of, Signal, mean, Packet, Pending, is_stale}

pub record Half : Type 0 where
  pub about : Pending
  pub content : Bytes

abbrev pub Held : Type 0
Held = Option Half

unfoldable pub fresh : ℕ → ℕ → Held → Held
fresh age now none = none
fresh age now (some h) = if is_stale age now h.about then none else some h

unfoldable pub whole : Bytes → Signal → Option Packet
whole [] signal = none
whole (b ∷ bs) signal = some (record { payload = b ∷ bs; signal = signal })

abbrev pub first_half : ℕ → Bytes → Signal → ℕ → Half
first_half sequence body signal now = record {
  about = record { sequence = sequence; signal = signal; since_us = now };
  content = body;
}

unfoldable pub split : Held → ℕ → Bytes → Signal → ℕ → Held × Option Packet
split none sequence body signal now = (some (first_half sequence body signal now), none)
split (some h) sequence body signal now =
    if h.about.sequence == sequence
    then (
      none,
      some (record {
        payload = take packet_max (h.content ++ body);
        signal = mean h.about.signal signal;
      }),
    )
    else (some (first_half sequence body signal now), none)

unfoldable pub receive : ℕ → Held → Bytes → Signal → ℕ → Held × Option Packet
unfolding fresh whole split
receive age held [] signal now = (held, none)
receive age held (h ∷ body) signal now =
    if not (is_split h)
    then (none, whole body signal)
    else split (fresh age now held) (sequence_of h) body signal now
