-- ===== src/Rnode/Kiss.antt =====
-- core/src/rnode/kiss.rs: KISS framing, the streaming decoder and the encoder.
pub mod View
pub mod Refine
pub mod Stream
pub mod RoundTrip
pub mod Encode
pub mod Framing
mod Tests
use oxinode.Prelude.{
  ℕ, ◌+◌, Bool, true, false, ◌&&◌, ◌||◌, [], ◌∷◌, Option, none, some, ltb, ◌==◌, if◌then◌else◌,
  Bytes, inc_u32, length, take, set, replicate,
}

abbrev pub fend : ℕ
fend = 0xC0

abbrev pub fesc : ℕ
fesc = 0xDB

abbrev pub tfend : ℕ
tfend = 0xDC

abbrev pub tfesc : ℕ
tfesc = 0xDD

abbrev pub hw_mtu : ℕ
hw_mtu = 508

abbrev pub needs_escape : ℕ → Bool
needs_escape byte = byte == fend || byte == fesc

-- The accumulator loop of the source, as a sum.
unfoldable pub escaped_len : Bytes → ℕ
escaped_len [] = 0
escaped_len (b ∷ bs) = (if needs_escape b then 2 else 1) + escaped_len bs

pub data DecodeError : Type 0 where
  too_long bad_escape truncated_escape : DecodeError

pub data Step : Type 0 where
  pending frame : Step
  error : DecodeError → Step

pub data State : Type 0 where
  idle command payload escaped poisoned : State

-- `last_command` is the field `command`, whose name a state has here. The const parameter `N` is
-- an argument of the operations that read it, and the length of `buf`.
pub record Decoder : Type 0 where
  pub state : State
  pub last_command : ℕ
  pub buf : Bytes
  pub len : ℕ
  pub dropped : ℕ

unfoldable pub new : ℕ → Decoder
new n = record { state = idle; last_command = 0; buf = replicate n 0; len = 0; dropped = 0 }

-- `Decoder::payload`.
abbrev pub payload_of : Decoder → Bytes
payload_of d = take d.len d.buf

abbrev pub in_frame : Decoder → Bool
in_frame d = elim d.state [ idle ↦ false | _ ↦ true ]

unfoldable pub poison : Decoder → DecodeError → Decoder × Step
poison d e = (record d { state = poisoned; len = 0; dropped = inc_u32 d.dropped }, error e)

-- `Decoder::push` into a buffer of `n` bytes.
unfoldable pub push : ℕ → Decoder → ℕ → Decoder × Step
unfolding poison
push n d byte =
    if d.len == n
    then poison d too_long
    else (record d { buf = set d.buf d.len byte; len = d.len + 1 }, pending)

-- The outcome that `close` reads off the state, with the drop it counts, and `len` unless the
-- outcome is a frame.
unfoldable pub close_in : State → Decoder → Decoder × Step
close_in payload d = (record d { state = command }, frame)
close_in escaped d =
    (record d { state = command; len = 0; dropped = inc_u32 d.dropped }, error truncated_escape)
close_in idle d = (record d { state = command; len = 0 }, pending)
close_in command d = (record d { state = command; len = 0 }, pending)
close_in poisoned d = (record d { state = command; len = 0 }, pending)

unfoldable pub close : Decoder → Decoder × Step
unfolding close_in
close d = close_in d.state d

-- The match of `feed`, for a byte that is no delimiter.
unfoldable pub feed_in : ℕ → State → Decoder → ℕ → Decoder × Step
unfolding push poison
feed_in n idle d byte = (d, pending)
feed_in n poisoned d byte = (d, pending)
feed_in n command d byte = (record d { last_command = byte; len = 0; state = payload }, pending)
feed_in n payload d byte =
    if byte == fesc then (record d { state = escaped }, pending) else push n d byte
feed_in n escaped d byte =
    if byte == tfend
    then push n (record d { state = payload }) fend
    else if byte == tfesc
    then push n (record d { state = payload }) fesc
    else poison d bad_escape

unfoldable pub feed : ℕ → Decoder → ℕ → Decoder × Step
unfolding close feed_in
feed n d byte = if byte == fend then close d else feed_in n d.state d byte

-- `encode` writes into a buffer: the loop over the payload, from index `i`, gives the buffer and
-- the index behind the last byte written.
unfoldable pub encode_body : Bool → Bytes → Bytes → ℕ → Bytes × ℕ
encode_body escape [] out i = (out, i)
encode_body escape (b ∷ bs) out i =
    let escaping = escape && needs_escape b in
    let out' =
      if escaping
      then set (set out i fesc) (i + 1) (if b == fend then tfend else tfesc)
      else set out i b in
    encode_body escape bs out' (if escaping then i + 2 else i + 1)

unfoldable pub encoded_len : Bytes → Bool → ℕ
unfolding escaped_len
encoded_len body escape = 3 + (if escape then escaped_len body else length body)

-- `body + 3` in `encode` is `encoded_len`. The result is `None` or the count, beside the buffer.
unfoldable pub encode : ℕ → Bytes → Bool → Bytes → Option ℕ × Bytes
unfolding encode_body escaped_len encoded_len
encode cmd body escape out =
    let total = (if escape then escaped_len body else length body) + 3 in
    let (out', i) = encode_body escape body (set (set out 0 fend) 1 cmd) 2 in
    if ltb (length out) total then (none, out) else (some (i + 1), set out' i fend)
