-- ===== src/Rnode/Outbox.antt =====
-- core/src/rnode/outbox.rs: response frames waiting to go to a host.
pub mod Frames
pub mod Stream
mod Tests
use oxinode.Prelude.{
  ℕ, ◌+◌, ◌-◌, min, Option, none, some, if◌then◌else◌, ltb, Bytes, inc_u32, length, take, drop,
  ◌++◌, replicate,
}
use oxinode.Rnode.Command.{encode_response, response_len}

-- The const parameter `N` is an argument of the operations that read it.
pub record Outbox : Type 0 where
  pub buf : Bytes
  pub len : ℕ
  pub dropped : ℕ

unfoldable pub new : ℕ → Outbox
new n = record { buf = replicate n 0; len = 0; dropped = 0 }

-- `Outbox::pending`.
abbrev pub pending : Outbox → Bytes
pending o = take o.len o.buf

-- `copy_within(sent..len, 0)` moves the bytes and leaves what stands behind them.
unfoldable pub consume : Outbox → ℕ → Outbox
consume o sent =
    let k = min sent o.len in
    record o { buf = drop k (take o.len o.buf) ++ drop (o.len - k) o.buf; len = o.len - k }

unfoldable pub abandon : Outbox → Outbox
abandon o = record o { dropped = if ltb 0 o.len then inc_u32 o.dropped else o.dropped; len = 0 }

unfoldable pub take_dropped : Outbox → Outbox × ℕ
take_dropped o = (record o { dropped = 0 }, o.dropped)

-- What `encode_response` answered, and what it left of the slice behind `len`.
unfoldable pub written : Outbox → Option ℕ → Bytes → Outbox
written o none slice = record o { buf = take o.len o.buf ++ slice; dropped = inc_u32 o.dropped }
written o (some k) slice = record o { buf = take o.len o.buf ++ slice; len = o.len + k }

-- `Sink::frame`.
unfoldable pub frame : ℕ → Outbox → ℕ → Bytes → Outbox
unfolding written
frame n o cmd payload =
    let need = response_len cmd payload in
    let (result, slice) = encode_response cmd payload (drop o.len o.buf) in
    if ltb n (o.len + need)
    then record o { dropped = inc_u32 o.dropped }
    else written o result slice
