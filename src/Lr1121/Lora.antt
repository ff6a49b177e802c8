-- ===== src/Lr1121/Lora.antt =====
-- core/src/lr1121/lora.rs: modulation parameters, and how long a packet takes to send.
use oxinode.Prelude.{ℕ, ◌+◌, ◌-◌, ◌*◌, ◌/◌, ◌%◌, ◌^◌, Bool, List, [], ◌∷◌, if◌then◌else◌, ltb, leb}

abbrev pub sf_min : ℕ
sf_min = 5

abbrev pub sf_max : ℕ
sf_max = 12

-- Codes of the chip with bandwidths in hertz.
abbrev pub bandwidths : List (ℕ × ℕ)
bandwidths = (0x03, 62500) ∷ (0x04, 125000) ∷ (0x05, 250000) ∷ (0x06, 500000) ∷ []

abbrev pub bandwidths_2g4 : List (ℕ × ℕ)
bandwidths_2g4 = (0x0D, 203125) ∷ (0x0E, 406250) ∷ (0x0F, 812500) ∷ []

-- The source panics on a bandwidth of 0, and on a shift by 64 or more.
unfoldable pub symbol_time_us : ℕ → ℕ → ℕ
symbol_time_us sf bandwidth_hz = 2 ^ sf * 1000000 / bandwidth_hz % 2 ^ 32

unfoldable pub low_data_rate_optimize : ℕ → ℕ → Bool
unfolding symbol_time_us
low_data_rate_optimize sf bandwidth_hz = ltb 16000 (symbol_time_us sf bandwidth_hz)

-- The numerator is signed: `up` less `down`, with the early return where it is not positive. The
-- denominator is the source's from a spreading factor of 3 on; below, the source's is not positive.
unfoldable pub payload_symbols : ℕ → ℕ → ℕ → Bool → Bool → Bool → ℕ
payload_symbols sf coding_rate payload_len explicit_header crc ldro =
    let up = 8 * payload_len + 28 + (if crc then 16 else 0) in
    let down = 4 * sf + (if explicit_header then 0 else 20) in
    let denominator = 4 * (sf - (if ldro then 2 else 0)) in
    let blocks = (up - down + denominator - 1) / denominator in
    if leb up down then 8 else 8 + blocks * (coding_rate + 4) % 2 ^ 32

unfoldable pub airtime_us : ℕ → ℕ → ℕ → ℕ → ℕ → Bool → Bool → ℕ
unfolding symbol_time_us low_data_rate_optimize payload_symbols
airtime_us sf bandwidth_hz coding_rate preamble_symbols payload_len explicit_header crc =
    let tsym = symbol_time_us sf bandwidth_hz in
    let ldro = low_data_rate_optimize sf bandwidth_hz in
    let preamble = (4 * preamble_symbols + 17) * tsym / 4 in
    let payload = payload_symbols sf coding_rate payload_len explicit_header crc ldro * tsym in
    (preamble + payload) % 2 ^ 32
