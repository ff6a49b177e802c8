-- ===== src/Rnode/Protocol/Answers.antt =====
-- What a host is answered: what it asked for, as the device now holds it.
use oxinode.Prelude.{
  ℕ, ◌^◌, ◌≤◌, ◌<◌, Bool, true, false, not, List, [], ◌∷◌, Option, none, some, Bytes, if◌then◌else◌,
  ◌≡◌, refl, ap, sym, ◌∙◌, arith,
}
use oxinode.Prelude.Int.{ℤ, pos_part, neg_part, to_bits}
use oxinode.Hash.{be_bytes}
use oxinode.Lr1121.Config.{RadioConfig}
use oxinode.Rnode.Command.{
  Command, decode, be32, be16, first, field, set_frequency, set_bandwidth, set_tx_power,
  set_spreading_factor, set_coding_rate, set_radio_lock, set_short_airtime_limit,
  set_long_airtime_limit,
}
use oxinode.Rnode.Command.Cmd
use oxinode.Rnode.Eeprom.Saved.{IsStorable, to_signed-to_bits}
use oxinode.Rnode.Protocol.{
  Protocol, Frame, handle, set_config, report_frequency, report_bandwidth, report_tx_power,
  report_spreading_factor, report_coding_rate,
}

-- The answer is one frame, and that frame, read as a command, is the given one.
abbrev pub Echoes : Command → List Frame → Type 0
Echoes wanted frames = (k : ℕ) × (b : Bytes) × (frames ≡ (k, b) ∷ []) × (decode k b ≡ wanted)

-- What the types `u32`, `i8` and `u16` of the source say of a device.
abbrev pub IsInRange : Protocol → Type 0
IsInRange p =
    IsStorable p.config × (p.short_airtime_limit < 2 ^ 16) × (p.long_airtime_limit < 2 ^ 16)

-- The setters that answer, each with the command that sets what a device holds.
abbrev pub held_by : Command → Protocol → Option Command
held_by (set_frequency hz) q = some (set_frequency q.config.frequency_hz)
held_by (set_bandwidth hz) q = some (set_bandwidth q.config.bandwidth_hz)
held_by (set_tx_power dbm) q = some (set_tx_power q.config.tx_power_dbm)
held_by (set_spreading_factor sf) q = some (set_spreading_factor q.config.spreading_factor)
held_by (set_coding_rate cr) q = some (set_coding_rate q.config.coding_rate)
held_by (set_radio_lock lock) q = some (set_radio_lock q.locked)
held_by (set_short_airtime_limit v) q = some (set_short_airtime_limit q.short_airtime_limit)
held_by (set_long_airtime_limit v) q = some (set_long_airtime_limit q.long_airtime_limit)
held_by _ q = none

be32-be_bytes : (n : ℕ) → n < 2 ^ 32 → be32 (be_bytes 4 n) ≡ some n
unfolding be32 be_bytes
be32-be_bytes n h = ap some (omega arith)

be16-be_bytes : (n : ℕ) → n < 2 ^ 16 → be16 (be_bytes 2 n) ≡ some n
unfolding be16 be_bytes
be16-be_bytes n h = ap some (omega arith)

frequency-echo : (n : ℕ) → n < 2 ^ 32 → decode Cmd.frequency (be_bytes 4 n) ≡ set_frequency n
unfolding decode field
frequency-echo n h = rw (be32-be_bytes n h) refl

bandwidth-echo : (n : ℕ) → n < 2 ^ 32 → decode Cmd.bandwidth (be_bytes 4 n) ≡ set_bandwidth n
unfolding decode field
bandwidth-echo n h = rw (be32-be_bytes n h) refl

short-echo : (n : ℕ) → n < 2 ^ 16 → decode Cmd.st_alock (be_bytes 2 n) ≡ set_short_airtime_limit n
unfolding decode field
short-echo n h = rw (be16-be_bytes n h) refl

long-echo : (n : ℕ) → n < 2 ^ 16 → decode Cmd.lt_alock (be_bytes 2 n) ≡ set_long_airtime_limit n
unfolding decode field
long-echo n h = rw (be16-be_bytes n h) refl

power-echo :
    (p : ℤ)
    → pos_part p ≤ 127
    → neg_part p ≤ 128
    → decode Cmd.txpower (to_bits 8 p ∷ []) ≡ set_tx_power p
unfolding decode field first
power-echo p h k = ap set_tx_power (to_signed-to_bits p h k)

sf-echo : (n : ℕ) → decode Cmd.sf (n ∷ []) ≡ set_spreading_factor n
unfolding decode field first
sf-echo n = refl

cr-echo : (n : ℕ) → decode Cmd.cr (n ∷ []) ≡ set_coding_rate n
unfolding decode field first
cr-echo n = refl

lock-echo : (b : Bool) → decode Cmd.radio_lock ((if b then 1 else 0) ∷ []) ≡ set_radio_lock b
unfolding decode field first
lock-echo true = refl
lock-echo false = refl

some_inj : (a b : Command) → some a ≡ some b → a ≡ b
some_inj a b h = ap (λ o. elim o [ none ↦ a | some c ↦ c ]) h

-- What a setter leaves in a device whose configuration is not locked.
set_config-free :
    (f : RadioConfig → RadioConfig) (p : Protocol)
    → p.locked ≡ false
    → (set_config f p).config ≡ f p.config
unfolding set_config
set_config-free f p h = ap (λ b. (if not b then record p { config = f p.config } else p).config) h

-- Every setter that answers is answered with one frame. Read as a command, that frame sets exactly
-- what the device now holds; and on a device that is not locked that is what the host asked for.
pub handle-Echoes :
    (c : Command) (p : Protocol) (wanted : Command)
    → IsInRange (handle c p).device
    → held_by c (handle c p).device ≡ some wanted
    → Echoes wanted (handle c p).frames × (p.locked ≡ false → wanted ≡ c)
unfolding handle report_frequency report_bandwidth report_tx_power report_spreading_factor
    report_coding_rate
handle-Echoes (set_frequency hz) p wanted (((f, b, x, y), s, l)) h =
    let e = some_inj _ wanted h in
    (
      (_, _, refl, frequency-echo _ f ∙ e),
      λ free.
          sym e
          ∙ ap (λ c. set_frequency c.frequency_hz)
              (set_config-free (λ c. record c { frequency_hz = hz }) p free),
    )
handle-Echoes (set_bandwidth hz) p wanted (((f, b, x, y), s, l)) h =
    let e = some_inj _ wanted h in
    (
      (_, _, refl, bandwidth-echo _ b ∙ e),
      λ free.
          sym e
          ∙ ap (λ c. set_bandwidth c.bandwidth_hz)
              (set_config-free (λ c. record c { bandwidth_hz = hz }) p free),
    )
handle-Echoes (set_tx_power dbm) p wanted (((f, b, x, y), s, l)) h =
    let e = some_inj _ wanted h in
    (
      (_, _, refl, power-echo _ x y ∙ e),
      λ free.
          sym e
          ∙ ap (λ c. set_tx_power c.tx_power_dbm)
              (set_config-free (λ c. record c { tx_power_dbm = dbm }) p free),
    )
handle-Echoes (set_spreading_factor sf) p wanted (((f, b, x, y), s, l)) h =
    let e = some_inj _ wanted h in
    (
      (_, _, refl, sf-echo _ ∙ e),
      λ free.
          sym e
          ∙ ap (λ c. set_spreading_factor c.spreading_factor)
              (set_config-free (λ c. record c { spreading_factor = sf }) p free),
    )
handle-Echoes (set_coding_rate cr) p wanted (((f, b, x, y), s, l)) h =
    let e = some_inj _ wanted h in
    (
      (_, _, refl, cr-echo _ ∙ e),
      λ free.
          sym e
          ∙ ap (λ c. set_coding_rate c.coding_rate)
              (set_config-free (λ c. record c { coding_rate = cr }) p free),
    )
handle-Echoes (set_radio_lock lock) p wanted (((f, b, x, y), s, l)) h =
    let e = some_inj _ wanted h in ((_, _, refl, lock-echo lock ∙ e), λ free. sym e)
handle-Echoes (set_short_airtime_limit v) p wanted (((f, b, x, y), s, l)) h =
    let e = some_inj _ wanted h in ((_, _, refl, short-echo v s ∙ e), λ free. sym e)
handle-Echoes (set_long_airtime_limit v) p wanted (((f, b, x, y), s, l)) h =
    let e = some_inj _ wanted h in ((_, _, refl, long-echo v l ∙ e), λ free. sym e)
handle-Echoes c p wanted r h = cc
