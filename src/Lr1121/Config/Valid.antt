-- ===== src/Lr1121/Config/Valid.antt =====
-- What a configuration that passes `check_in` is.
use oxinode.Prelude.{
  ℕ, ◌≤◌, true, false, Option, none, some, if◌then◌else◌, ◌≡◌, refl, ◌⊎◌, inl, inr, ◌↔◌, sym, ap,
  ◌∙◌, arith, Bool-cases,
}
use oxinode.Prelude.Int.{ℤ, pos, negsuc, pos_part, neg_part, ltb_ℤ}
use oxinode.Lr1121.Pa.{
  Band, sub_ghz, high_frequency, band_of, is_in_us915, is_in_2g4, pa_config_in, pa_config_for,
  module_max_dbm, low_power_pa_accepts, high_power_pa_accepts, high_frequency_pa_accepts,
}
use oxinode.Lr1121.Config.{
  RadioConfig, Bands, ConfigError, check_in, check_on, check_rest, bandwidth_code_in, code_in,
  is_none, allows, allowed, frequency_out_of_band,
}

-- The power, in dBm, that the module takes on a band.
abbrev pub Powered : Band → ℤ → Type 0
Powered sub_ghz dbm = (neg_part dbm ≤ 17) × (pos_part dbm ≤ 20)
Powered high_frequency dbm = (neg_part dbm ≤ 18) × (pos_part dbm ≤ 11)

abbrev pub Wide : Band → ℕ → Type 0
Wide sub_ghz hz = (hz ≡ 62500) ⊎ ((hz ≡ 125000) ⊎ ((hz ≡ 250000) ⊎ (hz ≡ 500000)))
Wide high_frequency hz = (hz ≡ 203125) ⊎ ((hz ≡ 406250) ⊎ (hz ≡ 812500))

abbrev pub Tuned : Band → ℕ → Type 0
Tuned sub_ghz hz = (902000000 ≤ hz) × (hz ≤ 928000000)
Tuned high_frequency hz = (2400000000 ≤ hz) × (hz ≤ 2483500000)

abbrev pub Modulated : RadioConfig → Type 0
Modulated c =
    (5 ≤ c.spreading_factor)
    × (c.spreading_factor ≤ 12)
    × (5 ≤ c.coding_rate)
    × (c.coding_rate ≤ 8)
    × (6 ≤ c.preamble_symbols)

-- All of it, on one band.
abbrev pub IsValidOn : Band → RadioConfig → Type 0
IsValidOn band c =
    Tuned band c.frequency_hz × Wide band c.bandwidth_hz × Powered band c.tx_power_dbm × Modulated c

power_lem :
    (band : Band) (dbm : ℤ)
    → ((ltb_ℤ (module_max_dbm band) dbm ≡ false) × (is_none (pa_config_in band dbm) ≡ false))
      ↔ Powered band dbm
unfolding module_max_dbm pa_config_in pa_config_for low_power_pa_accepts high_power_pa_accepts
    high_frequency_pa_accepts
power_lem sub_ghz (pos n) = ground arith
power_lem sub_ghz (negsuc n) = ground arith
power_lem high_frequency (pos n) = ground arith
power_lem high_frequency (negsuc n) = ground arith

wide_lem : (band : Band) (hz : ℕ) → (is_none (bandwidth_code_in band hz) ≡ false) ↔ Wide band hz
unfolding bandwidth_code_in code_in
wide_lem sub_ghz hz = ((λ h. ground arith), (λ h. ground arith))
wide_lem high_frequency hz = ((λ h. ground arith), (λ h. ground arith))

tuned_lem : (band : Band) (hz : ℕ) → (band_of hz ≡ some band) ↔ Tuned band hz
unfolding band_of is_in_us915 is_in_2g4
tuned_lem sub_ghz hz = ((λ h. ground arith), (λ h. ground arith))
tuned_lem high_frequency hz = ((λ h. ground arith), (λ h. ground arith))

rest_lem :
    (band : Band) (c : RadioConfig)
    → (check_rest band c ≡ none) ↔ (Powered band c.tx_power_dbm × Modulated c)
unfolding check_rest
rest_lem band c =
    let (sound, complete) = power_lem band c.tx_power_dbm in
    (
      (λ h. (
        sound (ground arith, ground arith),
        (ground arith, ground arith, ground arith, ground arith, ground arith),
      )),
      (λ h. let p = complete h.0 in ground arith),
    )

on_lem :
    (band : Band) (c : RadioConfig)
    → (check_on band c ≡ none)
      ↔ (Wide band c.bandwidth_hz × Powered band c.tx_power_dbm × Modulated c)
unfolding check_on
on_lem band c =
    let (w, w') = wide_lem band c.bandwidth_hz in
    let (r, r') = rest_lem band c in
    (
      (λ h. let rest = r (ground arith) in (w (ground arith), rest.0, rest.1)),
      (λ h. let a = w' h.0 in let b = r' (h.1, h.2) in ground arith),
    )

-- A configuration on a band that is allowed.
abbrev pub IsAllowedOn : Bands → RadioConfig → Band → Type 0
IsAllowedOn bands c band = (allows bands band ≡ true) × IsValidOn band c

abbrev check_at : RadioConfig → Option Band → Option ConfigError
check_at c band = elim band [ none ↦ some frequency_out_of_band | some b ↦ check_on b c ]

passes :
    (c : RadioConfig) (bands : Bands) (found : Option Band)
    → check_at c (allowed bands found) ≡ none
    → (band : Band) × (found ≡ some band) × (allows bands band ≡ true) × (check_on band c ≡ none)
passes c bands none h = cc
passes c bands (some band) h = elim (Bool-cases (allows bands band)) [
  | inl on ↦
      (band, refl, on, ap (check_at c) (sym (ap (λ b. if b then some band else none) on)) ∙ h)
  | inr off ↦
      let bad : some frequency_out_of_band ≡ none =
        ap (check_at c) (sym (ap (λ b. if b then some band else none) off)) ∙ h in
      cc
]

-- A configuration passes `check_in` exactly if, on one of the allowed bands, its frequency lies in
-- the band, its bandwidth is one that the chip has there, its power lies in what the module takes
-- there (-17 to 20 dBm below a gigahertz, -18 to 11 dBm at 2.4 GHz), its spreading factor is 5 to
-- 12, its coding rate 5 to 8, and its preamble 6 symbols or more.
pub check_in-IsAllowedOn :
    (c : RadioConfig) (bands : Bands)
    → (check_in c bands ≡ none) ↔ ((band : Band) × IsAllowedOn bands c band)
unfolding check_in
check_in-IsAllowedOn c bands = (
  (λ h.
      let (band, at, on, checked) = passes c bands (band_of c.frequency_hz) h in
      let (wide, power, rest) = (on_lem band c).0 checked in
      (band, (on, ((tuned_lem band c.frequency_hz).0 at, wide, power, rest)))),
  (λ h.
      let (band, (on, (tuned, wide, power, rest))) = h in
      ap (λ f. check_at c (allowed bands f)) ((tuned_lem band c.frequency_hz).1 tuned)
      ∙ ap (λ b. check_at c (if b then some band else none)) on
      ∙ (on_lem band c).1 (wide, power, rest)),
)
