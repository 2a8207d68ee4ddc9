-- ===== src/Pmbus/Linear/Voltage.antt =====
-- LINEAR16 of src/pmbus/linear.cpp with the exponent of READ_VOUT, 2^-12 volts.
use psu_usb_to_pmbus.Pmbus.Server.OnPage.{vout_exponent}
use psu_usb_to_pmbus.Pmbus.Linear.{decode_linear16, encode_linear16}
use psu_usb_to_pmbus.Base.{false, ℕ, arith, ◌<◌, ◌^◌, ◌≤◌, ◌*◌, ◌≡◌, ◌+◌, ◌/◌}
use psu_usb_to_pmbus.Float.{finite, Libm, ldexp, lround, round_shift, lt, is_finite}

decode_lem :
    (raw : ℕ) → raw < 2 ^ 16 → decode_linear16 raw vout_exponent ≡ finite false (raw * 2 ^ 137)
unfolding decode_linear16 ldexp round_shift
decode_lem raw h = ground arith

encode_lem :
    ⦃libm : Libm⦄ (m : ℕ)
    → m ≤ 65535 * 2 ^ 137
    → encode_linear16 (finite false m) vout_exponent ≡ (m + 2 ^ 136) / 2 ^ 137
unfolding encode_linear16 ldexp lround lt is_finite
encode_lem m h = ground arith

-- Every word that READ_VOUT can send survives a conversion to volts and back.
pub encode-decode_linear16 :
    ⦃libm : Libm⦄ (raw : ℕ)
    → raw < 2 ^ 16
    → encode_linear16 (decode_linear16 raw vout_exponent) vout_exponent ≡ raw
encode-decode_linear16 raw h =
    rw (decode_lem raw h, encode_lem (raw * 2 ^ 137) (omega arith)) (omega arith)

-- A finite voltage that is not negative and not more than 65535 steps of 2^-12 volts, so up to almost 16 volts, is sent as a word
-- whose conversion to volts differs from it by at most half a step.
pub encode_linear16-nearest :
    ⦃libm : Libm⦄ (m : ℕ)
    → m ≤ 65535 * 2 ^ 137
    → (raw read : ℕ) × (encode_linear16 (finite false m) vout_exponent ≡ raw)
      × (decode_linear16 raw vout_exponent ≡ finite false read)
      × (raw < 2 ^ 16)
      × (read ≤ m + 2 ^ 136)
      × (m ≤ read + 2 ^ 136)
encode_linear16-nearest m h =
    let raw = (m + 2 ^ 136) / 2 ^ 137 in
    (
      raw,
      raw * 2 ^ 137,
      encode_lem m h,
      decode_lem raw (omega arith),
      omega arith,
      omega arith,
      omega arith,
    )
