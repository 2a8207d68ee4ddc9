-- ===== src/Examples/Linear.antt =====
-- The output voltage at concrete words.
use psu_usb_to_pmbus.Pmbus.Linear.Voltage.{encode-decode_linear16, encode_linear16-nearest}
use psu_usb_to_pmbus.Pmbus.Server.OnPage.{vout_exponent}
use psu_usb_to_pmbus.Base.Int.{pos}
use psu_usb_to_pmbus.Pmbus.Linear.Words.{decode-encode_linear11}
use psu_usb_to_pmbus.Pmbus.Linear.{
  encode_linear16, decode_linear16, encode_linear11, decode_linear11,
}
use psu_usb_to_pmbus.Base.{ℕ, arith, false, ◌*◌, ◌^◌, ◌≡◌, ◌+◌, ◌<◌, ◌≤◌}
use psu_usb_to_pmbus.Float.{finite, Libm}

instance linear_libm : Libm
linear_libm = record { lround_range = λ x. pos 0 }

encode-decode_linear16_example :
    encode_linear16 (decode_linear16 0xc000 vout_exponent) vout_exponent ≡ 0xc000
encode-decode_linear16_example = encode-decode_linear16 0xc000 (omega arith)

-- A little more than twelve volts.
encode_linear16-nearest_example :
    (raw read : ℕ) × (encode_linear16 (finite false (12 * 2 ^ 149 + 2 ^ 135)) vout_exponent ≡ raw)
    × (decode_linear16 raw vout_exponent ≡ finite false read)
    × (raw < 2 ^ 16)
    × (read ≤ 12 * 2 ^ 149 + 2 ^ 135 + 2 ^ 136)
    × (12 * 2 ^ 149 + 2 ^ 135 ≤ read + 2 ^ 136)
encode_linear16-nearest_example = encode_linear16-nearest (12 * 2 ^ 149 + 2 ^ 135) (omega arith)

-- 230 with an exponent of zero.
decode-encode_linear11_example :
    (encode_linear11 (decode_linear11 0x00e6) < 2 ^ 16)
    × (decode_linear11 (encode_linear11 (decode_linear11 0x00e6)) ≡ decode_linear11 0x00e6)
decode-encode_linear11_example = decode-encode_linear11 0x00e6 (omega arith)
