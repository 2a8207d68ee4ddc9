-- ===== src/Pmbus/Linear.antt =====
-- src/pmbus/linear.cpp: the LINEAR11 and LINEAR16 number formats.
-- A `std::uint16_t` is a number below 2 ^ 16, an `int` a signed integer.
pub mod Voltage
pub mod Exponent
pub mod Words
use psu_usb_to_pmbus.Base.{
  ℕ, zero, suc, ◌+◌, ◌-◌, ◌*◌, ◌/◌, ◌%◌, ◌^◌, Bool, not, ◌||◌, ltb, if◌then◌else◌, bit_or, bit_xor,
}
use psu_usb_to_pmbus.Base.Int.{ℤ, pos, negsuc, sub_ℕ, succ_ℤ, pos_part, neg, low_bits_ℤ, clamp_ℤ}
use psu_usb_to_pmbus.Float.{Float, Libm, of_ℕ, of_ℤ, is_finite, is_zero, lt, ldexp, lround}

-- The cast to `int16_t` of a 16-bit pattern.
abbrev pub to_int16 : ℕ → ℤ
to_int16 w = if ltb w (2 ^ 15) then pos w else sub_ℕ w (2 ^ 16)

-- `(value ^ mask) - mask` is taken in `int`, and the cast keeps 16 bits of it.
unfoldable pub sign_extend : ℕ → ℕ → ℤ
sign_extend value bits =
    let mask = 2 ^ (bits - 1) in to_int16 ((bit_xor value mask + 2 ^ 16 - mask) % 2 ^ 16)

unfoldable pub decode_linear11 : ℕ → Float
unfolding sign_extend ldexp
decode_linear11 raw =
    let exponent = sign_extend (raw / 2 ^ 11) 5 in
    let mantissa = sign_extend (raw % 2 ^ 11) 11 in ldexp (of_ℤ mantissa) exponent

-- The mantissa does not fit.
unfoldable pub too_large : Float → Bool
unfolding lt
too_large scaled = lt (of_ℕ 1023) scaled || lt scaled (of_ℤ (negsuc 1023))

-- The loop on the exponent, with `15 - exponent` rounds left.
unfoldable pub raise_exponent : ℕ → Float → ℤ → Float → record { exponent : ℤ; scaled : Float }
unfolding too_large ldexp
raise_exponent zero value exponent scaled = record { exponent = exponent; scaled = scaled }
raise_exponent (suc left) value exponent scaled =
    let next = succ_ℤ exponent in
    let rest = raise_exponent left value next (ldexp value (neg next)) in
    if too_large scaled then rest else record { exponent = exponent; scaled = scaled }

-- The exponent in the upper 5 bits, the mantissa in the lower 11.
abbrev pub pack : ℤ → ℤ → ℕ
pack exponent mantissa = bit_or (low_bits_ℤ exponent 5 * 2 ^ 11) (low_bits_ℤ mantissa 11)

unfoldable pub encode_linear11 : ⦃libm : Libm⦄ → Float → ℕ
unfolding raise_exponent ldexp lround is_finite is_zero
encode_linear11 value =
    if not (is_finite value) || is_zero value
    then 0
    else (let found = raise_exponent 31 value (negsuc 15) (ldexp value (pos 16)) in
        pack found.exponent (clamp_ℤ (lround found.scaled) (negsuc 1023) (pos 1023)))

unfoldable pub decode_linear16 : ℕ → ℤ → Float
unfolding ldexp
decode_linear16 raw exponent = ldexp (of_ℕ raw) exponent

unfoldable pub encode_linear16 : ⦃libm : Libm⦄ → Float → ℤ → ℕ
unfolding ldexp lround is_finite lt
encode_linear16 value exponent =
    if not (is_finite value) || not (lt (of_ℕ 0) value)
    then 0
    else pos_part (clamp_ℤ (lround (ldexp value (neg exponent))) (pos 0) (pos 65535)) % 2 ^ 16
