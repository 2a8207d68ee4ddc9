-- ===== src/Float.antt =====
-- The language's `float`: IEEE 754 binary32, and what the code uses of <cmath> on it.
-- A finite value is a sign and a magnitude counted in units of 2^-149, the least positive float,
-- so every float is a whole number of units below 2^277. Sums and products are rounded to 24
-- significant bits, ties to even.
use psu_usb_to_pmbus.Base.{
  ℕ, zero, suc, ◌+◌, ◌-◌, ◌*◌, ◌/◌, ◌%◌, ◌^◌, Bool, true, false, not, ltb, leb, ◌==◌, if◌then◌else◌,
}
use psu_usb_to_pmbus.Base.Int.{ℤ, pos, negsuc, neg}

pub data Float : Type 0 where
  finite : Bool → ℕ → Float
  inf : Bool → Float
  nan : Float

-- What `lround` returns where the rounded value does not fit `long`, which the C library leaves
-- unspecified.
pub record Libm : Type 0 where
  pub lround_range : Float → ℤ

abbrev unit_bits : ℕ
unit_bits = 149

abbrev overflow_bits : ℕ
overflow_bits = 277

-- The float of a whole number with at most 24 bits, such as an `int16_t` or a `uint16_t`.
abbrev pub of_ℕ : ℕ → Float
of_ℕ n = finite false (n * 2 ^ unit_bits)

abbrev pub of_ℤ : ℤ → Float
of_ℤ (pos n) = of_ℕ n
of_ℤ (negsuc n) = finite true (suc n * 2 ^ unit_bits)

unfoldable pub is_finite : Float → Bool
is_finite (finite s m) = true
is_finite (inf s) = false
is_finite nan = false

-- `x < y`, false if either is not a number. The two zeros are equal.
abbrev lt_finite : Bool → ℕ → Bool → ℕ → Bool
lt_finite false a false b = ltb a b
lt_finite false a true b = false
lt_finite true a false b = ltb 0 (a + b)
lt_finite true a true b = ltb b a

unfoldable pub lt : Float → Float → Bool
lt nan y = false
lt (finite s a) (finite t b) = lt_finite s a t b
lt (finite s a) (inf t) = not t
lt (finite s a) nan = false
lt (inf s) (finite t b) = s
lt (inf true) (inf t) = not t
lt (inf false) (inf t) = false
lt (inf s) nan = false

-- `x == 0`.
unfoldable pub is_zero : Float → Bool
is_zero (finite s m) = m == 0
is_zero (inf s) = false
is_zero nan = false

-- `n / 2^k` to the nearest whole number, ties to even.
unfoldable pub round_shift : ℕ → ℕ → ℕ
round_shift n k =
    let q = n / 2 ^ k in
    let r = n % 2 ^ k in
    if ltb (2 * r) (2 ^ k) then q else if ltb (2 ^ k) (2 * r) then q + 1 else q + q % 2

bounded : Bool → ℕ → Float
bounded s m = if ltb m (2 ^ overflow_bits) then finite s m else inf s

-- `x * 2^k`. A product by a power of two is rounded only where it falls below 24 significant units.
unfoldable pub ldexp : Float → ℤ → Float
unfolding bounded round_shift
ldexp (finite s m) (pos k) = bounded s (m * 2 ^ k)
ldexp (finite s m) (negsuc k) = finite s (round_shift m (suc k))
ldexp (inf s) k = inf s
ldexp nan k = nan

-- The whole units nearest to `x`, halves away from zero, as a 32-bit `long`.
unfoldable pub lround : ⦃m : Libm⦄ → Float → ℤ
lround ⦃m⦄ (finite s n) =
    let r = (n + 2 ^ 148) / 2 ^ unit_bits in
    if s
    then if leb r (2 ^ 31) then neg (pos r) else m.lround_range (finite s n)
    else if ltb r (2 ^ 31)
    then pos r
    else m.lround_range (finite s n)
lround ⦃m⦄ (inf s) = m.lround_range (inf s)
lround ⦃m⦄ nan = m.lround_range nan

-- Digits in base two, with fuel; the number itself is enough.
bit_length_fuel : ℕ → ℕ → ℕ
bit_length_fuel zero n = 0
bit_length_fuel (suc fuel) n = elim n [ zero ↦ 0 | suc k ↦ suc (bit_length_fuel fuel (suc k / 2)) ]

-- The float nearest to `n / 2^k` units.
nearest : Bool → ℕ → ℕ → Float
unfolding bit_length_fuel bounded round_shift
nearest s n k =
    let extra = bit_length_fuel n (n / 2 ^ k) - 24 in
    bounded s (round_shift n (k + extra) * 2 ^ extra)

add_finite : Bool → ℕ → Bool → ℕ → Float
unfolding nearest
add_finite false a false b = nearest false (a + b) 0
add_finite true a true b = nearest true (a + b) 0
add_finite false a true b = if ltb a b then nearest true (b - a) 0 else nearest false (a - b) 0
add_finite true a false b = if ltb b a then nearest true (a - b) 0 else nearest false (b - a) 0

abbrev differ_sign : Bool → Bool → Bool
differ_sign false t = t
differ_sign true t = not t

unfoldable pub add : Float → Float → Float
unfolding add_finite
add (finite s a) (finite t b) = add_finite s a t b
add (finite s a) (inf t) = inf t
add (inf s) (finite t b) = inf s
add (inf s) (inf t) = if differ_sign s t then nan else inf s
add nan y = nan
add (finite s a) nan = nan
add (inf s) nan = nan

unfoldable pub mul : Float → Float → Float
unfolding nearest
mul (finite s a) (finite t b) = nearest (differ_sign s t) (a * b) unit_bits
mul (finite s a) (inf t) = if a == 0 then nan else inf (differ_sign s t)
mul (inf s) (finite t b) = if b == 0 then nan else inf (differ_sign s t)
mul (inf s) (inf t) = inf (differ_sign s t)
mul nan y = nan
mul (finite s a) nan = nan
mul (inf s) nan = nan
