-- ===== src/Pmbus/Linear/Words.antt =====
-- LINEAR11 of src/pmbus/linear.cpp on the numbers that its words stand for.
use psu_usb_to_pmbus.Pmbus.Linear.Exponent.{
  scale, signed, limit, whole, scaled_to, too_large_lem, scale-suc, pow_split, ldexp_at, ldexp-neg,
}
use psu_usb_to_pmbus.Base.{
  Bool, ap, arith, false, inl, inr, ltb, refl, suc, sym, true, zero, ℕ, ◌%◌, ◌*◌, ◌+◌, ◌-◌, ◌/◌,
  ◌<◌, ◌^◌, ◌∙◌, ◌≡◌, ◌≤◌, ◌==◌, Bool-cases, if◌then◌else◌, all_below, all_below_sound,
  bit_or_fields, subst,
}
use psu_usb_to_pmbus.Base.Int.{ℤ, pos, negsuc, low_bits_ℤ, clamp_ℤ}
use native.Mathlib.Nat.{one-le-mul, one-le-pow}
use psu_usb_to_pmbus.Float.{finite, ldexp, of_ℤ, lround, Libm, is_finite, is_zero, Float}
use psu_usb_to_pmbus.Pmbus.Linear.{
  sign_extend, decode_linear11, pack, raise_exponent, encode_linear11,
}

-- The fields of a word.
abbrev same_ℤ : ℤ → ℤ → Bool
same_ℤ (pos m) (pos n) = m == n
same_ℤ (negsuc m) (negsuc n) = m == n
same_ℤ _ _ = false

same_ℤ_sound : (x y : ℤ) → same_ℤ x y ≡ true → x ≡ y
same_ℤ_sound x y h = ground (arith, h)

abbrev mantissa_of : ℕ → ℤ
mantissa_of w = if ltb w 1024 then pos w else negsuc (2047 - w)

abbrev exponent_of : ℕ → ℕ
exponent_of w = (w + 16) % 32

all_exponents : all_below 32 (λ w. same_ℤ (sign_extend w 5) (scale (exponent_of w))) ≡ true
unfolding all_below sign_extend
all_exponents = refl

all_mantissas : all_below 2048 (λ w. same_ℤ (sign_extend w 11) (mantissa_of w)) ≡ true
unfolding all_below sign_extend
all_mantissas = refl

exponent_read : (w : ℕ) → w < 32 → sign_extend w 5 ≡ scale (exponent_of w)
exponent_read w h =
    same_ℤ_sound (sign_extend w 5) (scale (exponent_of w))
      (all_below_sound 32 (λ v. same_ℤ (sign_extend v 5) (scale (exponent_of v))) w all_exponents h)

mantissa_read : (w : ℕ) → w < 2048 → sign_extend w 11 ≡ mantissa_of w
mantissa_read w h =
    same_ℤ_sound (sign_extend w 11) (mantissa_of w)
      (all_below_sound 2048 (λ v. same_ℤ (sign_extend v 11) (mantissa_of v)) w all_mantissas h)

-- A sign and a magnitude that a mantissa can have; zero has no sign.
record IsMantissa (s : Bool) (k : ℕ) : Type 0 where
  fits : k ≤ limit s
  proper : s ≡ true → 0 < k

of_ℤ-signed : (s : Bool) (k : ℕ) → IsMantissa s k → of_ℤ (signed s k) ≡ scaled_to s k
of_ℤ-signed false k h = refl
of_ℤ-signed true zero h = absurd (omega (arith, h.proper refl))
of_ℤ-signed true (suc k) h = refl

mantissa_of-IsMantissa :
    (w : ℕ) → w < 2048 → (s : Bool) × (k : ℕ) × IsMantissa s k × (mantissa_of w ≡ signed s k)
mantissa_of-IsMantissa w h = elim (Bool-cases (ltb w 1024)) [
  | inl e ↦
      (false, w, record { fits = ground (arith, e); proper = λ i. ground (arith, i) }, rw e refl)
  | inr e ↦ (
    true,
    suc (2047 - w),
    record { fits = ground (arith, e); proper = λ i. omega arith },
    rw e refl,
  )
]

IsMantissa-few : (s : Bool) (k : ℕ) → IsMantissa s k → k ≤ 1024
IsMantissa-few s k h = ground (arith, h.fits)

-- A word stands for its mantissa at its exponent.
decode_fields :
    (raw : ℕ) (s : Bool) (m e : ℕ)
    → raw < 2 ^ 16
    → exponent_of (raw / 2 ^ 11) ≡ e
    → mantissa_of (raw % 2 ^ 11) ≡ signed s m
    → IsMantissa s m
    → decode_linear11 raw ≡ whole s m e
unfolding decode_linear11
decode_fields raw s m e h high low good =
    rw
      (
        decode_linear11,
        exponent_read (raw / 2 ^ 11) (omega (arith, h)),
        mantissa_read (raw % 2 ^ 11) (omega arith),
        low,
        high,
        of_ℤ-signed s m good,
      )
      (ldexp_at s m e (IsMantissa-few s m good) (omega (arith, high)))

decode_word :
    (raw : ℕ)
    → raw < 2 ^ 16
    → (s : Bool) × (m e : ℕ) × IsMantissa s m × (e ≤ 31) × (decode_linear11 raw ≡ whole s m e)
decode_word raw h =
    let (s, m, good, low) = mantissa_of-IsMantissa (raw % 2 ^ 11) (omega arith) in
    let e = exponent_of (raw / 2 ^ 11) in
    (s, m, e, good, omega arith, decode_fields raw s m e h refl low good)

low_exponent :
    (e : ℕ) → e ≤ 31 → (low_bits_ℤ (scale e) 5 < 32) × (exponent_of (low_bits_ℤ (scale e) 5) ≡ e)
low_exponent e h = ground (arith, h)

low_mantissa :
    (s : Bool) (k : ℕ)
    → IsMantissa s k
    → (low_bits_ℤ (signed s k) 11 < 2048) × (mantissa_of (low_bits_ℤ (signed s k) 11) ≡ signed s k)
low_mantissa true zero h = absurd (omega (arith, h.proper refl))
low_mantissa true (suc k) h = ground (arith, h.fits)
low_mantissa false k h = ground (arith, h.fits)

pack_word : (s : Bool) (k e : ℕ) → IsMantissa s k → e ≤ 31 → pack (scale e) (signed s k) < 2 ^ 16
pack_word s k e good small =
    let (narrow, same_exponent) = low_exponent e small in
    let (short, same_mantissa) = low_mantissa s k good in
    omega (
      arith,
      bit_or_fields 11 (low_bits_ℤ (scale e) 5) (low_bits_ℤ (signed s k) 11) short,
      narrow,
      short,
    )

decode-pack :
    (s : Bool) (k e : ℕ)
    → IsMantissa s k
    → e ≤ 31
    → decode_linear11 (pack (scale e) (signed s k)) ≡ whole s k e
decode-pack s k e good small =
    let (narrow, same_exponent) = low_exponent e small in
    let (short, same_mantissa) = low_mantissa s k good in
    let q = low_bits_ℤ (scale e) 5 in
    let r = low_bits_ℤ (signed s k) 11 in
    let raw = q * 2 ^ 11 + r in
    let high : raw / 2 ^ 11 ≡ q = omega (arith, short) in
    let low : raw % 2 ^ 11 ≡ r = omega (arith, short) in
    ap decode_linear11 (bit_or_fields 11 q r short)
    ∙ decode_fields raw s k e (omega (arith, narrow, short)) (ap exponent_of high ∙ same_exponent)
        (ap mantissa_of low ∙ same_mantissa) good

at_own : (s : Bool) (m e f : ℕ) → e ≡ f → m ≤ limit s → m * 2 ^ (e - f) ≤ limit s
at_own s m e f same h =
    let none_left : e - f ≡ 0 = omega (arith, same) in rw none_left (omega (arith, h))

below :
    (s : Bool) (m e f : ℕ) → f ≤ e → m ≤ limit s → ltb (limit s) (m * 2 ^ (e - f)) ≡ true → f < e
below s m e f lower h large = elim (Bool-cases (ltb f e)) [
  | inl some_left ↦ ground (arith, some_left)
  | inr none_left ↦
      absurd (ground (arith, large, at_own s m e f (ground (arith, none_left, lower)) h))
]

limit_few : (s : Bool) (m : ℕ) → m ≤ limit s → m ≤ 1024
limit_few s m h = ground (arith, h)

-- The loop finds an exponent at which the mantissa fits, and no greater one than that of the number.
raise_exponent-Found :
    (left : ℕ) (s : Bool) (m e f : ℕ)
    → f + left ≡ 31
    → f ≤ e
    → e ≤ 31
    → m ≤ limit s
    → (g : ℕ) × (g ≤ e)
      × (m * 2 ^ (e - g) ≤ limit s)
      × (raise_exponent left (whole s m e) (scale f) (scaled_to s (m * 2 ^ (e - f)))
          ≡ record { exponent = scale g; scaled = scaled_to s (m * 2 ^ (e - g)) })
unfolding raise_exponent
raise_exponent-Found zero s m e f count lower small fits =
    (f, lower, at_own s m e f (omega (arith, count, lower, small)) fits, refl)
raise_exponent-Found (suc left) s m e f count lower small fits =
    let fits_here = too_large_lem s (m * 2 ^ (e - f)) in
    elim (Bool-cases (ltb (limit s) (m * 2 ^ (e - f)))) [
      | inr fitting_now ↦ (f, lower, ground (arith, fitting_now), rw (fits_here, fitting_now) refl)
      | inl large ↦
          let more : f < e = below s m e f lower fits large in
          let (g, under, fitting, found) =
            raise_exponent-Found left s m e (suc f) (omega (arith, count)) (omega (arith, more))
              small fits in
          let next = ldexp-neg s m e (suc f) (limit_few s m fits) (omega (arith, more)) small in
          (g, under, fitting, rw (fits_here, large, scale-suc f, next) found)
    ]

lround_scaled : ⦃libm : Libm⦄ (s : Bool) (k : ℕ) → k ≤ limit s → lround (scaled_to s k) ≡ signed s k
unfolding lround
lround_scaled true k h = ground (arith, h)
lround_scaled false k h = ground (arith, h)

clamp_signed :
    (s : Bool) (k : ℕ) → k ≤ limit s → clamp_ℤ (signed s k) (negsuc 1023) (pos 1023) ≡ signed s k
clamp_signed true zero h = refl
clamp_signed true (suc k) h = ground (arith, h)
clamp_signed false k h = ground (arith, h)

encode_found :
    ⦃libm : Libm⦄ (s : Bool) (m e g : ℕ)
    → 0 < m
    → m ≤ limit s
    → e ≤ 31
    → m * 2 ^ (e - g) ≤ limit s
    → raise_exponent 31 (whole s m e) (scale 0) (scaled_to s (m * 2 ^ (e - 0)))
      ≡ record { exponent = scale g; scaled = scaled_to s (m * 2 ^ (e - g)) }
    → encode_linear11 (whole s m e) ≡ pack (scale g) (signed s (m * 2 ^ (e - g)))
unfolding encode_linear11 is_finite is_zero
encode_found s m e g some_unit fits small fitting found =
    let k = m * 2 ^ (e - g) in
    let some_part : 0 < m * 2 ^ (133 + e) =
      one-le-mul some_unit (one-le-pow (133 + e) 2 (omega arith)) in
    let other : (m * 2 ^ (133 + e) == 0) ≡ false = ground (arith, some_part) in
    rw
      (
        encode_linear11,
        other,
        ldexp-neg s m e 0 (limit_few s m fits) (omega arith) small,
        found,
        lround_scaled s k fitting,
        clamp_signed s k fitting,
      )
      refl

-- The encoding is a word, and it stands for the number.
abbrev Encodes : ⦃libm : Libm⦄ → Float → Type 0
Encodes x = (encode_linear11 x < 2 ^ 16) × (decode_linear11 (encode_linear11 x) ≡ x)

zero_encoded : ⦃libm : Libm⦄ → Encodes (finite false 0)
unfolding decode_linear11 encode_linear11 is_finite is_zero sign_extend ldexp
zero_encoded = (omega arith, refl)

-- A number that a word stands for comes back from its encoding.
encoded : ⦃libm : Libm⦄ (s : Bool) (m e : ℕ) → IsMantissa s m → e ≤ 31 → Encodes (whole s m e)
encoded true zero e good small = absurd (omega (arith, good.proper refl))
encoded false zero e good small =
    subst (λ (n : ℕ). Encodes (finite false n)) (omega arith) zero_encoded
encoded s (suc n) e good small =
    let m = suc n in
    let (g, under, fitting, found) =
      raise_exponent-Found 31 s m e 0 (omega arith) (omega arith) small good.fits in
    let k = m * 2 ^ (e - g) in
    let some_unit : 0 < k = one-le-mul {a = m} (omega arith) (one-le-pow (e - g) 2 (omega arith)) in
    let mantissa : IsMantissa s k = record { fits = fitting; proper = λ h. some_unit } in
    let packed = encode_found s m e g (omega arith) good.fits small fitting found in
    (
      subst (λ (w : ℕ). w < 2 ^ 16) (sym packed)
          (pack_word s k g mantissa (omega (arith, under, small))),
      ap decode_linear11 packed
          ∙ decode-pack s k g mantissa (omega (arith, under, small))
          ∙ ap (finite s) (sym (pow_split m (133 + e) (e - g) (133 + g) (omega (arith, under)))),
    )

-- Every word of LINEAR11 stands for the same number after its number has been encoded again, though
-- perhaps as another word.
pub decode-encode_linear11 :
    ⦃libm : Libm⦄ (raw : ℕ)
    → raw < 2 ^ 16
    → (encode_linear11 (decode_linear11 raw) < 2 ^ 16)
      × (decode_linear11 (encode_linear11 (decode_linear11 raw)) ≡ decode_linear11 raw)
decode-encode_linear11 raw h =
    let (s, m, e, good, small, read) = decode_word raw h in
    subst Encodes (sym read) (encoded s m e good small)
