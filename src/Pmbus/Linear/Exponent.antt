-- ===== src/Pmbus/Linear/Exponent.antt =====
-- Products by powers of two in src/pmbus/linear.cpp, on numbers of few digits. The exponent is counted
-- from -16 here, so from 0 to 31.
use psu_usb_to_pmbus.Base.{
  Bool, ap, arith, false, if_cases, inl, inr, leb, ltb, refl, suc, sym, true, zero, ℕ, ◌%◌, ◌*◌,
  ◌+◌, ◌-◌, ◌/◌, ◌<◌, ◌^◌, ◌∙◌, ◌≡◌, ◌≤◌, ◌⊎◌,
}
use psu_usb_to_pmbus.Base.Int.{ℤ, pos, negsuc, sub_ℕ, succ_ℤ, neg}
use native.Mathlib.Nat.{
  pow-suc, one-le-pow, mul-le-mul, mul-div_cancel, mul-mod_left, pow-le-pow_right,
}
use psu_usb_to_pmbus.Float.{Float, finite, ldexp, lt, round_shift}
use psu_usb_to_pmbus.Pmbus.Linear.{too_large}

pow_add : (a b : ℕ) → 2 ^ (a + b) ≡ 2 ^ a * 2 ^ b
pow_add a zero = let end : a + 0 ≡ a = omega arith in rw end (omega arith)
pow_add a (suc b) =
    let front : a + suc b ≡ suc (a + b) = omega arith in
    rw (front, pow-suc 2 (a + b), pow-suc 2 b, pow_add a b) (omega arith)

-- The exponent that is counted from -16.
abbrev pub scale : ℕ → ℤ
scale e = sub_ℕ e 16

abbrev pub signed : Bool → ℕ → ℤ
signed true n = neg (pos n)
signed false n = pos n

-- The greatest magnitude of a mantissa.
abbrev pub limit : Bool → ℕ
limit true = 1024
limit false = 1023

-- The float m * 2^(e - 16), with its sign.
abbrev pub whole : Bool → ℕ → ℕ → Float
whole s m e = finite s (m * 2 ^ (133 + e))

abbrev pub scaled_to : Bool → ℕ → Float
scaled_to s k = finite s (k * 2 ^ 149)

ldexp_down : (s : Bool) (q k : ℕ) → ldexp (finite s (q * 2 ^ suc k)) (negsuc k) ≡ finite s q
unfolding ldexp round_shift
ldexp_down s q k =
    let p = 2 ^ suc k in
    let some_unit : 0 < p = one-le-pow (suc k) 2 (omega arith) in
    let positive : ltb 0 p ≡ true = ground (arith, some_unit) in
    let whole_part : q * p / p ≡ q = mul-div_cancel q some_unit in
    let rest : q * p % p ≡ 0 = mul-mod_left q p in rw (round_shift, whole_part, rest, positive) refl

ldexp_up :
    (s : Bool) (n k : ℕ) → n * 2 ^ k < 2 ^ 277 → ldexp (finite s n) (pos k) ≡ finite s (n * 2 ^ k)
unfolding ldexp
ldexp_up s n k h = ground (arith, h)

pub too_large_lem : (s : Bool) (k : ℕ) → too_large (scaled_to s k) ≡ ltb (limit s) k
unfolding too_large lt
too_large_lem true k = ground arith
too_large_lem false k = ground arith

-- How the exponent is counted.
abbrev Low : ℕ → Type 0
Low e = (k : ℕ) × (e + suc k ≡ 16) × (scale e ≡ negsuc k)

abbrev High : ℕ → Type 0
High e = (k : ℕ) × (e ≡ 16 + k) × (scale e ≡ pos k)

at_cases : (e : ℕ) → Low e ⊎ High e
at_cases e =
    if_cases
      (λ (z : ℤ).
        ((k : ℕ) × (e + suc k ≡ 16) × (z ≡ negsuc k)) ⊎ ((k : ℕ) × (e ≡ 16 + k) × (z ≡ pos k)))
      (leb 16 e) (λ h. inr (e - 16, ground (arith, h), refl))
      (λ h. inl (16 - e - 1, ground (arith, h), refl))

pub scale-suc : (e : ℕ) → succ_ℤ (scale e) ≡ scale (suc e)
scale-suc e = ground arith

pub pow_split : (m a b c : ℕ) → a ≡ b + c → m * 2 ^ a ≡ m * 2 ^ b * 2 ^ c
pow_split m a b c h = rw (h, pow_add b c) (omega arith)

bounded_units : (m a : ℕ) → m ≤ 1024 → a ≤ 260 → m * 2 ^ a < 2 ^ 277
bounded_units m a few low =
    omega (arith, mul-le-mul few (pow-le-pow_right {n = 2} (omega arith) low))

-- What a mantissa and an exponent stand for.
pub ldexp_at :
    (s : Bool) (k e : ℕ) → k ≤ 1024 → e ≤ 31 → ldexp (scaled_to s k) (scale e) ≡ whole s k e
ldexp_at s k e few small = elim (at_cases e) [
  | inl (j, h, low) ↦
      let units = pow_split k 149 (133 + e) (suc j) (omega (arith, h)) in
      rw (low, units) (ldexp_down s (k * 2 ^ (133 + e)) j)
  | inr (j, h, high) ↦
      let units = pow_split k (133 + e) 149 j (omega (arith, h)) in
      let fits = bounded_units k (133 + e) few (omega (arith, small)) in
      rw (high, units) (ldexp_up s (k * 2 ^ 149) j (omega (arith, units, fits)))
]

-- The mantissa at another exponent.
pub ldexp-neg :
    (s : Bool) (m e f : ℕ)
    → m ≤ 1024
    → f ≤ e
    → e ≤ 31
    → ldexp (whole s m e) (neg (scale f)) ≡ scaled_to s (m * 2 ^ (e - f))
ldexp-neg s m e f few lower small = elim (at_cases f) [
  | inl (j, h, low) ↦ rw low (raised (suc j) (omega (arith, h, lower)))
  | inr (zero, h, high) ↦ rw high (raised 0 (omega (arith, h, lower)))
  | inr (suc j, h, high) ↦
      let units = pow_split m (133 + e) (e - f + 149) (suc j) (omega (arith, h, lower)) in
      let parts = pow_split m (e - f + 149) (e - f) 149 refl in
      rw (high, units, parts) (ldexp_down s (m * 2 ^ (e - f) * 2 ^ 149) j)
]
  where
    raised :
        (j : ℕ)
        → 133 + e + j ≡ e - f + 149
        → ldexp (whole s m e) (pos j) ≡ scaled_to s (m * 2 ^ (e - f))
    raised j h =
        let units = pow_split m (e - f + 149) (133 + e) j (sym h) in
        let parts = pow_split m (e - f + 149) (e - f) 149 refl in
        let fits = bounded_units m (e - f + 149) few (omega (arith, small)) in
        ldexp_up s (m * 2 ^ (133 + e)) j (omega (arith, units, fits))
        ∙ ap (finite s) (sym units ∙ parts)
