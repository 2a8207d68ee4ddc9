-- ===== src/Base/Bits.antt =====
-- Facts about the bit operations: by evaluation over a range, and by recursion on binary digits.
use Prim.Native.Nat.{ℕ, zero, suc, ◌+◌, ◌-◌, ◌*◌, ◌/◌, ◌%◌, ◌≤◌, ◌<◌, ◌^◌, max, bit_xor, bit_or}
use Prim.Native.Nat.{digits, bitwise, differ, bit_xor-bitwise, bit_or-bitwise}
use native.Mathlib.Nat.{pow-suc}
use mathlib.Core.Path.{◌≡◌, refl, ap}
use mathlib.Core.Bool.{Bool, true, ◌&&◌}
use native.Mathlib.Omega.{arith}

-- The test holds of every number below the bound.
unfoldable pub all_below : ℕ → (ℕ → Bool) → Bool
all_below zero test = true
all_below (suc bound) test = all_below bound test && test bound

pub all_below_sound :
    (bound : ℕ) (test : ℕ → Bool) (x : ℕ) → all_below bound test ≡ true → x < bound → test x ≡ true
unfolding all_below
all_below_sound (suc bound) test x all small = ground (arith, all_below_sound bound test x)
all_below_sound zero test x all small = absurd (omega arith)

module _ (rest : ℕ → ℕ) (op : ℕ → ℕ → ℕ) where
  -- Spare rounds change nothing.
  digits-spare :
      (rounds spare x y : ℕ)
      → x ≤ rounds
      → digits rest op (rounds + spare) x y ≡ digits rest op rounds x y
  digits-spare (suc rounds) spare (suc x) y h =
      let all : suc rounds + spare ≡ suc (rounds + spare) = omega arith in
      let halves = digits-spare rounds spare (suc x / 2) (y / 2) (omega arith) in
      rw all (omega (arith, halves))
  digits-spare (suc rounds) spare zero y h =
      let all : suc rounds + spare ≡ suc (rounds + spare) = omega arith in rw all refl
  digits-spare zero (suc spare) zero y h =
      let all : 0 + suc spare ≡ suc spare = omega arith in rw all refl
  digits-spare zero spare (suc x) y h = absurd (omega arith)
  digits-spare zero zero zero y h = refl

  lowest_digit :
      (x y : ℕ)
      → bitwise rest op (suc x) y ≡ op (suc x % 2) (y % 2) + 2 * bitwise rest op (suc x / 2) (y / 2)
  lowest_digit x y =
      let half = suc x / 2 in
      let split : half + (x - half) ≡ x = omega arith in
      let halves : digits rest op x half (y / 2) ≡ digits rest op half half (y / 2) =
        rw split at (digits-spare half (x - half) half (y / 2) (omega arith)) in
      omega (arith, halves)

differ_digits : (x y : ℕ) → x < 2 → y < 2 → differ x y ≡ (x + y) % 2
differ_digits zero y p q = omega arith
differ_digits (suc zero) zero p q = refl
differ_digits (suc zero) (suc zero) p q = refl
differ_digits (suc zero) (suc (suc y)) p q = absurd (omega arith)
differ_digits (suc (suc x)) y p q = absurd (omega arith)

-- The lowest digit of an exclusive or, and what the others are.
pub bit_xor_step : (x y : ℕ) → bit_xor x y ≡ (x + y) % 2 + 2 * bit_xor (x / 2) (y / 2)
bit_xor_step (suc x) y = omega (
  arith,
  lowest_digit (λ v. v) differ x y,
  differ_digits (suc x % 2) (y % 2) (omega arith) (omega arith),
  bit_xor-bitwise (suc x) y,
  bit_xor-bitwise (suc x / 2) (y / 2),
)
bit_xor_step zero y = omega (arith, bit_xor-bitwise 0 (y / 2), bit_xor-bitwise 0 y)

pub bit_or_step : (x y : ℕ) → bit_or x y ≡ max (x % 2) (y % 2) + 2 * bit_or (x / 2) (y / 2)
bit_or_step (suc x) y = omega (
  arith,
  lowest_digit (λ v. v) max x y,
  bit_or-bitwise (suc x) y,
  bit_or-bitwise (suc x / 2) (y / 2),
)
bit_or_step zero y = omega (arith, bit_or-bitwise 0 (y / 2), bit_or-bitwise 0 y)

undo_step :
    (a b : ℕ) → bit_xor (bit_xor (a / 2) (b / 2)) (b / 2) ≡ a / 2 → bit_xor (bit_xor a b) b ≡ a
undo_step a b ih =
    let half : bit_xor a b / 2 ≡ bit_xor (a / 2) (b / 2) = omega (arith, bit_xor_step a b) in
    let rest : bit_xor (bit_xor a b / 2) (b / 2) ≡ a / 2 = rw half ih in
    omega (arith, bit_xor_step a b, bit_xor_step (bit_xor a b) b)

bit_xor_undo_fuel : (n a b : ℕ) → a + b ≤ n → bit_xor (bit_xor a b) b ≡ a
bit_xor_undo_fuel n zero zero h = refl
bit_xor_undo_fuel zero (suc a) b h = absurd (omega arith)
bit_xor_undo_fuel zero zero (suc b) h = absurd (omega arith)
bit_xor_undo_fuel (suc n) zero (suc b) h =
    undo_step 0 (suc b) (bit_xor_undo_fuel n 0 (suc b / 2) (omega arith))
bit_xor_undo_fuel (suc n) (suc a) b h =
    undo_step (suc a) b (bit_xor_undo_fuel n (suc a / 2) (b / 2) (omega arith))

-- An exclusive or with the same number twice gives the first number back.
pub bit_xor_undo : (a b : ℕ) → bit_xor (bit_xor a b) b ≡ a
bit_xor_undo a b = bit_xor_undo_fuel (a + b) a b (omega arith)

pub bit_xor-lt : (k a b : ℕ) → a < 2 ^ k → b < 2 ^ k → bit_xor a b < 2 ^ k
bit_xor-lt zero zero zero p q = omega arith
bit_xor-lt zero zero (suc b) p q = absurd (omega arith)
bit_xor-lt zero (suc a) b p q = absurd (omega arith)
bit_xor-lt (suc k) a b p q = omega (
  arith,
  bit_xor_step a b,
  pow-suc 2 k,
  bit_xor-lt k (a / 2) (b / 2) (omega (arith, pow-suc 2 k)) (omega (arith, pow-suc 2 k)),
)

bit_or-zero_fuel : (n a : ℕ) → a ≤ n → bit_or a 0 ≡ a
bit_or-zero_fuel n zero h = refl
bit_or-zero_fuel zero (suc a) h = absurd (omega arith)
bit_or-zero_fuel (suc n) (suc a) h =
    omega (arith, bit_or_step (suc a) 0, bit_or-zero_fuel n (suc a / 2) (omega arith))

-- `(q << k) | r` is a sum where `r` has at most `k` bits.
pub bit_or_fields : (k q r : ℕ) → r < 2 ^ k → bit_or (q * 2 ^ k) r ≡ q * 2 ^ k + r
bit_or_fields zero q zero h = omega (arith, bit_or-zero_fuel (q * 2 ^ 0) (q * 2 ^ 0) (omega arith))
bit_or_fields zero q (suc r) h = absurd (omega arith)
bit_or_fields (suc k) q r h =
    let double : q * 2 ^ suc k ≡ 2 * (q * 2 ^ k) =
      omega (arith, ap (λ (t : ℕ). q * t) (pow-suc 2 k)) in
    let half : q * 2 ^ suc k / 2 ≡ q * 2 ^ k = omega arith in
    let rest : bit_or (q * 2 ^ suc k / 2) (r / 2) ≡ q * 2 ^ k + r / 2 =
      rw half (bit_or_fields k q (r / 2) (omega (arith, pow-suc 2 k))) in
    omega (arith, bit_or_step (q * 2 ^ suc k) r)

bit_xor_comm_fuel : (n a b : ℕ) → a + b ≤ n → bit_xor a b ≡ bit_xor b a
bit_xor_comm_fuel n zero zero h = refl
bit_xor_comm_fuel zero (suc a) b h = absurd (omega arith)
bit_xor_comm_fuel zero zero (suc b) h = absurd (omega arith)
bit_xor_comm_fuel (suc n) zero (suc b) h = omega (
  arith,
  bit_xor_step 0 (suc b),
  bit_xor_step (suc b) 0,
  bit_xor_comm_fuel n 0 (suc b / 2) (omega arith),
)
bit_xor_comm_fuel (suc n) (suc a) b h = omega (
  arith,
  bit_xor_step (suc a) b,
  bit_xor_step b (suc a),
  bit_xor_comm_fuel n (suc a / 2) (b / 2) (omega arith),
)

pub bit_xor_comm : (a b : ℕ) → bit_xor a b ≡ bit_xor b a
bit_xor_comm a b = bit_xor_comm_fuel (a + b) a b (omega arith)

bit_xor_self_fuel : (n a : ℕ) → a ≤ n → bit_xor a a ≡ 0
bit_xor_self_fuel n zero h = refl
bit_xor_self_fuel zero (suc a) h = absurd (omega arith)
bit_xor_self_fuel (suc n) (suc a) h =
    omega (arith, bit_xor_step (suc a) (suc a), bit_xor_self_fuel n (suc a / 2) (omega arith))

pub bit_xor_self : (a : ℕ) → bit_xor a a ≡ 0
bit_xor_self a = bit_xor_self_fuel a a (omega arith)
