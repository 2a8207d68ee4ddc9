-- ===== src/Telemetry/Power/Energy.antt =====
-- The energy counters of src/telemetry/power.cpp over any number of samples.
use psu_usb_to_pmbus.Base.{refl, true, false, [], ◌∷◌, min, Bool, ◌-◌, ◌/◌, not, ◌==◌}
use psu_usb_to_pmbus.Telemetry.Snapshot.{TelemetrySnapshot}
use psu_usb_to_pmbus.Telemetry.Power.{
  accumulate_input_power_sample, sample_of, truncate, clamp, is_rejected,
  read_ein_accumulator_rollover,
}
use psu_usb_to_pmbus.Base.{
  ℕ, List, arith, ◌∷◌, ◌≤◌, if◌then◌else◌, ◌+◌, ◌*◌, Bool-cases, ◌≡◌, ◌%◌, inl, inr, ◌^◌, ltb, suc,
  ltb→lt,
}
use psu_usb_to_pmbus.Float.{Float, finite, inf, nan, lt, of_ℕ, is_finite, add}

-- A number that is finite and not negative; the negative zero counts as zero.
abbrev pub is_counted : Float → Bool
is_counted (finite false m) = true
is_counted (finite true m) = m == 0
is_counted _ = false

-- The whole units of a number, none below zero and at most 32767.
abbrev pub limited : Float → ℕ
limited (finite false m) = min (m / 2 ^ 149) 32767
limited (inf false) = 32767
limited _ = 0

-- The watts of a sample, rounded by the addition of a half.
abbrev pub watts_of : Float → ℕ
watts_of w = limited (add w (finite false (2 ^ 148)))

is_rejected-is_counted : (w : Float) → is_rejected w ≡ not (is_counted w)
unfolding is_finite lt
is_rejected-is_counted (finite true m) = ground arith
is_rejected-is_counted (finite false m) = ground arith
is_rejected-is_counted (inf s) = refl
is_rejected-is_counted nan = refl

truncate-clamp :
    (x : Float) → truncate (clamp x (of_ℕ 0) (of_ℕ read_ein_accumulator_rollover)) ≡ limited x
unfolding truncate clamp lt
truncate-clamp (finite true m) = ground arith
truncate-clamp (finite false m) = ground arith
truncate-clamp (inf true) = ground arith
truncate-clamp (inf false) = ground arith
truncate-clamp nan = ground arith

sample_of-watts_of : (w : Float) → sample_of w ≡ watts_of w
unfolding sample_of
sample_of-watts_of w = truncate-clamp (add w (finite false (2 ^ 148)))

limited-bounded : (x : Float) → limited x ≤ 0x7fff
limited-bounded (finite true m) = omega arith
limited-bounded (finite false m) = omega arith
limited-bounded (inf true) = omega arith
limited-bounded (inf false) = omega arith
limited-bounded nan = omega arith

-- The counters stand for so much energy, in watts times samples, from so many samples.
pub record IsCounted (energy samples : ℕ) (t : TelemetrySnapshot) : Type 0 where
  pub rolls : ℕ
  pub whole : t.input_power_accumulator + 0x7fff * rolls ≡ energy
  pub fits : t.input_power_accumulator ≤ 0x7fff
  pub rolled : t.input_power_rollover_count ≡ rolls % 2 ^ 8
  pub counted : t.input_power_sample_count ≡ samples % 2 ^ 24

recount :
    {e e' n n' : ℕ} {t : TelemetrySnapshot} → e ≡ e' → n ≡ n' → IsCounted e n t → IsCounted e' n' t
recount p q c = record {
  rolls = c.rolls;
  whole = omega (arith, c.whole, p);
  fits = c.fits;
  rolled = c.rolled;
  counted = omega (arith, c.counted, q);
}

-- What the samples amount to that are counted, and how many these are.
abbrev pub energy_of : List Float → ℕ
energy_of [] = 0
energy_of (w ∷ ws) = (if is_counted w then watts_of w else 0) + energy_of ws

abbrev pub accepted_of : List Float → ℕ
accepted_of [] = 0
accepted_of (w ∷ ws) = (if is_counted w then 1 else 0) + accepted_of ws

abbrev pub accumulate_all : TelemetrySnapshot → List Float → TelemetrySnapshot
accumulate_all t [] = t
accumulate_all t (w ∷ ws) = accumulate_all (accumulate_input_power_sample t w) ws

-- A sample of so many watts.
step-IsCounted :
    (sample : ℕ) {e n : ℕ} {t : TelemetrySnapshot}
    → sample ≤ 0x7fff
    → IsCounted e n t
    → let accumulator = t.input_power_accumulator + sample in
      let samples = (t.input_power_sample_count + 1) % 2 ^ 24 in
      IsCounted (sample + e) (1 + n) (
        if ltb 0x7fff accumulator
        then record t {
          input_power_accumulator = (accumulator - 0x7fff) % 2 ^ 16;
          input_power_rollover_count = (t.input_power_rollover_count + 1) % 2 ^ 8;
          input_power_sample_count = samples;
        }
        else record t {
          input_power_accumulator = accumulator % 2 ^ 16;
          input_power_sample_count = samples;
        })
step-IsCounted sample {t = t} small c =
    elim (Bool-cases (ltb 0x7fff (t.input_power_accumulator + sample))) [
      | inl over ↦ rw over record {
        rolls = suc c.rolls;
        whole = omega (arith, c.whole, c.fits, small, ltb→lt _ _ over);
        fits = omega (arith, c.whole, c.fits, small);
        rolled = omega (arith, c.rolled);
        counted = omega (arith, c.counted);
      }
      | inr below ↦ rw below record {
        rolls = c.rolls;
        whole = omega (arith, c.whole, c.fits, small);
        fits = ground (arith, c.whole, c.fits, small);
        rolled = c.rolled;
        counted = omega (arith, c.counted);
      }
    ]

accumulate-IsCounted :
    (w : Float) {e n : ℕ} {t : TelemetrySnapshot}
    → IsCounted e n t
    → IsCounted
        ((if is_counted w then watts_of w else 0) + e)
        ((if is_counted w then 1 else 0) + n)
        (accumulate_input_power_sample t w)
unfolding accumulate_input_power_sample
accumulate-IsCounted w {t = t} c = elim (Bool-cases (is_counted w)) [
  | inr r ↦ rw (is_rejected-is_counted w, r) (recount (omega arith) (omega arith) c)
  | inl r ↦
      rw (is_rejected-is_counted w, r, sample_of-watts_of w)
        (step-IsCounted (watts_of w) (limited-bounded (add w (finite false (2 ^ 148)))) c)
]

-- Where the counters stand for an energy and a number of samples, they do so after any further
-- samples: each one that is finite and not negative adds its watts, rounded by the addition of a half
-- and at most 32767, to the energy and one to the number, and any other counts for nothing. The
-- accumulator stays at most 32767, the rollovers are counted modulo 256 and the samples modulo 2^24.
pub accumulate_all-IsCounted :
    (ws : List Float) {e n : ℕ} {t : TelemetrySnapshot}
    → IsCounted e n t
    → IsCounted (energy_of ws + e) (accepted_of ws + n) (accumulate_all t ws)
accumulate_all-IsCounted [] c = recount (omega arith) (omega arith) c
accumulate_all-IsCounted (w ∷ ws) c =
    recount (omega arith) (omega arith) (accumulate_all-IsCounted ws (accumulate-IsCounted w c))
