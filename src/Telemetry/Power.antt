-- ===== src/Telemetry/Power.antt =====
-- src/telemetry/power.cpp: values that are derived from the measurements. A range-based loop over
-- an array is a recursion that returns the array changed.
pub mod Energy
pub mod Output
use psu_usb_to_pmbus.Base.{
  ==_false, ==_iff, All, Bool, Bool-cases, List, Option, [], add-one, all_below, all_below_sound,
  ap, append-nil, append_assoc, arith, bit_and, bit_or, bit_or_fields, bit_or_step, bit_xor,
  bit_xor-lt, bit_xor_comm, bit_xor_self, bit_xor_step, bit_xor_undo, drop, drop-cons,
  drop-set_self, false, get_or, get_or-append, get_or-append_suc, get_or-set_ne, get_or-set_self,
  if_cases, if_false, if◌then◌else◌, inl, inr, leb, length, length-append, length-drop, length-set,
  length-store, length-take, ltb, ltb→lt, lt→ltb, map, min, none, not, refl, replicate, set,
  set-append, set-set-append, some, store, store_lem, subst, suc, sym, take, take-append,
  take-append_suc, take-set_le, take-take-append, take_snoc, true, zero, ℕ, ℕ_discrete, ◌%◌, ◌&&◌,
  ◌*◌, ◌++◌, ◌+◌, ◌-◌, ◌/◌, ◌<◌, ◌==◌, ◌^◌, ◌||◌, ◌↔◌, ◌∙◌, ◌∷◌, ◌≡◌, ◌≢◌, ◌≤◌, ◌⊎◌,
}
use psu_usb_to_pmbus.Float.{Float, finite, of_ℕ, is_finite, lt, add, mul}
use psu_usb_to_pmbus.Telemetry.Snapshot.{RailTelemetry, TelemetrySnapshot}

abbrev pub read_ein_accumulator_rollover : ℕ
read_ein_accumulator_rollover = 0x7fff

-- `rail.power = rail.voltage * rail.current`.
abbrev pub with_power : RailTelemetry → RailTelemetry
with_power rail = record rail { power = mul rail.voltage rail.current }

pub record Derived : Type 0 where
  pub rails : List RailTelemetry
  pub total : Float

-- The loop over the rails, with the total so far.
unfoldable pub derive : List RailTelemetry → Float → Derived
derive [] total = record { rails = []; total = total }
derive (rail ∷ rest) total =
    let powered = with_power rail in
    let skipped = derive rest total in
    let counted = derive rest (add total powered.power) in
    if not rail.valid
    then record { rails = rail ∷ skipped.rails; total = skipped.total }
    else record { rails = powered ∷ counted.rails; total = counted.total }

unfoldable pub update_derived_output_power : TelemetrySnapshot → TelemetrySnapshot
update_derived_output_power t =
    let derived = derive t.rails (of_ℕ 0) in
    record t { rails = derived.rails; total_output_power = derived.total }

-- `0.5F`.
abbrev half : Float
half = finite false (2 ^ 148)

-- `std::clamp`.
unfoldable pub clamp : Float → Float → Float → Float
clamp x low high = if lt x low then low else if lt high x then high else x

-- The cast to an unsigned integer drops the fraction. A value that is negative or not finite is out
-- of its range; the code clamps first.
unfoldable pub truncate : Float → ℕ
truncate (finite false m) = m / 2 ^ 149
truncate _ = 0

-- The whole watts of a sample, at most the rollover value.
unfoldable pub sample_of : Float → ℕ
sample_of watts = truncate (clamp (add watts half) (of_ℕ 0) (of_ℕ read_ein_accumulator_rollover))

abbrev pub is_rejected : Float → Bool
is_rejected watts = not (is_finite watts) || lt watts (of_ℕ 0)

unfoldable pub accumulate_input_power_sample : TelemetrySnapshot → Float → TelemetrySnapshot
accumulate_input_power_sample t watts =
    let accumulator = t.input_power_accumulator + sample_of watts in
    let samples = (t.input_power_sample_count + 1) % 2 ^ 24 in
    if is_rejected watts
    then t
    else if ltb read_ein_accumulator_rollover accumulator
    then record t {
      input_power_accumulator = (accumulator - read_ein_accumulator_rollover) % 2 ^ 16;
      input_power_rollover_count = (t.input_power_rollover_count + 1) % 2 ^ 8;
      input_power_sample_count = samples;
    }
    else record t {
      input_power_accumulator = accumulator % 2 ^ 16;
      input_power_sample_count = samples;
    }
