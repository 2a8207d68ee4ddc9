-- ===== src/Examples/Telemetry.antt =====
-- The derived values at concrete snapshots.
use psu_usb_to_pmbus.Pmbus.Server.Energy.{read_ein_reports}
use psu_usb_to_pmbus.Pmbus.Commands.{code, Command}
use psu_usb_to_pmbus.Telemetry.Power.Output.{
  powered, reported_power, update_derived_output_power_lem,
}
use psu_usb_to_pmbus.Pmbus.Server.{power_on}
use psu_usb_to_pmbus.Pmbus.Server.Read.{read}
use psu_usb_to_pmbus.Pmbus.Server.Nested.{sent}
use psu_usb_to_pmbus.Telemetry.Power.Energy.{
  IsCounted, energy_of, accepted_of, accumulate_all, accumulate_all-IsCounted,
}
use psu_usb_to_pmbus.Telemetry.Snapshot.{TelemetrySnapshot, snapshot_default, rail_default}
use psu_usb_to_pmbus.Base.Int.{pos}
use psu_usb_to_pmbus.Telemetry.Power.{
  update_derived_output_power, sample_of, derive, truncate, clamp,
}
use psu_usb_to_pmbus.Base.{
  refl, true, [], ◌∷◌, List, ℕ, ◌≡◌, arith, false, ◌+◌, map, ◌*◌, ◌^◌, some, ◌%◌,
}
use psu_usb_to_pmbus.Float.{Libm, of_ℕ, nan, finite, Float, add, mul, lt, is_finite}

instance telemetry_libm : Libm
telemetry_libm = record { lround_range = λ x. pos 0 }

start-IsCounted : IsCounted 0 0 snapshot_default
start-IsCounted = record {
  rolls = 0;
  whole = refl;
  fits = omega arith;
  rolled = refl;
  counted = refl;
}

abbrev samples : List Float
samples = of_ℕ 20000 ∷ nan ∷ of_ℕ 20000 ∷ finite true 1 ∷ finite false (3 * 2 ^ 148) ∷ []

sampled_energy : energy_of samples ≡ 40002
unfolding sample_of truncate clamp lt is_finite add
sampled_energy = refl

accumulate_all-IsCounted_example :
    IsCounted
      (energy_of samples + 0)
      (accepted_of samples + 0)
      (accumulate_all snapshot_default samples)
accumulate_all-IsCounted_example = accumulate_all-IsCounted samples start-IsCounted

abbrev rolled_over : TelemetrySnapshot
rolled_over = record snapshot_default {
  input_power_accumulator = 7235;
  input_power_rollover_count = 1;
  input_power_sample_count = 3;
}

rolled_over-IsCounted : IsCounted 40002 3 rolled_over
rolled_over-IsCounted = record {
  rolls = 1;
  whole = refl;
  fits = omega arith;
  rolled = refl;
  counted = refl;
}

read_ein_reports_example :
    (low high rolls n0 n1 n2 : ℕ) × (sent
        (read rolled_over 0 (power_on 0x58) (code Command.read_ein) []).response
      ≡ some (6 ∷ low ∷ high ∷ rolls ∷ n0 ∷ n1 ∷ n2 ∷ []))
    × ((low + 2 ^ 8 * high + 0x7fff * rolls) % (0x7fff * 2 ^ 8) ≡ 40002 % (0x7fff * 2 ^ 8))
    × (n0 + 2 ^ 8 * n1 + 2 ^ 16 * n2 ≡ 3 % 2 ^ 24)
read_ein_reports_example = read_ein_reports (power_on 0x58) 0 rolled_over-IsCounted

abbrev one_rail : TelemetrySnapshot
one_rail = record snapshot_default {
  rails =
      record rail_default { voltage = of_ℕ 12; current = of_ℕ 3; valid = true }
      ∷ record rail_default { voltage = of_ℕ 5; current = of_ℕ 1 }
      ∷ rail_default
      ∷ [];
}

one_rail_power : (update_derived_output_power one_rail).total_output_power ≡ of_ℕ 36
unfolding update_derived_output_power derive add mul
one_rail_power = refl

update_derived_output_power_lem_example :
    let after = update_derived_output_power one_rail in
    (after ≡ record one_rail {
      rails = map powered one_rail.rails;
      total_output_power = reported_power (of_ℕ 0) after.rails;
    })
    × (update_derived_output_power after ≡ after)
update_derived_output_power_lem_example = update_derived_output_power_lem one_rail
