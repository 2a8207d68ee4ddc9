-- ===== src/Telemetry/Power/Output.antt =====
-- The derived output power of src/telemetry/power.cpp.
use psu_usb_to_pmbus.Float.{Float, add, of_ℕ, mul}
use psu_usb_to_pmbus.Telemetry.Snapshot.{RailTelemetry, TelemetrySnapshot}
use psu_usb_to_pmbus.Telemetry.Power.{derive, update_derived_output_power}
use psu_usb_to_pmbus.Base.{refl, [], ◌∷◌, if◌then◌else◌, ◌≡◌, map, Bool-cases, inl, inr}
use psu_usb_to_pmbus.Base.{List}

-- The sum, in the order of the rails, of what the valid ones report.
abbrev pub reported_power : Float → List RailTelemetry → Float
reported_power total [] = total
reported_power total (rail ∷ rest) =
    reported_power (if rail.valid then add total rail.power else total) rest

-- Each rail as it should be: the power of a valid one is its voltage times its current.
abbrev pub powered : RailTelemetry → RailTelemetry
powered rail = if rail.valid then record rail { power = mul rail.voltage rail.current } else rail

derive_lem :
    (rails : List RailTelemetry) (total : Float)
    → derive rails total
      ≡ record { rails = map powered rails; total = reported_power total (map powered rails) }
unfolding derive
derive_lem [] total = refl
derive_lem (rail ∷ rest) total = elim (Bool-cases rail.valid) [
  | inl v ↦ rw (v, derive_lem rest (add total (mul rail.voltage rail.current))) refl
  | inr v ↦ rw (v, derive_lem rest total) refl
]

map-powered_again :
    (rails : List RailTelemetry) → map powered (map powered rails) ≡ map powered rails
map-powered_again [] = refl
map-powered_again (rail ∷ rest) = elim (Bool-cases rail.valid) [
  | inl v ↦ rw (v, map-powered_again rest) refl
  | inr v ↦ rw (v, map-powered_again rest) refl
]

-- After an update each valid rail has the product of its voltage and its current as its power, every
-- other rail is as before, and the total is the sum of what the valid rails now report. Nothing else
-- of the snapshot changes, and a second update changes nothing at all.
pub update_derived_output_power_lem :
    (t : TelemetrySnapshot)
    → let after = update_derived_output_power t in
      (after ≡ record t {
        rails = map powered t.rails;
        total_output_power = reported_power (of_ℕ 0) after.rails;
      })
      × (update_derived_output_power after ≡ after)
unfolding update_derived_output_power
update_derived_output_power_lem t = rw derive_lem (refl, rw (derive_lem, map-powered_again) refl)
