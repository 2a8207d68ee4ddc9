-- ===== src/Pmbus/Server/Energy.antt =====
-- READ_EIN of src/pmbus/server.cpp against the energy counters of src/telemetry/power.cpp.
use psu_usb_to_pmbus.Telemetry.Power.Energy.{IsCounted}
use psu_usb_to_pmbus.Pmbus.Server.{PmbusServer}
use psu_usb_to_pmbus.Float.{Libm}
use psu_usb_to_pmbus.Pmbus.Commands.{of_byte, code, Command}
use psu_usb_to_pmbus.Pmbus.Server.Nested.{sent}
use psu_usb_to_pmbus.Telemetry.Snapshot.{TelemetrySnapshot}
use psu_usb_to_pmbus.Pmbus.Server.Read.{read}
use psu_usb_to_pmbus.Pmbus.Server.OnPage.{put_energy, read_on_page, response_of}
use psu_usb_to_pmbus.Base.{refl, [], ◌∷◌, ◌≡◌, some, ◌%◌, ◌^◌, ℕ, ◌/◌, ◌+◌, ◌*◌, arith}

put_energy-sent :
    (t : TelemetrySnapshot)
    → sent (put_energy t)
      ≡ some (
          6
          ∷ t.input_power_accumulator % 2 ^ 8
          ∷ t.input_power_accumulator / 2 ^ 8 % 2 ^ 8
          ∷ t.input_power_rollover_count
          ∷ t.input_power_sample_count % 2 ^ 8
          ∷ t.input_power_sample_count / 2 ^ 8 % 2 ^ 8
          ∷ t.input_power_sample_count / 2 ^ 16 % 2 ^ 8
          ∷ [])
unfolding put_energy
put_energy-sent t = refl

-- READ_EIN sends a block of six bytes, whether the telemetry is stale or not. Where the counters stand
-- for an energy from a number of samples, the first two bytes with 32767 times the third are the
-- energy, up to a multiple of 256 rollovers, and the other three the number of samples, modulo 2^24.
pub read_ein_reports :
    ⦃libm : Libm⦄ (s : PmbusServer) (now_ms : ℕ) {e n : ℕ} {t : TelemetrySnapshot}
    → IsCounted e n t
    → (low high rolls n0 n1 n2 : ℕ) × (sent (read t now_ms s (code Command.read_ein) []).response
        ≡ some (6 ∷ low ∷ high ∷ rolls ∷ n0 ∷ n1 ∷ n2 ∷ []))
      × ((low + 2 ^ 8 * high + 0x7fff * rolls) % (0x7fff * 2 ^ 8) ≡ e % (0x7fff * 2 ^ 8))
      × (n0 + 2 ^ 8 * n1 + 2 ^ 16 * n2 ≡ n % 2 ^ 24)
unfolding read read_on_page response_of of_byte
read_ein_reports s now_ms {t = t} c = (
  t.input_power_accumulator % 2 ^ 8,
  t.input_power_accumulator / 2 ^ 8 % 2 ^ 8,
  t.input_power_rollover_count,
  t.input_power_sample_count % 2 ^ 8,
  t.input_power_sample_count / 2 ^ 8 % 2 ^ 8,
  t.input_power_sample_count / 2 ^ 16 % 2 ^ 8,
  put_energy-sent t,
  omega (arith, c.whole, c.fits, c.rolled),
  omega (arith, c.counted),
)
