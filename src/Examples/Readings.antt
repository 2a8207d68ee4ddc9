-- ===== src/Examples/Readings.antt =====
-- An input voltage of 230 volts, from the reply of the supply to the bus.
use psu_usb_to_pmbus.Base.{[], arith, false, refl, true, ℕ, ◌<◌, ◌^◌, ◌∷◌, ◌≡◌}
use psu_usb_to_pmbus.Ax1600i.Backend.{
  Backend, Destination, Operation, LinkState, backend_initial, publish,
}
use psu_usb_to_pmbus.Ax1600i.Exchange.{exchange_default}
use psu_usb_to_pmbus.Ax1600i.Backend.Read.{complete_read, store_value, show_read}
use psu_usb_to_pmbus.Telemetry.Snapshot.{TelemetrySnapshot, snapshot_default}
use psu_usb_to_pmbus.Firmware.Reading.{reading-decode_linear11, input_voltage}
use psu_usb_to_pmbus.Pmbus.Commands.{Command, code}
use psu_usb_to_pmbus.Pmbus.Linear.{decode_linear11}
use psu_usb_to_pmbus.Pmbus.Server.{power_on, put_word}
use psu_usb_to_pmbus.Pmbus.Server.Read.{read}
use psu_usb_to_pmbus.Base.Int.{pos}
use psu_usb_to_pmbus.Float.{Libm}

instance readings_libm : Libm
readings_libm = record { lround_range = λ x. pos 0 }

abbrev answered_supply : Backend ℕ
answered_supply = record (backend_initial 0 snapshot_default false) {
  link_state = LinkState.ready;
  operation = Operation.read_register;
  destination = Destination.vin;
  register_length = 2;
  validity_mask = 0x0e;
  exchange = record exchange_default { response = 0xe6 ∷ 0x00 ∷ []; response_size = 2 };
}

answered_supply_core : (complete_read 1000 answered_supply).backend.working.core_valid ≡ true
unfolding complete_read show_read store_value publish
answered_supply_core = refl

reading-decode_linear11_example :
    (t : TelemetrySnapshot) × (word : ℕ) × ((complete_read 1000 answered_supply).backend.published
      ≡ t ∷ [])
    × (read t 4000 (power_on 0x58) (code Command.read_vin) []
        ≡ record { server = power_on 0x58; response = put_word word })
    × (word < 2 ^ 16)
    × (decode_linear11 word ≡ decode_linear11 0x00e6)
reading-decode_linear11_example =
    reading-decode_linear11 Destination.vin Command.read_vin 1000 4000 answered_supply
      (power_on 0x58) input_voltage refl (omega arith) (omega arith) answered_supply_core
      (omega arith) (omega arith)
