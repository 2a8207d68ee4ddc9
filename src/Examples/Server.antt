-- ===== src/Examples/Server.antt =====
-- The PMBus target at concrete states: a supply with one rail, and a target with a fault pending.
use Prim.Native.Nat.{max}
use psu_usb_to_pmbus.Pmbus.Server.Masks.{mask_round_trip}
use psu_usb_to_pmbus.Pmbus.Server.Nested.{sent, block, read_page_plus_frames}
use psu_usb_to_pmbus.Pmbus.Server.History.{Call, run, run-power_on-IsValid}
use psu_usb_to_pmbus.Pmbus.Server.Write.{write, write_local, write_payload_is_well_formed, accept}
use psu_usb_to_pmbus.Pmbus.Server.Bounds.{Fits, read-Fits}
use psu_usb_to_pmbus.Pmbus.Server.Invariant.{IsValid}
use psu_usb_to_pmbus.Pmbus.Server.Query.{digit, writable_iff, read_query_reports}
use psu_usb_to_pmbus.Pmbus.Server.Stale.{read_live}
use psu_usb_to_pmbus.Pmbus.Server.Faults.{
  Effect, write-Effect, write-well_formed, read_status_reports,
}
use psu_usb_to_pmbus.Pmbus.Commands.{of_byte, code, Command, is_valid_page}
use psu_usb_to_pmbus.Pmbus.Linear.{encode_linear11, encode_linear16}
use psu_usb_to_pmbus.Pmbus.Server.OnPage.{read_on_page, response_of}
use psu_usb_to_pmbus.Telemetry.Snapshot.{TelemetrySnapshot, snapshot_default, rail_default}
use psu_usb_to_pmbus.Pmbus.Server.{
  PmbusServer, power_on, put_word, query_is_locally_writable, accepted, smalert_mask_index,
  clear_cml, put_byte,
}
use psu_usb_to_pmbus.Pmbus.Server.Read.{read, is_stale, plain_byte, counted_byte}
use psu_usb_to_pmbus.Base.Int.{pos, negsuc}
use psu_usb_to_pmbus.Base.{
  List, [], arith, if◌then◌else◌, leb, not, refl, set, true, ℕ, ◌%◌, ◌&&◌, ◌*◌, ◌+◌, ◌/◌, ◌==◌, ◌^◌,
  ◌||◌, ◌↔◌, ◌∷◌, ◌≡◌, ◌<◌,
}
use psu_usb_to_pmbus.Float.{Libm, of_ℕ}

instance example_libm : Libm
example_libm = record { lround_range = λ x. pos 0 }

abbrev telemetry : TelemetrySnapshot
telemetry = record snapshot_default {
  connected = true;
  core_updated_ms = 50000;
  input_voltage = of_ℕ 230;
  rails =
      record rail_default { voltage = of_ℕ 12; valid = true } ∷ rail_default ∷ rail_default ∷ [];
}

abbrev faulty : PmbusServer
faulty = record (power_on 0x58) { page = 1; pending_cml = 0x40 }

input_voltage_word :
    (read telemetry 55000 faulty (code Command.read_vin) []).response ≡ put_word 0xf398
unfolding read read_on_page response_of encode_linear11 of_byte
input_voltage_word = refl

-- A read of the voltage on page 0, nested and after a selection of the page.
read_page_plus_frames_example :
    let selected = (write faulty (code Command.page) (0 ∷ [])).server in
    let direct = read telemetry 55000 selected (code Command.read_vout) [] in
    let nested =
      read telemetry 55000 faulty
        (code Command.page_plus_read)
        (2 ∷ 0 ∷ code Command.read_vout ∷ []) in
    (sent nested.response ≡ block (sent direct.response))
    × (nested.server ≡ record (direct.server) { page = faulty.page })
unfolding is_valid_page
read_page_plus_frames_example =
    read_page_plus_frames telemetry 55000 faulty 0 (code Command.read_vout) refl (omega arith)
      (omega arith)

write-Effect_example :
    Effect
      (write faulty (code Command.page) (0x55 ∷ [])).result
      faulty
      (write faulty (code Command.page) (0x55 ∷ [])).server
write-Effect_example = write-Effect faulty (code Command.page) (0x55 ∷ [])

write-well_formed_example :
    write_payload_is_well_formed
      (code Command.page_plus_write)
      (3 ∷ 0 ∷ code Command.status_iout ∷ 0xff ∷ [])
    ≡ true
unfolding write write_local is_valid_page of_byte
write-well_formed_example =
    write-well_formed faulty (code Command.page_plus_write)
      (3 ∷ 0 ∷ code Command.status_iout ∷ 0xff ∷ []) refl

read_status_reports_example :
    let word = read telemetry 55000 faulty (code Command.status_word) [] in
    let byte = read telemetry 55000 faulty (code Command.status_byte) [] in
    let cml = read telemetry 55000 faulty (code Command.status_cml) [] in
    let bits = 2 * digit (not (0x40 == 0)) + 64 * digit (is_stale telemetry 55000) in
    (word ≡ record { server = clear_cml faulty; response = put_word bits })
    × (byte ≡ record { server = clear_cml faulty; response = put_byte bits })
    × (cml ≡ record { server = clear_cml faulty; response = put_byte 0x40 })
    × (read telemetry 55000 (clear_cml faulty) (code Command.status_cml) []
        ≡ record { server = clear_cml faulty; response = put_byte 0 })
read_status_reports_example = read_status_reports telemetry 55000 faulty

-- A bad page, a write of the alert mask, a read of a status that clears the fault, and a bad code.
abbrev history : List Call
history =
    Call.writes (code Command.page) (0x55 ∷ [])
    ∷ Call.writes (code Command.smalert_mask) (0x81 ∷ 0 ∷ [])
    ∷ Call.reads telemetry 55000 (code Command.status_word) []
    ∷ Call.bad_pec
    ∷ []

run-power_on-IsValid_example : IsValid (run (power_on 0x58) history)
run-power_on-IsValid_example = run-power_on-IsValid 0x58 history

read-Fits_example :
    Fits 34
      (read telemetry 55000 faulty
        (code Command.page_plus_read)
        (2 ∷ 0 ∷ code Command.mfr_model ∷ [])).response
read-Fits_example =
    read-Fits telemetry 55000 faulty (code Command.page_plus_read)
      (2 ∷ 0 ∷ code Command.mfr_model ∷ [])

read_query_reports_example :
    let c = code Command.page in
    let supported = (read telemetry 55000 faulty c []).response.supported in
    (b : ℕ) × (read telemetry 55000 faulty (code Command.query) (c ∷ [])
      ≡ record { server = faulty; response = plain_byte b })
    × (read telemetry 55000 faulty (code Command.query) (1 ∷ c ∷ [])
        ≡ record { server = faulty; response = counted_byte b })
    × (b / 2 ^ 5 % 2 ≡ digit (supported || (c == 0x1a || c == 0x06)))
    × ((b / 2 ^ 6 % 2 ≡ 1)
        ↔ ((c < 0xc4) × ((payload : List ℕ) × ((write faulty c payload).result ≡ accepted))))
    × (b / 2 ^ 7 ≡ max (b / 2 ^ 6 % 2) (b / 2 ^ 5 % 2))
read_query_reports_example = read_query_reports telemetry 55000 faulty (code Command.page) refl

writable_iff_example :
    (query_is_locally_writable (code Command.status_iout) ≡ true)
    ↔ ((payload : List ℕ) × ((write faulty (code Command.status_iout) payload).result ≡ accepted))
writable_iff_example = writable_iff faulty (code Command.status_iout) refl (omega arith)

-- The voltage of rail 0, and nothing once it is older than ten seconds.
read_live_example : read telemetry 60000 (power_on 0x58) (code Command.read_vout) [] ≡ record {
  server = power_on 0x58;
  response =
      if leb 50000 60000 && leb 60000 (50000 + 10000)
      then put_word (encode_linear16 (of_ℕ 12) (negsuc 11))
      else put_word 0;
}
read_live_example = read_live telemetry 60000 (power_on 0x58) Command.read_vout refl

mask_round_trip_example :
    let w = write faulty (code Command.smalert_mask) (0x81 ∷ 0x12 ∷ []) in
    let masks = set faulty.smalert_masks (smalert_mask_index 0x81) 0x12 in
    (w ≡ accept (record faulty { smalert_masks = masks }))
    × (read telemetry 55000 w.server (code Command.smalert_mask) (1 ∷ 0x81 ∷ [])
        ≡ record { server = w.server; response = counted_byte 0x12 })
    × ((read telemetry 55000 w.server (code Command.smalert_mask) (1 ∷ 0x78 ∷ [])).response
        ≡ (read telemetry 55000 faulty (code Command.smalert_mask) (1 ∷ 0x78 ∷ [])).response)
mask_round_trip_example =
    mask_round_trip telemetry 55000 faulty 0x81 0x78 0x12 refl (omega arith) (omega arith)
      (omega arith)
