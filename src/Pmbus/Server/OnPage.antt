-- ===== src/Pmbus/Server/OnPage.antt =====
-- `PmbusServer::read_on_page` of src/pmbus/server.cpp: one ordinary read, on a given page.
use psu_usb_to_pmbus.Base.{
  ℕ, ◌/◌, ◌%◌, ◌^◌, Bool, true, ◌==◌, if◌then◌else◌, bit_or, set, get_or, Option, none, some,
}
use psu_usb_to_pmbus.Base.Int.{ℤ, negsuc}
use psu_usb_to_pmbus.Float.{Float, Libm, of_ℕ}
use psu_usb_to_pmbus.Telemetry.Snapshot.{RailTelemetry, TelemetrySnapshot}
use psu_usb_to_pmbus.Pmbus.Linear.{encode_linear11, encode_linear16}
use psu_usb_to_pmbus.Pmbus.Commands.{Command, of_byte}
use psu_usb_to_pmbus.Pmbus.Server.{
  PmbusServer, ReadResult, no_response, put_byte, put_word, put_block, rail_for_page, clear_cml,
  status_off, status_cml,
}

-- A reply together with the target after it.
pub record Reply : Type 0 where
  pub server : PmbusServer
  pub response : ReadResult

abbrev pub vout_exponent : ℤ
vout_exponent = negsuc 11

abbrev pub status_of : ℕ → Bool → ℕ
status_of cml stale = bit_or (if cml == 0 then 0 else status_cml) (if stale then status_off else 0)

-- Live values read as zero once they are stale.
abbrev pub live : Bool → Float → Float
live stale x = if stale then of_ℕ 0 else x

abbrev pub rail_value : Option RailTelemetry → (RailTelemetry → Float) → Float
rail_value none f = of_ℕ 0
rail_value (some rail) f = f rail

unfoldable pub put_energy : TelemetrySnapshot → ReadResult
put_energy t =
    let b0 = set no_response.bytes 0 6 in
    let b1 = set b0 1 (t.input_power_accumulator % 2 ^ 8) in
    let b2 = set b1 2 (t.input_power_accumulator / 2 ^ 8 % 2 ^ 8) in
    let b3 = set b2 3 t.input_power_rollover_count in
    let b4 = set b3 4 (t.input_power_sample_count % 2 ^ 8) in
    let b5 = set b4 5 (t.input_power_sample_count / 2 ^ 8 % 2 ^ 8) in
    let b6 = set b5 6 (t.input_power_sample_count / 2 ^ 16 % 2 ^ 8) in
    record { bytes = b6; size = 7; supported = true }

unfoldable pub put_coefficients : ReadResult
put_coefficients = record { bytes = set no_response.bytes 0 1; size = 5; supported = true }

module _ ⦃libm : Libm⦄ (t : TelemetrySnapshot) (stale : Bool) (s : PmbusServer) (p : ℕ) where
  -- The value that a command answers with; the command and the status latch decide the rest.
  unfoldable pub response_of : Command → ReadResult
  unfolding put_byte put_word put_block put_energy put_coefficients rail_for_page
  response_of Command.page = put_byte p
  response_of Command.capability = put_byte 0x80
  response_of Command.vout_mode = put_byte (244 % 2 ^ 5)
  response_of Command.pmbus_revision = put_byte 0x22
  response_of Command.app_profile_support = put_byte 0x04
  response_of Command.fan_config12 = put_byte 0x80
  response_of Command.status_byte = put_byte (status_of s.pending_cml stale % 2 ^ 8)
  response_of Command.status_word = put_word (status_of s.pending_cml stale)
  response_of Command.status_input = put_byte 0
  response_of Command.status_cml = put_byte s.pending_cml
  response_of Command.status_iout = put_byte 0
  response_of Command.status_temperature = put_byte 0
  response_of Command.status_fans12 = put_byte 0
  response_of Command.read_vin = put_word (encode_linear11 (live stale t.input_voltage))
  response_of Command.read_iin = put_word (encode_linear11 (live stale t.input_current))
  response_of Command.read_pin = put_word (encode_linear11 (live stale t.input_power))
  response_of Command.read_vout =
      put_word
        (encode_linear16 (live stale (rail_value (rail_for_page t p) λ r. r.voltage)) vout_exponent)
  response_of Command.read_iout =
      put_word (encode_linear11 (live stale (rail_value (rail_for_page t p) λ r. r.current)))
  response_of Command.read_pout =
      put_word (encode_linear11 (live stale (rail_value (rail_for_page t p) λ r. r.power)))
  response_of Command.read_temperature1 = put_word (encode_linear11 (live stale t.temperature_1))
  response_of Command.read_temperature2 = put_word (encode_linear11 (live stale t.temperature_2))
  response_of Command.read_fan_speed1 = put_word (encode_linear11 (live stale t.fan_rpm))
  response_of Command.read_ein = put_energy t
  response_of Command.mfr_id = put_block t.manufacturer
  response_of Command.mfr_model = put_block t.model
  response_of Command.mfr_revision = put_block t.revision
  response_of Command.mfr_serial = put_block t.serial
  response_of Command.mfr_iout_max =
      put_word (encode_linear11 (rail_value (rail_for_page t p) λ r. r.ocp_limit))
  response_of Command.mfr_pout_max = put_word (encode_linear11 t.rated_output_power)
  response_of Command.mfr_branch_ocp =
      put_word (encode_linear11 (rail_value (rail_for_page t p) λ r. r.ocp_limit))
  response_of Command.mfr_max_temp1 = put_word (encode_linear11 (of_ℕ 105))
  response_of Command.mfr_max_temp2 = put_word (encode_linear11 (of_ℕ 105))
  response_of Command.mfr_uptime = put_word (t.uptime_seconds % 2 ^ 16)
  response_of Command.mfr_bridge_status =
      put_byte (if t.connected then (if stale then 1 else 0) else 2)
  response_of Command.smalert_mask = put_byte (get_or s.smalert_masks 0 0)
  response_of Command.coefficients = put_coefficients
  response_of _ = no_response

-- The three status reads that hand over the pending communication fault also clear it.
unfoldable pub after_read : Command → PmbusServer → PmbusServer
after_read Command.status_byte s = clear_cml s
after_read Command.status_word s = clear_cml s
after_read Command.status_cml s = clear_cml s
after_read _ s = s

unfoldable pub read_on_page : ⦃libm : Libm⦄ → PmbusServer → ℕ → ℕ → TelemetrySnapshot → Bool → Reply
read_on_page s p command t stale = record {
  server = after_read (of_byte command) s;
  response = response_of t stale s p (of_byte command);
}
