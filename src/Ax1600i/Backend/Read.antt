-- ===== src/Ax1600i/Backend/Read.antt =====
-- `Backend::complete_read` of src/psu/corsair_ax1600i/backend.cpp: what a reply changes in the
-- telemetry.
use psu_usb_to_pmbus.Telemetry.Power.{accumulate_input_power_sample, update_derived_output_power}
use psu_usb_to_pmbus.Telemetry.Snapshot.{RailTelemetry, TelemetrySnapshot, rail_default}
use psu_usb_to_pmbus.Float.{Float}
use psu_usb_to_pmbus.Pmbus.Linear.{decode_linear11}
use psu_usb_to_pmbus.Base.{
  Bool, bit_and, bit_or, false, get_or, if◌then◌else◌, leb, length, ltb, min, replicate, set, store,
  take, true, ℕ, ◌%◌, ◌*◌, ◌-◌, ◌==◌, ◌^◌,
}
use psu_usb_to_pmbus.Ax1600i.Backend.{Backend, Destination, complete_probe, publish, next_branch}

abbrev pub is_probe : Destination → Bool
is_probe Destination.probe = true
is_probe _ = false

abbrev pub is_model : Destination → Bool
is_model Destination.model = true
is_model _ = false

abbrev pub is_ocp : Destination → Bool
is_ocp Destination.branch_ocp = true
is_ocp _ = false

-- The core values are valid once all four of them have been read.
abbrev pub is_core : ℕ → Bool
is_core mask = bit_and mask 0x0f == 0x0f

pub record Completed (T : Type 0) : Type 0 where
  pub done : Bool
  pub backend : Backend T

-- Members of the telemetry that a reply may change.
module _ {T : Type 0} where
  abbrev update : (TelemetrySnapshot → TelemetrySnapshot) → Backend T → Backend T
  update f b = record b { working = f b.working }

  abbrev mark : ℕ → Backend T → Backend T
  mark bit b = record b { validity_mask = bit_or b.validity_mask bit }

  abbrev update_rail : (RailTelemetry → RailTelemetry) → Backend T → Backend T
  update_rail f b =
      let rail = get_or b.working.rails b.selected_rail rail_default in
      update (λ w. record w { rails = set w.rails b.selected_rail (f rail) }) b

  abbrev update_branch : (RailTelemetry → RailTelemetry) → Backend T → Backend T
  update_branch f b =
      let branch = get_or b.working.branches b.selected_branch rail_default in
      update (λ w. record w { branches = set w.branches b.selected_branch (f branch) }) b

  abbrev pub pass_branch : Backend T → Backend T
  pass_branch b = record b { selected_branch = next_branch b.selected_branch }

  -- `fill` and `memcpy`.
  unfoldable pub store_model : Backend T → Backend T
  store_model b =
      let size = length b.working.model in
      let copied = take (min b.register_length (size - 1)) b.exchange.response in
      record (update (λ w. record w { model = store 0 copied (replicate size 0) }) b) {
        model_read = true;
      }

  -- The switch on the destination of a value.
  unfoldable pub store_value : Destination → ℕ → Float → Backend T → Backend T
  store_value Destination.vin raw value b =
      mark 0x01 (update (λ w. record w { input_voltage = value }) b)
  store_value Destination.iin raw value b =
      mark 0x02 (update (λ w. record w { input_current = value }) b)
  store_value Destination.pin raw value b =
      update (λ w. accumulate_input_power_sample w value)
        (mark 0x04 (update (λ w. record w { input_power = value }) b))
  store_value Destination.native_total_output_power raw value b =
      update (λ w. record w { native_total_output_power = value }) b
  store_value Destination.rail_voltage raw value b =
      update_rail (λ r. record r { voltage = value }) b
  store_value Destination.rail_current raw value b =
      update_rail (λ r. record r { current = value }) b
  store_value Destination.native_rail_power raw value b =
      let powered : Backend T =
        update update_derived_output_power
          (update_rail (λ r. record r { native_power = value; valid = true }) b) in
      if b.selected_rail == 0 then mark 0x08 powered else powered
  store_value Destination.temperature_1 raw value b =
      update (λ w. record w { temperature_1 = value }) b
  store_value Destination.temperature_2 raw value b =
      update (λ w. record w { temperature_2 = value }) b
  store_value Destination.fan raw value b = update (λ w. record w { fan_rpm = value }) b
  store_value Destination.uptime raw value b = update (λ w. record w { uptime_seconds = raw }) b
  store_value Destination.branch_current raw value b =
      let feed = (get_or b.working.rails 0 rail_default).voltage in
      update_branch (λ r. record r { current = value; voltage = feed }) b
  store_value Destination.branch_power raw value b =
      update_branch (λ r. record r { power = value; valid = true }) b
  store_value Destination.branch_ocp raw value b =
      pass_branch (update_branch (λ r. record r { ocp_limit = value; valid = true }) b)
  store_value _ raw value b = b

  -- The first two bytes of the reply, low byte first.
  abbrev pub reply_word : Backend T → ℕ
  reply_word b =
      bit_or (get_or b.exchange.response 0 0) (get_or b.exchange.response 1 0 * 2 ^ 8) % 2 ^ 16

  unfoldable pub show_read : ℕ → Backend T → Backend T
  show_read now_ms b =
      let core = is_core b.validity_mask in
      let w : TelemetrySnapshot = record (b.working) {
        core_valid = core;
        core_updated_ms = if core then now_ms else b.working.core_updated_ms;
      } in
      publish now_ms (record b { working = w; operation_failure_since_ms = 0 })

  unfoldable pub complete_read : ℕ → Backend T → Completed T
  complete_read now_ms b =
      if is_probe b.destination
      then record {
        done = true;
        backend = record (complete_probe now_ms true b) { operation_failure_since_ms = 0 };
      }
      else if ltb b.exchange.response_size b.register_length
      then record { done = false; backend = if is_ocp b.destination then pass_branch b else b }
      else record {
        done = true;
        backend = show_read now_ms (
            if is_model b.destination
            then store_model b
            else if leb 2 b.register_length
            then store_value b.destination (reply_word b) (decode_linear11 (reply_word b)) b
            else b);
      }
