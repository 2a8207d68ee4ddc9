-- ===== src/Telemetry/Snapshot.antt =====
-- include/psu_usb_to_pmbus/telemetry/snapshot.hpp: what the bridge knows of the power supply.
-- An array is a list of its length, a `char` the number of its byte.
use psu_usb_to_pmbus.Base.{ℕ, Bool, false, List, ◌∷◌, replicate}
use psu_usb_to_pmbus.Float.{Float, of_ℕ}

pub record RailTelemetry : Type 0 where
  pub voltage : Float
  pub current : Float
  pub power : Float
  pub ocp_limit : Float
  pub valid : Bool
  pub native_power : Float

-- The initialisers of the members.
abbrev pub rail_default : RailTelemetry
rail_default = record {
  voltage = of_ℕ 0;
  current = of_ℕ 0;
  power = of_ℕ 0;
  ocp_limit = of_ℕ 0;
  valid = false;
  native_power = of_ℕ 0;
}

pub record RegisterProbeTelemetry : Type 0 where
  pub sequence : ℕ
  pub raw : ℕ
  pub address : ℕ
  pub size : ℕ
  pub available : Bool
  pub complete : Bool

-- The initialisers of the members.
abbrev pub probe_default : RegisterProbeTelemetry
probe_default = record {
  sequence = 0;
  raw = 0;
  address = 0;
  size = 0;
  available = false;
  complete = false;
}

pub record TelemetrySnapshot : Type 0 where
  pub generation : ℕ
  pub updated_ms : ℕ
  pub core_updated_ms : ℕ
  pub connected : Bool
  pub core_valid : Bool
  pub input_voltage : Float
  pub input_current : Float
  pub input_power : Float
  pub total_output_power : Float
  pub native_total_output_power : Float
  pub rated_output_power : Float
  pub input_power_accumulator : ℕ
  pub input_power_rollover_count : ℕ
  pub input_power_sample_count : ℕ
  pub temperature_1 : Float
  pub temperature_2 : Float
  pub fan_rpm : Float
  pub uptime_seconds : ℕ
  pub ax_full_link_resets : ℕ
  pub ax_local_resyncs : ℕ
  pub ax_exchange_failures : ℕ
  pub ax_header_ack_mismatches : ℕ
  pub ax_trigger_ack_mismatches : ℕ
  pub ax_empty_reply_retries : ℕ
  pub rails : List RailTelemetry
  pub branches : List RailTelemetry
  pub probe : RegisterProbeTelemetry
  pub manufacturer : List ℕ
  pub model : List ℕ
  pub revision : List ℕ
  pub serial : List ℕ

-- The initialisers of the members.
abbrev pub snapshot_default : TelemetrySnapshot
snapshot_default = record {
  generation = 0;
  updated_ms = 0;
  core_updated_ms = 0;
  connected = false;
  core_valid = false;
  input_voltage = of_ℕ 0;
  input_current = of_ℕ 0;
  input_power = of_ℕ 0;
  total_output_power = of_ℕ 0;
  native_total_output_power = of_ℕ 0;
  rated_output_power = of_ℕ 0;
  input_power_accumulator = 0;
  input_power_rollover_count = 0;
  input_power_sample_count = 0;
  temperature_1 = of_ℕ 0;
  temperature_2 = of_ℕ 0;
  fan_rpm = of_ℕ 0;
  uptime_seconds = 0;
  ax_full_link_resets = 0;
  ax_local_resyncs = 0;
  ax_exchange_failures = 0;
  ax_header_ack_mismatches = 0;
  ax_trigger_ack_mismatches = 0;
  ax_empty_reply_retries = 0;
  rails = replicate 3 rail_default;
  branches = replicate 12 rail_default;
  probe = probe_default;
  manufacturer = b'C' ∷ b'o' ∷ b'r' ∷ b's' ∷ b'a' ∷ b'i' ∷ b'r' ∷ replicate 9 0;
  model = b'A' ∷ b'X' ∷ b'1' ∷ b'6' ∷ b'0' ∷ b'0' ∷ b'i' ∷ replicate 17 0;
  revision = b'U' ∷ b'S' ∷ b'B' ∷ b'-' ∷ b'P' ∷ b'M' ∷ b'B' ∷ b'u' ∷ b's' ∷ replicate 7 0;
  serial = replicate 17 0;
}
