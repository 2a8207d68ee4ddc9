-- ===== src/Ax1600i/Backend/Schedule.antt =====
-- `Backend::schedule_next` of src/psu/corsair_ax1600i/backend.cpp: which register is next.
use psu_usb_to_pmbus.Base.{
  Bool, List, [], false, get_or, if◌then◌else◌, ltb, not, true, ℕ, ◌%◌, ◌+◌, ◌||◌, ◌∷◌,
}
use psu_usb_to_pmbus.Ax1600i.Backend.{Backend, Operation, Destination}
use psu_usb_to_pmbus.Ax1600i.Backend.Registers.{start_read_register, start_write_register}

-- A case of the switch on `program_step_`.
pub data ProgramStep : Type 0 where
  reads : ℕ → Destination → ProgramStep
  selects_rail : ℕ → ProgramStep
  selects_branch : ProgramStep
  skips : ProgramStep

-- The cases in order. The input values come round several times.
abbrev pub program : List ProgramStep
program =
    reads 0x88 Destination.vin
    ∷ reads 0x89 Destination.iin
    ∷ reads 0x97 Destination.pin
    ∷ reads 0xee Destination.native_total_output_power
    ∷ selects_rail 0
    ∷ reads 0x8b Destination.rail_voltage
    ∷ reads 0x8c Destination.rail_current
    ∷ reads 0x96 Destination.native_rail_power
    ∷ reads 0x88 Destination.vin
    ∷ reads 0x89 Destination.iin
    ∷ reads 0x97 Destination.pin
    ∷ reads 0x8e Destination.temperature_1
    ∷ reads 0x8d Destination.temperature_2
    ∷ reads 0x90 Destination.fan
    ∷ reads 0xd2 Destination.uptime
    ∷ selects_rail 1
    ∷ reads 0x8b Destination.rail_voltage
    ∷ reads 0x8c Destination.rail_current
    ∷ reads 0x96 Destination.native_rail_power
    ∷ reads 0x88 Destination.vin
    ∷ reads 0x89 Destination.iin
    ∷ reads 0x97 Destination.pin
    ∷ selects_rail 2
    ∷ reads 0x8b Destination.rail_voltage
    ∷ reads 0x8c Destination.rail_current
    ∷ reads 0x96 Destination.native_rail_power
    ∷ selects_rail 0
    ∷ selects_branch
    ∷ reads 0xe8 Destination.branch_current
    ∷ reads 0xe9 Destination.branch_power
    ∷ reads 0xea Destination.branch_ocp
    ∷ []

abbrev pub is_busy : Operation → Bool
is_busy Operation.no_operation = false
is_busy _ = true

module _ {T : Type 0} where
  unfoldable pub run_step : ProgramStep → Backend T → Backend T
  run_step (reads reg destination) b = start_read_register reg 2 destination b
  run_step (selects_rail rail) b =
      start_write_register 0x00 rail (record b { selected_rail = rail })
  run_step selects_branch b = start_write_register 0xe7 b.selected_branch b
  run_step skips b = b

  abbrev pub after_step : Backend T → Backend T
  after_step b = record b { program_step = (b.program_step + 1) % 31 }

  unfoldable pub schedule_next : ℕ → Backend T → Backend T
  schedule_next now_ms b =
      if is_busy b.operation || ltb now_ms b.next_action_ms
      then b
      else if not b.model_read
      then start_read_register 0x9a 7 Destination.model b
      else if b.scan_registers
      then if not b.scan_complete
        then start_read_register b.probe_register 2 Destination.probe b
        else b
      else after_step (run_step (get_or program b.program_step skips) b)
