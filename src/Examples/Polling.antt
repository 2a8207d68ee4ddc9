-- ===== src/Examples/Polling.antt =====
-- Calls of the backend's `task` on the transport of Examples/Supply.antt, a reply in two pieces, and
-- rounds of the USB core.
use psu_usb_to_pmbus.Ax1600i.Protocol.Encode.{symbols, header}
use psu_usb_to_pmbus.Ax1600i.Exchange.Arrival.{Arrives, collect_pieces-Arrives}
use psu_usb_to_pmbus.Ax1600i.Backend.Shown.History.{run-backend_initial-IsShown, detachment-IsShown}
use psu_usb_to_pmbus.Ax1600i.Backend.Task.{task, is_detached}
use psu_usb_to_pmbus.Ax1600i.Backend.Shown.{IsShown, latest}
use psu_usb_to_pmbus.Base.Int.{pos}
use psu_usb_to_pmbus.Ax1600i.Backend.History.{run, run-backend_initial-IsValid}
use psu_usb_to_pmbus.Ax1600i.Backend.Invariant.{IsValid}
use psu_usb_to_pmbus.Ax1600i.Backend.Progress.Calls.{Ends, operation-Ends}
use psu_usb_to_pmbus.Ax1600i.Backend.Program.{Asks, schedule_next-Asks}
use psu_usb_to_pmbus.Telemetry.Snapshot.{snapshot_default, TelemetrySnapshot}
use psu_usb_to_pmbus.Float.{Libm}
use psu_usb_to_pmbus.Firmware.Cores.{
  Cores, CoreStep, core_steps, cores_started, shown_snapshot, IsSound,
  core_steps-cores_started-IsSound,
}
use psu_usb_to_pmbus.Rp2040.I2cTarget.{received_bytes, request, finish}
use psu_usb_to_pmbus.Pmbus.Commands.{Command, code}
use psu_usb_to_pmbus.Pmbus.Server.{put_byte}
use psu_usb_to_pmbus.Pmbus.Server.Read.{read, is_stale}
use psu_usb_to_pmbus.Firmware.{HostEvent}
use psu_usb_to_pmbus.Base.{
  refl, [], ◌∷◌, inl, inr, arith, true, false, List, ℕ, ◌≡◌, ◌++◌, if◌then◌else◌,
}
use psu_usb_to_pmbus.Rp2040.UsbHostTransport.{UsbHostTransport}
use psu_usb_to_pmbus.Ax1600i.Backend.{Backend, LinkState, Operation, Destination, backend_initial}
use psu_usb_to_pmbus.Ax1600i.Backend.Schedule.{schedule_next, ProgramStep}
use psu_usb_to_pmbus.Ax1600i.Exchange.{ExchangeState, exchange_default}
use psu_usb_to_pmbus.Ax1600i.Exchange.Invariant.{exchange_default-IsSized}
use psu_usb_to_pmbus.Rp2040.UsbHostTransport.Transfers.{host_usb_transport}
use psu_usb_to_pmbus.Examples.Supply.{plugged, bench_host}

instance polling_libm : Libm
polling_libm = record { lround_range = λ x. pos 0 }

abbrev Supply : Type 0
Supply = UsbHostTransport Unit

abbrev detached : Supply
detached = record plugged { configured = false }

abbrev fresh_backend : Backend Supply
fresh_backend = backend_initial detached snapshot_default false

-- An initialized link whose walk is at the first step of rail 1.
abbrev polling : Backend Supply
polling = record fresh_backend {
  transport = plugged;
  link_state = LinkState.ready;
  program_step = 16;
  selected_rail = 1;
  model_read = true;
}

polling-IsValid : IsValid polling
polling-IsValid = record {
  bounded = ground (arith, exchange_default-IsSized);
  phased = (refl, refl);
}

-- The same with a read under way.
abbrev reading : Backend Supply
reading = record polling {
  operation = Operation.read_register;
  destination = Destination.rail_voltage;
  register_length = 2;
  exchange = record (polling.exchange) { state = ExchangeState.wait_read; deadline_ms = 500 };
}

reading-IsValid : IsValid reading
reading-IsValid = record {
  bounded = ground (arith, exchange_default-IsSized);
  phased = (refl, refl);
}

abbrev attachment : List (ℕ × Supply)
attachment = (0, detached) ∷ (5, plugged) ∷ (6, plugged) ∷ (900, plugged) ∷ (901, detached) ∷ []

run-backend_initial-IsValid_example : IsValid (run fresh_backend attachment)
run-backend_initial-IsValid_example =
    run-backend_initial-IsValid detached snapshot_default false attachment (omega arith)
      (omega arith) (omega arith) refl

abbrev silence : List (ℕ × Supply)
silence = (100, plugged) ∷ (400, plugged) ∷ (6100, plugged) ∷ []

operation-Ends_example : Ends reading silence
operation-Ends_example =
    operation-Ends silence reading-IsValid refl (refl, (refl, (refl, tt)))
      (inr (inr (inl (omega arith))))

schedule_next-Asks_example :
    Asks
      (ProgramStep.reads 0x8b Destination.rail_voltage)
      (record polling { program_step = 16 })
      (schedule_next 7 polling)
schedule_next-Asks_example = schedule_next-Asks 7 polling-IsValid refl refl (omega arith) refl refl

run-backend_initial-IsShown_example : IsShown snapshot_default (run fresh_backend attachment)
run-backend_initial-IsShown_example =
    run-backend_initial-IsShown detached false attachment refl refl

-- The polling backend has shown its connection.
abbrev announced : Backend Supply
announced =
    let seen : TelemetrySnapshot = record snapshot_default {
      connected = true;
      core_valid = true;
      generation = 1;
    } in
    record polling { transport = detached; working = seen; published = seen ∷ [] }

detachment-IsShown_example :
    let c = task 30 announced in
    (is_detached c.link_state ≡ true)
    × ((latest snapshot_default c.published).connected ≡ false)
    × ((latest snapshot_default c.published).core_valid ≡ false)
    × IsShown snapshot_default c
detachment-IsShown_example = detachment-IsShown 30 {b = announced} refl (ground arith)

-- The frame of a reply, its header first.
abbrev pieces : List (List ℕ)
pieces = (header 7 ∷ []) ∷ []

abbrev end_piece : List ℕ
end_piece = symbols (5 ∷ 9 ∷ []) ++ 0 ∷ []

collect_pieces-Arrives_example : Arrives (5 ∷ 9 ∷ []) pieces end_piece exchange_default
collect_pieces-Arrives_example =
    collect_pieces-Arrives (5 ∷ 9 ∷ []) pieces end_piece exchange_default-IsSized refl refl
      (omega arith, (omega arith, tt)) (omega arith) (omega arith, tt) (omega arith)

-- The supply is opened and configured, and taken away again, with a read of MFR_BRIDGE_STATUS and a
-- write between the rounds.
abbrev both_cores : List (CoreStep Unit)
both_cores =
    CoreStep.usb_round 1 (HostEvent.begins ∷ [])
    ∷ CoreStep.interrupts 12 (received_bytes (code Command.mfr_bridge_status ∷ []))
    ∷ CoreStep.usb_round 20 (HostEvent.opens 1 [] 0 ∷ HostEvent.configures 0 0 ∷ [])
    ∷ CoreStep.interrupts 21 request
    ∷ CoreStep.interrupts 22 finish
    ∷ CoreStep.interrupts 23 (received_bytes (0 ∷ 1 ∷ []))
    ∷ CoreStep.interrupts 24 finish
    ∷ CoreStep.decides 30
    ∷ CoreStep.usb_round 30 (HostEvent.controls 0 0 ∷ [])
    ∷ CoreStep.enters_section
    ∷ CoreStep.usb_round 40 (HostEvent.closes 0 ∷ [])
    ∷ []

abbrev board_id : List ℕ
board_id = 0x45 ∷ 0x36 ∷ []

abbrev cores_after : Cores Unit
cores_after = core_steps board_id both_cores (cores_started board_id tt true true false 0x58)

core_steps-cores_started-IsSound_example :
    IsSound board_id cores_after
    × (read
          (shown_snapshot board_id cores_after)
          40
          cores_after.target.server
          (code Command.mfr_bridge_status)
          []
        ≡ record {
          server = cores_after.target.server;
          response = put_byte (
              if cores_after.backend.working.connected
              then (if is_stale (shown_snapshot board_id cores_after) 40 then 1 else 0)
              else 2);
        })
core_steps-cores_started-IsSound_example =
    core_steps-cores_started-IsSound board_id tt true true false 0x58 40 both_cores
