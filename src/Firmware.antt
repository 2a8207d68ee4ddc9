-- ===== src/Firmware.antt =====
-- src/main.cpp: the core of the USB side, `usb_core`, from the snapshot that `main` publishes before
-- it starts that core. What `tuh_task_ext` does is a list of events: the calls of the class driver, and
-- what the host stack does with itself.
pub mod Reading
pub mod Cores
use psu_usb_to_pmbus.Ax1600i.Backend.Invariant.Link.{task-IsValid}
use psu_usb_to_pmbus.Ax1600i.Backend.Shown.Link.{task-IsShown}
use psu_usb_to_pmbus.Ax1600i.Backend.Shown.{IsShown, silent-IsShown}
use psu_usb_to_pmbus.Ax1600i.Backend.Invariant.{IsValid}
use psu_usb_to_pmbus.Ax1600i.Backend.Task.{task}
use psu_usb_to_pmbus.Telemetry.Snapshot.{TelemetrySnapshot, snapshot_default}
use psu_usb_to_pmbus.Base.{refl, [], ◌∷◌, some, none, arith, List, Bool, ℕ, store}
use psu_usb_to_pmbus.Rp2040.UsbHostTransport.{
  UsbHost, UsbHostTransport, transport_default, note_host_init, driver_init, driver_deinit,
  driver_close, note_mount, note_unmount,
}
use psu_usb_to_pmbus.Rp2040.UsbHostTransport.Open.{driver_open}
use psu_usb_to_pmbus.Rp2040.UsbHostTransport.Transfers.{
  host_usb_transport, on_host, driver_set_config, driver_transfer, control_complete,
}
use psu_usb_to_pmbus.Ax1600i.Backend.{Backend, backend_initial}
use psu_usb_to_pmbus.Ax1600i.Exchange.Invariant.{exchange_default-IsSized}

pub data HostEvent (H : Type 0) : Type 0 where
  progresses : H → HostEvent H
  begins : HostEvent H
  ends : HostEvent H
  opens : ℕ → List ℕ → ℕ → HostEvent H
  configures : ℕ → ℕ → HostEvent H
  transfers : ℕ → ℕ → ℕ → ℕ → List ℕ → HostEvent H
  controls : ℕ → ℕ → HostEvent H
  closes : ℕ → HostEvent H
  mounts : ℕ → HostEvent H
  unmounts : ℕ → HostEvent H

-- The snapshot that `main` publishes: the first one, with the board's number.
abbrev pub initial_snapshot : List ℕ → TelemetrySnapshot
initial_snapshot board_id = record snapshot_default {
  serial = store 0 board_id snapshot_default.serial;
}

module _ {H : Type 0} ⦃usb_host : UsbHost H⦄ where
  abbrev pub handle : HostEvent H → UsbHostTransport H → UsbHostTransport H
  handle (HostEvent.progresses host) t = on_host host t
  handle HostEvent.begins t = driver_init t
  handle HostEvent.ends t = driver_deinit t
  handle (HostEvent.opens dev_addr bytes max_len) t = elim (driver_open dev_addr bytes max_len t) [
    | none ↦ t
    | some opened ↦ opened.transport
  ]
  handle (HostEvent.configures dev_addr number) t = (driver_set_config dev_addr number t).transport
  handle (HostEvent.transfers dev_addr endpoint result transferred bytes) t =
      (driver_transfer dev_addr endpoint result transferred bytes t).transport
  handle (HostEvent.controls result actual_len) t = control_complete result actual_len t
  handle (HostEvent.closes dev_addr) t = driver_close dev_addr t
  handle (HostEvent.mounts dev_addr) t = note_mount dev_addr t
  handle (HostEvent.unmounts dev_addr) t = note_unmount dev_addr t

  abbrev pub handle_all : List (HostEvent H) → UsbHostTransport H → UsbHostTransport H
  handle_all [] t = t
  handle_all (event ∷ events) t = handle_all events (handle event t)

  -- A round of the loop: the events of `tuh_task_ext`, and `task` at its time.
  abbrev pub turn :
      ℕ × List (HostEvent H) → Backend (UsbHostTransport H) → Backend (UsbHostTransport H)
  turn (now_ms, events) b = task now_ms (record b { transport = handle_all events b.transport })

  abbrev pub turns :
      List (ℕ × List (HostEvent H)) → Backend (UsbHostTransport H) → Backend (UsbHostTransport H)
  turns [] b = b
  turns (round ∷ rounds) b = turns rounds (turn round b)

  -- The backend on the one transport, from the snapshot that `main` has published.
  abbrev pub usb_core :
      H → Bool → Bool → Bool → List ℕ → List (ℕ × List (HostEvent H)) → Backend (UsbHostTransport H)
  usb_core host configured initialized scan_registers board_id rounds = turns rounds (
      backend_initial (note_host_init configured initialized (transport_default host))
        (initial_snapshot board_id) scan_registers)

  pub turns-IsValid :
      (rounds : List (ℕ × List (HostEvent H))) {b : Backend (UsbHostTransport H)}
      → IsValid b
      → IsValid (turns rounds b)
  turns-IsValid [] v = v
  turns-IsValid ((now_ms, events) ∷ rounds) {b} v =
      let handed : IsValid (record b { transport = handle_all events b.transport }) = record {
        bounded = ground (arith, v.bounded);
        phased = v.phased;
      } in
      turns-IsValid rounds (task-IsValid now_ms handed)

  pub turns-IsShown :
      {stored : TelemetrySnapshot} (rounds : List (ℕ × List (HostEvent H)))
      {b : Backend (UsbHostTransport H)}
      → IsShown stored b
      → IsShown stored (turns rounds b)
  turns-IsShown [] h = h
  turns-IsShown ((now_ms, events) ∷ rounds) {b} h =
      let t = handle_all events b.transport in
      turns-IsShown rounds
        (task-IsShown now_ms (silent-IsShown {c = record b { transport = t }} (ground arith) h))

  -- The backend on the transport of this board, from the start of the firmware, whatever the USB
  -- host stack does, reports to the driver and answers, and at whatever times the rounds of the loop
  -- come: its state is in order after each round, and what the store shows agrees with the link.
  usb_core-IsValid :
      (host : H) (configured initialized scan_registers : Bool) (board_id : List ℕ)
      (rounds : List (ℕ × List (HostEvent H)))
      → let b = usb_core host configured initialized scan_registers board_id rounds in
        IsValid b × IsShown (initial_snapshot board_id) b
  usb_core-IsValid host configured initialized scan_registers board_id rounds = (
    turns-IsValid rounds record {
      bounded = ground (arith, exchange_default-IsSized);
      phased = (omega arith, refl, refl);
    },
    turns-IsShown rounds (ground arith),
  )
