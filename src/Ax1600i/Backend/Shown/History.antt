-- ===== src/Ax1600i/Backend/Shown/History.antt =====
-- What src/psu/corsair_ax1600i/backend.cpp shows over the calls of `task`, and once the supply is gone.
use psu_usb_to_pmbus.Ax1600i.Backend.Shown.Link.{task-IsShown}
use psu_usb_to_pmbus.Telemetry.Snapshot.{TelemetrySnapshot}
use psu_usb_to_pmbus.UsbTransport.{UsbTransport}
use psu_usb_to_pmbus.Ax1600i.Backend.Shown.{IsShown, silent-IsShown, latest}
use psu_usb_to_pmbus.Ax1600i.Backend.History.{run}
use psu_usb_to_pmbus.Base.{[], ◌∷◌, arith, false, ℕ, List, ◌≡◌, Bool, true, ◌∙◌}
use psu_usb_to_pmbus.Ax1600i.Backend.{Backend, backend_initial}
use psu_usb_to_pmbus.Ax1600i.Backend.Task.{task, is_detached}

module _ {T : Type 0} ⦃usb : UsbTransport T⦄ where
  task-detached :
      (now_ms : ℕ) (b : Backend T)
      → usb.connected b.transport ≡ false
      → is_detached (task now_ms b).link_state ≡ true
  unfolding task
  task-detached now_ms b down = ground (arith, down)

module _ {T : Type 0} ⦃usb : UsbTransport T⦄ {stored : TelemetrySnapshot} where
  run-IsShown :
      (calls : List (ℕ × T)) {b : Backend T} → IsShown stored b → IsShown stored (run b calls)
  run-IsShown [] h = h
  run-IsShown ((now_ms, t) ∷ rest) {b} h =
      run-IsShown rest
        (task-IsShown now_ms (silent-IsShown {c = record b { transport = t }} (ground arith) h))

  -- Whatever the transport does, and at whatever times the calls of `task` come, if the store began
  -- with a snapshot that shows no connection and no validity, then after all calls each publication
  -- has the generation after that of the one before, modulo 2^64, the first after that of the
  -- beginning; the store shows the connection, the validity of core values and the generation that
  -- the backend has; it shows a connection if the link is initialized; and it shows neither
  -- connection nor validity if the link is detached.
  pub run-backend_initial-IsShown :
      (t : T) (scan_registers : Bool) (calls : List (ℕ × T))
      → stored.connected ≡ false
      → stored.core_valid ≡ false
      → IsShown stored (run (backend_initial t stored scan_registers) calls)
  run-backend_initial-IsShown t scan_registers calls c v = run-IsShown calls (ground (arith, c, v))

  -- If what the store shows agrees with the backend and its link, as in the result above, and the
  -- transport is not connected, then one call of `task` leaves the link detached, with no connection
  -- and no valid core values in the store, and what the store shows still agrees.
  pub detachment-IsShown :
      (now_ms : ℕ) {b : Backend T}
      → usb.connected b.transport ≡ false
      → IsShown stored b
      → let c = task now_ms b in
        (is_detached c.link_state ≡ true)
        × ((latest stored c.published).connected ≡ false)
        × ((latest stored c.published).core_valid ≡ false)
        × IsShown stored c
  detachment-IsShown now_ms {b} down h =
      let gone = task-detached now_ms b down in
      let shown = task-IsShown now_ms h in
      (
        gone,
        shown.connection ∙ ground (arith, gone, shown.nothing),
        shown.validity ∙ ground (arith, gone, shown.nothing),
        shown,
      )
