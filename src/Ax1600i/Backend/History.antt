-- ===== src/Ax1600i/Backend/History.antt =====
-- Histories of src/psu/corsair_ax1600i/backend.cpp: the calls of `task` by the main loop.
use psu_usb_to_pmbus.Ax1600i.Backend.Invariant.Link.{task-IsValid}
use psu_usb_to_pmbus.Telemetry.Snapshot.{TelemetrySnapshot}
use psu_usb_to_pmbus.Ax1600i.Exchange.Invariant.{exchange_default-IsSized}
use psu_usb_to_pmbus.Ax1600i.Backend.Task.{task}
use psu_usb_to_pmbus.Ax1600i.Backend.Invariant.{IsValid}
use psu_usb_to_pmbus.Base.{[], ◌∷◌, List, refl, ℕ, arith, ◌≡◌, false, Bool, List, length}
use psu_usb_to_pmbus.UsbTransport.{UsbTransport}
use psu_usb_to_pmbus.Ax1600i.Backend.{Backend, backend_initial}

module _ {T : Type 0} ⦃usb : UsbTransport T⦄ where
  -- Calls of `task`, each at a time and with the transport that it finds then.
  abbrev pub run : Backend T → List (ℕ × T) → Backend T
  run b [] = b
  run b ((now_ms, t) ∷ rest) = run (task now_ms (record b { transport = t })) rest

  run-IsValid : (calls : List (ℕ × T)) {b : Backend T} → IsValid b → IsValid (run b calls)
  run-IsValid [] v = v
  run-IsValid ((now_ms, t) ∷ rest) {b} v =
      let handed : IsValid (record b { transport = t }) = record {
        bounded = ground (arith, v.bounded);
        phased = v.phased;
      } in
      run-IsValid rest (task-IsValid now_ms handed)

  -- Whatever the transport does between and during the calls of `task`, and at whatever times these
  -- come, each state of the backend is in order if it began with a snapshot whose arrays have their
  -- lengths and whose core values are not valid: all indices and sizes are within their arrays; the
  -- rail that values are stored for is the one that the walk has selected; the core values are
  -- called valid exactly if the mask has the bits of all four; an operation is under way only on
  -- an initialized link, and then always with an exchange that is in flight.
  pub run-backend_initial-IsValid :
      (t : T) (stored : TelemetrySnapshot) (scan_registers : Bool) (calls : List (ℕ × T))
      → length stored.rails ≡ 3
      → length stored.branches ≡ 12
      → length stored.model ≡ 24
      → stored.core_valid ≡ false
      → IsValid (run (backend_initial t stored scan_registers) calls)
  run-backend_initial-IsValid t stored scan_registers calls r b m c = run-IsValid calls record {
    bounded = ground (arith, exchange_default-IsSized);
    phased = (omega arith, refl, refl);
  }
