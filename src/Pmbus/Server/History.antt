-- ===== src/Pmbus/Server/History.antt =====
-- Every history of calls of the PMBus target of src/pmbus/server.cpp.
use psu_usb_to_pmbus.Pmbus.Server.Write.{write}
use psu_usb_to_pmbus.Pmbus.Server.Read.{read}
use psu_usb_to_pmbus.Pmbus.Server.Invariant.{
  IsValid, read-IsValid, power_on-IsValid, write-IsValid, note_bad_pec-IsValid,
}
use psu_usb_to_pmbus.Pmbus.Server.{PmbusServer, power_on, note_bad_pec}
use psu_usb_to_pmbus.Float.{Libm}
use psu_usb_to_pmbus.Telemetry.Snapshot.{TelemetrySnapshot}
use psu_usb_to_pmbus.Base.{List, [], ℕ, ◌∷◌}

-- The calls of the public interface; a read brings the snapshot that it finds in the store.
pub data Call : Type 0 where
  reads : TelemetrySnapshot → ℕ → ℕ → List ℕ → Call
  writes : ℕ → List ℕ → Call
  bad_pec : Call

module _ ⦃libm : Libm⦄ where
  abbrev step : PmbusServer → Call → PmbusServer
  step s (reads t now_ms command request) = (read t now_ms s command request).server
  step s (writes command payload) = (write s command payload).server
  step s bad_pec = note_bad_pec s

  abbrev pub run : PmbusServer → List Call → PmbusServer
  run s [] = s
  run s (c ∷ cs) = run (step s c) cs

  step-IsValid : (c : Call) {s : PmbusServer} → IsValid s → IsValid (step s c)
  step-IsValid (reads t now_ms command request) v = read-IsValid t now_ms v command request
  step-IsValid (writes command payload) v = write-IsValid command payload v
  step-IsValid bad_pec v = note_bad_pec-IsValid v

  run-IsValid : (cs : List Call) {s : PmbusServer} → IsValid s → IsValid (run s cs)
  run-IsValid [] v = v
  run-IsValid (c ∷ cs) v = run-IsValid cs (step-IsValid c v)

  -- After any history of calls from power-on, with any bytes in any order, the selected page is one
  -- of the documented pages, only the two documented faults are pending, and there are six masks.
  pub run-power_on-IsValid : (address : ℕ) (cs : List Call) → IsValid (run (power_on address) cs)
  run-power_on-IsValid address cs = run-IsValid cs (power_on-IsValid address)
