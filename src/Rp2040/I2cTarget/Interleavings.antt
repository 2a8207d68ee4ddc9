-- ===== src/Rp2040/I2cTarget/Interleavings.antt =====
-- Every interleaving of the interrupts and the main loop of src/platform/rp2040/i2c_target.cpp.
use psu_usb_to_pmbus.Pmbus.Server.Invariant.{power_on-IsValid}
use psu_usb_to_pmbus.Pmbus.Server.{power_on}
use psu_usb_to_pmbus.Rp2040.I2cTarget.Invariant.{
  IsReady, event-IsReady, carry_out-IsReady, initial-IsReady, reset_transaction-IsReady,
}
use psu_usb_to_pmbus.Rp2040.I2cTarget.{
  I2cTarget, Event, event, initial, Plan, carry_out, initialize,
}
use psu_usb_to_pmbus.Telemetry.Snapshot.{TelemetrySnapshot}
use psu_usb_to_pmbus.Float.{Libm}
use psu_usb_to_pmbus.Base.{List, [], ℕ, ◌∷◌}

-- An interrupt finds the snapshot that the store holds then. The main loop enters its critical
-- section with a plan, which events after its decision may have outdated.
pub data Step : Type 0 where
  interrupt : TelemetrySnapshot → ℕ → Event → Step
  section : Plan → Step

module _ ⦃libm : Libm⦄ where
  abbrev step : I2cTarget → Step → I2cTarget
  step s (interrupt t now_ms e) = (event t now_ms e s).target
  step s (section p) = carry_out p s

  abbrev pub run : I2cTarget → List Step → I2cTarget
  run s [] = s
  run s (x ∷ xs) = run (step s x) xs

  step-IsReady : (x : Step) {s : I2cTarget} → IsReady s → IsReady (step s x)
  step-IsReady (interrupt t now_ms e) r = event-IsReady t now_ms e r
  step-IsReady (section p) r = carry_out-IsReady p r

  run-IsReady : (xs : List Step) {s : I2cTarget} → IsReady s → IsReady (run s xs)
  run-IsReady [] r = r
  run-IsReady (x ∷ xs) r = run-IsReady xs (step-IsReady x r)

  -- From power-on, after any sequence of interrupts and critical sections, outdated plans included:
  -- both buffers have their lengths, at most 40 received bytes are kept and at most 35 of the 42
  -- bytes of the transmit buffer are queued, no byte behind the queue is next, and the PMBus target
  -- is well formed.
  pub run-initial-IsReady :
      (address : ℕ) (xs : List Step) → IsReady (run (initialize (initial (power_on address))) xs)
  run-initial-IsReady address xs =
      run-IsReady xs
        (reset_transaction-IsReady (initial-IsReady (power_on address) (power_on-IsValid address)))
