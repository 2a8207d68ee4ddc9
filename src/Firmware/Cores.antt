-- ===== src/Firmware/Cores.antt =====
-- Both cores of src/main.cpp: the USB core, the loop of `main` on the other core, and the I2C
-- interrupts between them. A round of `main` is two steps, what `I2cTarget::task` decides and its
-- critical section; the store hands over whole snapshots.
use psu_usb_to_pmbus.Pmbus.Server.Nested.{read-plain}
use psu_usb_to_pmbus.Pmbus.Server.Read.{is_stale}
use psu_usb_to_pmbus.Pmbus.Commands.{code, Command, of_byte}
use psu_usb_to_pmbus.Pmbus.Server.OnPage.{read_on_page, response_of, after_read}
use psu_usb_to_pmbus.Pmbus.Server.Read.{read}
use psu_usb_to_pmbus.Base.{Bool, List, [], arith, refl, ℕ, ◌∷◌, ◌≡◌, if◌then◌else◌, subst}
use psu_usb_to_pmbus.Firmware.{HostEvent, turn, initial_snapshot, turns-IsValid, turns-IsShown}
use psu_usb_to_pmbus.Ax1600i.Backend.{Backend, backend_initial}
use psu_usb_to_pmbus.Ax1600i.Backend.Invariant.{IsValid}
use psu_usb_to_pmbus.Ax1600i.Backend.Shown.{IsShown, latest}
use psu_usb_to_pmbus.Ax1600i.Exchange.Invariant.{exchange_default-IsSized}
use psu_usb_to_pmbus.Rp2040.UsbHostTransport.{
  UsbHost, UsbHostTransport, transport_default, note_host_init,
}
use psu_usb_to_pmbus.Rp2040.UsbHostTransport.Transfers.{host_usb_transport}
use psu_usb_to_pmbus.Rp2040.I2cTarget.{
  I2cTarget, Event, event, initial, initialize, Plan, plan, carry_out,
}
use psu_usb_to_pmbus.Rp2040.I2cTarget.Invariant.{
  IsReady, event-IsReady, carry_out-IsReady, initial-IsReady, reset_transaction-IsReady,
}
use psu_usb_to_pmbus.Pmbus.Server.{power_on, PmbusServer, put_byte}
use psu_usb_to_pmbus.Pmbus.Server.Invariant.{power_on-IsValid}
use psu_usb_to_pmbus.Telemetry.Snapshot.{TelemetrySnapshot}
use psu_usb_to_pmbus.Float.{Libm}

pub record Cores (H : Type 0) : Type 0 where
  pub backend : Backend (UsbHostTransport H)
  pub target : I2cTarget
  pub planned : Plan

pub data CoreStep (H : Type 0) : Type 0 where
  usb_round : ℕ → List (HostEvent H) → CoreStep H
  interrupts : ℕ → Event → CoreStep H
  decides : ℕ → CoreStep H
  enters_section : CoreStep H

read-bridge_status :
    ⦃libm : Libm⦄ (t : TelemetrySnapshot) (now_ms : ℕ) (s : PmbusServer)
    → read t now_ms s (code Command.mfr_bridge_status) [] ≡ record {
      server = s;
      response = put_byte (if t.connected then (if is_stale t now_ms then 1 else 0) else 2);
    }
unfolding read_on_page response_of after_read of_byte
read-bridge_status t now_ms s =
    read-plain t now_ms s (code Command.mfr_bridge_status) (omega arith) (omega arith)

module _ {H : Type 0} ⦃usb_host : UsbHost H⦄ ⦃libm : Libm⦄ (board_id : List ℕ) where
  -- What the store shows.
  abbrev pub shown_snapshot : Cores H → TelemetrySnapshot
  shown_snapshot x = latest (initial_snapshot board_id) x.backend.published

  abbrev pub core_step : CoreStep H → Cores H → Cores H
  core_step (CoreStep.usb_round now_ms events) x = record x {
    backend = turn (now_ms, events) x.backend;
  }
  core_step (CoreStep.interrupts now_ms e) x = record x {
    target = (event (shown_snapshot x) now_ms e x.target).target;
  }
  core_step (CoreStep.decides now_ms) x = record x { planned = plan now_ms x.target }
  core_step CoreStep.enters_section x = record x {
    target = carry_out x.planned x.target;
    planned = Plan.idle;
  }

  abbrev pub core_steps : List (CoreStep H) → Cores H → Cores H
  core_steps [] x = x
  core_steps (step ∷ steps) x = core_steps steps (core_step step x)

  -- The start of both cores.
  abbrev pub cores_started : H → Bool → Bool → Bool → ℕ → Cores H
  cores_started host configured initialized scan_registers address = record {
    backend =
        backend_initial (note_host_init configured initialized (transport_default host))
          (initial_snapshot board_id) scan_registers;
    target = initialize (initial (power_on address));
    planned = Plan.idle;
  }

  pub record IsSound (x : Cores H) : Type 0 where
    pub backend : IsValid x.backend
    pub shown : IsShown (initial_snapshot board_id) x.backend
    pub target : IsReady x.target

  core_step-IsSound : (step : CoreStep H) {x : Cores H} → IsSound x → IsSound (core_step step x)
  core_step-IsSound (CoreStep.usb_round now_ms events) h = record {
    backend = turns-IsValid ((now_ms, events) ∷ []) h.backend;
    shown = turns-IsShown ((now_ms, events) ∷ []) h.shown;
    target = h.target;
  }
  core_step-IsSound (CoreStep.interrupts now_ms e) {x} h = record {
    backend = h.backend;
    shown = h.shown;
    target = event-IsReady (shown_snapshot x) now_ms e h.target;
  }
  core_step-IsSound (CoreStep.decides now_ms) h = record {
    backend = h.backend;
    shown = h.shown;
    target = h.target;
  }
  core_step-IsSound CoreStep.enters_section {x} h = record {
    backend = h.backend;
    shown = h.shown;
    target = carry_out-IsReady x.planned h.target;
  }

  core_steps-IsSound :
      (steps : List (CoreStep H)) {x : Cores H} → IsSound x → IsSound (core_steps steps x)
  core_steps-IsSound [] h = h
  core_steps-IsSound (step ∷ steps) h = core_steps-IsSound steps (core_step-IsSound step h)

  started-IsSound :
      (host : H) (configured initialized scan_registers : Bool) (address : ℕ)
      → IsSound (cores_started host configured initialized scan_registers address)
  started-IsSound host configured initialized scan_registers address = record {
    backend = record {
      bounded = ground (arith, exchange_default-IsSized);
      phased = (omega arith, refl, refl);
    };
    shown = ground arith;
    target =
        reset_transaction-IsReady (initial-IsReady (power_on address) (power_on-IsValid address));
  }

  -- Both cores from their start, whatever the USB host stack does and answers, whatever arrives on the
  -- I2C bus, and in whatever order the rounds of the USB core, the interrupts and the two halves of
  -- the rounds of `main` come: the state of the backend and of the I2C target is in order, what the
  -- store shows agrees with the link, and at any time the bus reads from MFR_BRIDGE_STATUS whether the
  -- backend has the supply connected now, and if so whether its telemetry is stale.
  pub core_steps-cores_started-IsSound :
      (host : H) (configured initialized scan_registers : Bool) (address now_ms : ℕ)
      (steps : List (CoreStep H))
      → let x =
          core_steps steps (cores_started host configured initialized scan_registers address) in
        IsSound x
        × (read (shown_snapshot x) now_ms x.target.server (code Command.mfr_bridge_status) []
            ≡ record {
              server = x.target.server;
              response = put_byte (
                  if x.backend.working.connected
                  then (if is_stale (shown_snapshot x) now_ms then 1 else 0)
                  else 2);
            })
  core_steps-cores_started-IsSound host configured initialized scan_registers address now_ms steps =
      let start = started-IsSound host configured initialized scan_registers address in
      let sound = core_steps-IsSound steps start in
      let x = core_steps steps (cores_started host configured initialized scan_registers address) in
      (
        sound,
        subst
            (λ (c : Bool).
              read (shown_snapshot x) now_ms x.target.server (code Command.mfr_bridge_status) []
              ≡ record {
                server = x.target.server;
                response =
                    put_byte
                      (if c then (if is_stale (shown_snapshot x) now_ms then 1 else 0) else 2);
              })
            sound.shown.connection (read-bridge_status (shown_snapshot x) now_ms x.target.server),
      )
