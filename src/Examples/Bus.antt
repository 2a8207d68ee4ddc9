-- ===== src/Examples/Bus.antt =====
-- Transactions on the bus from power-on: a write of PAGE, the same with a wrong code, and a read.
use psu_usb_to_pmbus.Rp2040.I2cTarget.Interleavings.{Step, run, run-initial-IsReady}
use psu_usb_to_pmbus.Pmbus.Commands.{of_byte}
use psu_usb_to_pmbus.Pmbus.Server.Write.{write_payload_is_well_formed, write}
use psu_usb_to_pmbus.Telemetry.Snapshot.{snapshot_default}
use psu_usb_to_pmbus.Pmbus.Server.{power_on, latch, cml_packet_error}
use psu_usb_to_pmbus.Pmbus.Server.Invariant.{power_on-IsValid}
use psu_usb_to_pmbus.Pmbus.Server.OnPage.{read_on_page, response_of}
use psu_usb_to_pmbus.Pmbus.Server.Read.{read}
use psu_usb_to_pmbus.Base.Int.{pos}
use psu_usb_to_pmbus.Rp2040.I2cTarget.{
  I2cTarget, initial, Plan, Event, prepare_read, write_address, received, read_address, initialize,
}
use psu_usb_to_pmbus.Rp2040.I2cTarget.Invariant.{IsReady, initial-IsReady}
use psu_usb_to_pmbus.Pmbus.Pec.{pec, pec_update}
use psu_usb_to_pmbus.Rp2040.I2cTarget.Transactions.{IsIdle, Batches, write_code, write_transaction}
use psu_usb_to_pmbus.Rp2040.I2cTarget.Writes.{protected_write, corrupted_write}
use psu_usb_to_pmbus.Rp2040.I2cTarget.Reads.{answered_read}
use psu_usb_to_pmbus.Base.{List, [], arith, refl, replicate, set, take, ℕ, ◌++◌, ◌∷◌, ◌≡◌}
use psu_usb_to_pmbus.Float.{Libm}

instance bus_libm : Libm
bus_libm = record { lround_range = λ x. pos 0 }

abbrev idle_target : I2cTarget
idle_target = initial (power_on 0x58)

idle_target-IsReady : IsReady idle_target
idle_target-IsReady = initial-IsReady (power_on 0x58) (power_on-IsValid 0x58)

idle_target-IsIdle : IsIdle idle_target
idle_target-IsIdle = record { nothing_received = refl; no_read = refl; no_commit = refl }

-- Bytes that come in two interrupts, and one that finds nothing.
abbrev two_batches : ℕ → Batches
two_batches code = (100, 0x00 ∷ []) ∷ (100, []) ∷ (101, 0x10 ∷ code ∷ []) ∷ []

protected_write_example :
    let code = write_code (power_on 0x58) 0x00 (0x10 ∷ []) in
    let after = write_transaction snapshot_default (two_batches code) 102 idle_target in
    (after.server ≡ (write (power_on 0x58) 0x00 (0x10 ∷ [])).server) × IsIdle after
protected_write_example =
    protected_write snapshot_default idle_target-IsReady idle_target-IsIdle
      (two_batches (write_code (power_on 0x58) 0x00 (0x10 ∷ []))) 102 0x00 (0x10 ∷ []) refl
      (omega arith)

corrupted_write_example :
    let after = write_transaction snapshot_default (two_batches 0x51) 102 idle_target in
    (after.server ≡ latch cml_packet_error (power_on 0x58)) × IsIdle after
unfolding pec pec_update write_payload_is_well_formed
corrupted_write_example =
    corrupted_write snapshot_default idle_target-IsReady idle_target-IsIdle (two_batches 0x51) 102
      0x00 (0x10 ∷ []) 0x51 refl (omega arith) (omega arith) refl

-- The target once the command of a read has arrived.
abbrev addressed_target : I2cTarget
addressed_target = record idle_target {
  receive = set idle_target.receive 0 0x19;
  receive_size = 1;
  last_event_ms = 100;
}

addressed_target-IsReady : IsReady addressed_target
addressed_target-IsReady = record {
  receive_whole = refl;
  transmit_whole = refl;
  receive_fits = omega arith;
  transmit_fits = omega arith;
  index_fits = omega arith;
  server_valid = power_on-IsValid 0x58;
}

answered_read_example :
    let reply = read snapshot_default 100 (power_on 0x58) 0x19 [] in
    let after = prepare_read snapshot_default 100 addressed_target in
    let queue = take after.transmit_size after.transmit in
    (code : ℕ) × (queue ≡ take reply.response.size reply.response.bytes ++ code ∷ [])
    × (pec
          (write_address reply.server
            ∷ (received addressed_target ++ read_address reply.server ∷ queue))
          0
        ≡ 0)
unfolding read read_on_page response_of of_byte
answered_read_example =
    answered_read snapshot_default 100 addressed_target-IsReady (omega arith) refl

-- A message that is too long, its end, and a plan that a new message has outdated.
abbrev interleaved : List Step
interleaved =
    Step.interrupt snapshot_default 100 (Event.received_bytes (replicate 50 7))
    ∷ Step.interrupt snapshot_default 101 Event.finish
    ∷ Step.interrupt snapshot_default 102 (Event.received_bytes (0x19 ∷ []))
    ∷ Step.section Plan.commit_write
    ∷ Step.interrupt snapshot_default 103 Event.request
    ∷ []

run-initial-IsReady_example : IsReady (run (initialize (initial (power_on 0x58))) interleaved)
run-initial-IsReady_example = run-initial-IsReady 0x58 interleaved
