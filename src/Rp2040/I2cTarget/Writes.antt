-- ===== src/Rp2040/I2cTarget/Writes.antt =====
-- What a whole write on the bus does to the PMBus target.
use psu_usb_to_pmbus.Rp2040.I2cTarget.Transactions.{
  IsIdle, Batches, joined, write_code, write_transaction, write_commit,
}
use psu_usb_to_pmbus.Rp2040.I2cTarget.Invariant.{IsReady}
use psu_usb_to_pmbus.Telemetry.Snapshot.{TelemetrySnapshot}
use psu_usb_to_pmbus.Float.{Libm}
use psu_usb_to_pmbus.Pmbus.Server.Write.{write, write_payload_is_well_formed}
use psu_usb_to_pmbus.Pmbus.Pec.{pec}
use psu_usb_to_pmbus.Rp2040.I2cTarget.{I2cTarget, commit, receive_capacity}
use psu_usb_to_pmbus.Pmbus.Server.{PmbusServer, note_bad_pec, latch, cml_packet_error}
use psu_usb_to_pmbus.Base.{
  ==_iff, List, [], arith, drop, false, get_or-append, if◌then◌else◌, length, refl, suc, sym,
  take-append, true, ℕ, ◌++◌, ◌+◌, ◌-◌, ◌==◌, ◌∙◌, ◌∷◌, ◌≡◌, ◌≢◌, ◌≤◌, take-append_suc, ==_false,
}

-- A message behind its command: the payload, then one byte in the place of the code.
module _ (server : PmbusServer) (command : ℕ) (payload : List ℕ) (code : ℕ) (tail : List ℕ) where
  abbrev message : List ℕ
  message = command ∷ (payload ++ code ∷ tail)

  commit_lem : commit server message (length payload + 2) ≡ (
      if write_code server command payload == code
      then (write server command payload).server
      else if write_payload_is_well_formed command (payload ++ code ∷ [])
      then (write server command (payload ++ code ∷ [])).server
      else note_bad_pec server)
  unfolding commit pec
  commit_lem =
      let all : length payload + 2 - 1 ≡ suc (length payload) = omega arith in
      let protected : length payload + 2 - 2 ≡ length payload = omega arith in
      rw
        (
          all,
          protected,
          take-append payload (code ∷ tail),
          get_or-append payload tail code 0,
          take-append_suc payload tail code,
        )
        refl

module _ ⦃libm : Libm⦄ (t : TelemetrySnapshot) where
  -- At a well-formed target with no open transaction, a write of a command with at most 38 bytes of
  -- payload that ends in its packet error code reaches the PMBus target with exactly that command and
  -- payload, once the main loop commits it, and leaves no transaction open. Its bytes may arrive in any
  -- number of interrupts, split anywhere.
  pub protected_write :
      {s : I2cTarget}
      → IsReady s
      → IsIdle s
      → (batches : Batches) (end command : ℕ) (payload : List ℕ)
      → joined batches ≡ command ∷ (payload ++ write_code s.server command payload ∷ [])
      → length payload + 2 ≤ receive_capacity
      → let after = write_transaction t batches end s in
        (after.server ≡ (write s.server command payload).server) × IsIdle after
  protected_write {s} ready free batches end command payload same fits =
      let code = write_code s.server command payload in
      let done = write_commit t ready free batches end command payload code same fits in
      let match : (code == code) ≡ true = (==_iff code code).1 refl in
      (
        done.0
            ∙ commit_lem s.server command payload code (drop (length payload + 2) s.receive)
            ∙ rw match refl,
        done.1,
      )

  -- At a well-formed target with no open transaction, a write of at most 40 bytes whose last byte is
  -- not its packet error code, and whose bytes have not the shape of an unprotected write of the
  -- command either, changes nothing of the PMBus target but that it latches the packet-error fault,
  -- once the main loop commits it, and leaves no transaction open. Its bytes may arrive in any number
  -- of interrupts, split anywhere.
  pub corrupted_write :
      {s : I2cTarget}
      → IsReady s
      → IsIdle s
      → (batches : Batches) (end command : ℕ) (payload : List ℕ) (code : ℕ)
      → joined batches ≡ command ∷ (payload ++ code ∷ [])
      → length payload + 2 ≤ receive_capacity
      → code ≢ write_code s.server command payload
      → write_payload_is_well_formed command (payload ++ code ∷ []) ≡ false
      → let after = write_transaction t batches end s in
        (after.server ≡ latch cml_packet_error s.server) × IsIdle after
  unfolding note_bad_pec
  corrupted_write {s} ready free batches end command payload code same fits wrong shape =
      let done = write_commit t ready free batches end command payload code same fits in
      let differ : (write_code s.server command payload == code) ≡ false =
        ==_false (write_code s.server command payload) code (λ e. wrong (sym e)) in
      (
        done.0
            ∙ commit_lem s.server command payload code (drop (length payload + 2) s.receive)
            ∙ rw (differ, shape) refl,
        done.1,
      )
