-- ===== src/Rp2040/I2cTarget/Reads.antt =====
-- What a read on the bus is answered with, through src/platform/rp2040/i2c_target.cpp.
use psu_usb_to_pmbus.Pmbus.Pec.Laws.{pec-append, pec_update_self}
use psu_usb_to_pmbus.Pmbus.Server.Bounds.{read-Fits}
use psu_usb_to_pmbus.Pmbus.Server.Read.{read}
use psu_usb_to_pmbus.Rp2040.I2cTarget.Invariant.{IsReady, transmit_all_lem}
use psu_usb_to_pmbus.Telemetry.Snapshot.{TelemetrySnapshot}
use psu_usb_to_pmbus.Float.{Libm}
use psu_usb_to_pmbus.Pmbus.Pec.{pec, pec_update}
use psu_usb_to_pmbus.Rp2040.I2cTarget.{
  I2cTarget, write_address, prepare_read, received, read_address,
}
use psu_usb_to_pmbus.Base.{
  List, [], add-one, ap, arith, drop, drop-cons, false, get_or, length, length-take, refl, set,
  set-append, store, store_lem, suc, take, true, ℕ, ◌++◌, ◌+◌, ◌-◌, ◌<◌, ◌==◌, ◌∙◌, ◌∷◌, ◌≡◌,
  take-append_suc,
}

queue_lem :
    (xs bytes : List ℕ) (code : ℕ)
    → length bytes < length xs
    → take (0 + length bytes + 1) (set (store 0 bytes xs) (0 + length bytes) code)
      ≡ bytes ++ code ∷ []
queue_lem xs bytes code room =
    let start : 0 + length bytes ≡ length bytes = omega arith in
    rw
      (
        start,
        add-one,
        store_lem bytes [] xs 0 refl (omega arith),
        drop-cons (length bytes) xs 0 room,
        set-append bytes (drop (suc (length bytes)) xs) (get_or xs (length bytes) 0) code,
      )
      (take-append_suc bytes (drop (suc (length bytes)) xs) code)

module _ ⦃libm : Libm⦄ (t : TelemetrySnapshot) where
  prepare_read_answered :
      (now_ms : ℕ) (s : I2cTarget)
      → 0 < s.receive_size
      → let request = take (s.receive_size - 1) (drop 1 s.receive) in
        let reply = read t now_ms s.server (get_or s.receive 0 0) request in
        let bytes = take reply.response.size reply.response.bytes in
        let addressed = pec_update 0 (write_address reply.server) in
        let turned = pec_update (pec (received s) addressed) (read_address reply.server) in
        reply.response.supported ≡ true
        → prepare_read t now_ms s ≡ record s {
          server = reply.server;
          transmit = set (store 0 bytes s.transmit) (0 + length bytes) (pec bytes turned);
          transmit_size = 0 + length bytes + 1;
          transmit_index = 0;
          read_active = true;
        }
  unfolding prepare_read
  prepare_read_answered now_ms s some_bytes answered =
      let empty : (s.receive_size == 0) ≡ false = ground arith in
      rw (empty, answered, transmit_all_lem) refl

  -- At a well-formed target that has received a command which it answers, the preparation of a read
  -- queues the reply and one more byte, so that the whole transaction, both address bytes included,
  -- has the packet error code zero.
  pub answered_read :
      (now_ms : ℕ) {s : I2cTarget}
      → IsReady s
      → 0 < s.receive_size
      → (read t now_ms s.server
          (get_or s.receive 0 0)
          (take (s.receive_size - 1) (drop 1 s.receive))).response.supported
        ≡ true
      → let request = take (s.receive_size - 1) (drop 1 s.receive) in
        let reply = read t now_ms s.server (get_or s.receive 0 0) request in
        let after = prepare_read t now_ms s in
        let queue = take after.transmit_size after.transmit in
        (code : ℕ) × (queue ≡ take reply.response.size reply.response.bytes ++ code ∷ [])
        × (pec (write_address reply.server ∷ (received s ++ read_address reply.server ∷ queue)) 0
            ≡ 0)
  unfolding pec
  answered_read now_ms {s} ready some_bytes answered =
      let request = take (s.receive_size - 1) (drop 1 s.receive) in
      let reply = read t now_ms s.server (get_or s.receive 0 0) request in
      let bytes = take reply.response.size reply.response.bytes in
      let fits = read-Fits t now_ms s.server (get_or s.receive 0 0) request in
      let small : length bytes < length s.transmit = omega (
        arith,
        fits.bounded,
        ready.transmit_whole,
        length-take reply.response.size reply.response.bytes,
      ) in
      let addressed = pec_update 0 (write_address reply.server) in
      let turned = pec_update (pec (received s) addressed) (read_address reply.server) in
      let code = pec bytes turned in
      let prepared = prepare_read_answered now_ms s some_bytes answered in
      let queued = queue_lem s.transmit bytes code small in
      (
        code,
        ap (λ (x : I2cTarget). take x.transmit_size x.transmit) prepared ∙ queued,
        ap
              (λ (x : I2cTarget).
                pec (received s ++ read_address reply.server ∷ take x.transmit_size x.transmit)
                  addressed)
              prepared
            ∙ ap (λ (q : List ℕ). pec (received s ++ read_address reply.server ∷ q) addressed)
                queued
            ∙ pec-append (received s) (read_address reply.server ∷ (bytes ++ code ∷ [])) addressed
            ∙ pec-append bytes (code ∷ []) turned
            ∙ pec_update_self code,
      )
