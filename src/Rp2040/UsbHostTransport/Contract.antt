-- ===== src/Rp2040/UsbHostTransport/Contract.antt =====
-- What the transport of src/platform/rp2040/usb_transport.cpp promises its client.
use psu_usb_to_pmbus.Base.{
  refl, true, arith, ℕ, List, length, ◌≡◌, ◌≤◌, take, ◌++◌, replicate, ◌+◌, ◌%◌, ◌^◌, sym,
  take-padded, ap,
}
use psu_usb_to_pmbus.UsbTransport.{IsTransport, Starts, ControlRequest, TransferStatus}
use psu_usb_to_pmbus.Rp2040.UsbHostTransport.{UsbHost, UsbHostTransport, Buffer, diagnostics}
use psu_usb_to_pmbus.Rp2040.UsbHostTransport.Transfers.{
  start_control, start_bulk, start_write, start_read, clear_transfer, abort_transfer,
  driver_transfer, host_usb_transport, note_read,
}

module _ {H : Type 0} ⦃usb_host : UsbHost H⦄ where
  start_bulk-Starts :
      (endpoint size : ℕ) (buffer : Buffer) (t : UsbHostTransport H)
      → Starts host_usb_transport t (start_bulk endpoint size buffer t)
  unfolding start_bulk
  start_bulk-Starts endpoint size buffer t = ground arith

  start_control-Starts :
      (request : ControlRequest) (t : UsbHostTransport H)
      → Starts host_usb_transport t (start_control request t)
  unfolding start_control
  start_control-Starts request t = ground arith

  -- The class keeps the contract of its interface, on any USB host stack: an accepted start finds
  -- the device configured and no transfer pending, and makes one; a refused start leaves
  -- configuration and status as they were; after `clear_transfer` and `abort_transfer` no transfer
  -- is pending, and the device is configured if it was before.
  pub host_usb-IsTransport : IsTransport (host_usb_transport {H = H})
  unfolding start_write start_read clear_transfer abort_transfer
  host_usb-IsTransport = record {
    control_starts = start_control-Starts;
    write_starts = λ bytes t.
        ground (arith, start_bulk-Starts t.endpoint_out (length bytes) (Buffer.sends bytes) t);
    read_starts =
        λ size t. ground (arith, start_bulk-Starts t.endpoint_in size (Buffer.receives size) t);
    clear_stops = λ t. (refl, refl, refl);
    abort_stops = λ t. ground arith;
  }

  start_read-accepted :
      (size : ℕ) (t : UsbHostTransport H)
      → (start_read size t).accepted ≡ true
      → let s = (start_read size t).transport in
        (s.device_address ≡ t.device_address)
        × (s.endpoint_in ≡ t.endpoint_in)
        × (s.reads_started ≡ (t.reads_started + 1) % 2 ^ 32)
        × (s.reads_completed ≡ t.reads_completed)
        × (s.configured ≡ true)
  unfolding start_read start_bulk
  start_read-accepted size t e = ground (arith, e)

  driver_transfer-read :
      (transferred : ℕ) (bytes : List ℕ) (s : UsbHostTransport H)
      → driver_transfer s.device_address s.endpoint_in usb_host.xfer_success transferred bytes s
        ≡ record {
          handled = true;
          transport =
              record (note_read bytes transferred (record s {
                last_endpoint = s.endpoint_in;
                last_result = usb_host.xfer_success % 2 ^ 8;
                size_transferred = transferred;
              })) { status = TransferStatus.complete };
        }
  unfolding driver_transfer
  driver_transfer-read transferred bytes s = ground arith

  completes :
      (dev_addr endpoint transferred : ℕ) (bytes : List ℕ) (s : UsbHostTransport H)
      → s.device_address ≡ dev_addr
      → s.endpoint_in ≡ endpoint
      → {started completed : ℕ} → s.reads_started ≡ started
      → s.reads_completed ≡ completed
      → s.configured ≡ true
      → transferred ≤ length bytes
      → let done = driver_transfer dev_addr endpoint usb_host.xfer_success transferred bytes s in
        (done.handled ≡ true)
        × (done.transport.status ≡ TransferStatus.complete)
        × (done.transport.size_transferred ≡ transferred)
        × (done.transport.read_buffer ≡ bytes)
        × ((diagnostics done.transport).last_read_bytes
            ≡ take 4 (take transferred bytes ++ replicate 4 0))
        × ((diagnostics done.transport).reads_started ≡ started)
        × ((diagnostics done.transport).reads_completed ≡ (completed + 1) % 2 ^ 32)
        × ((clear_transfer done.transport).status ≡ TransferStatus.idle)
        × ((clear_transfer done.transport).configured ≡ true)
  unfolding clear_transfer
  completes dev_addr endpoint transferred bytes s device number started completed up fits =
      rw (sym device, sym number, driver_transfer-read transferred bytes s)
        (
          refl,
          refl,
          refl,
          refl,
          sym (take-padded 4 4 transferred bytes 0 (omega arith) fits),
          started,
          ap (λ (n : ℕ). (n + 1) % 2 ^ 32) completed,
          refl,
          up,
        )

  -- A read that has been accepted, and that the stack then reports to the driver with its success
  -- code, the size of the data and the bytes in the span, is handled: the transfer is complete and
  -- of this size, the client finds these bytes, the diagnostics show the first four of them, with
  -- zeros for those that did not come, and one more read started and completed, modulo 2^32; and
  -- once it is cleared, the transport is idle and still configured.
  pub read_completes :
      (size transferred : ℕ) (bytes : List ℕ) (t : UsbHostTransport H)
      → (start_read size t).accepted ≡ true
      → transferred ≤ length bytes
      → let started = (start_read size t).transport in
        let done =
          driver_transfer t.device_address t.endpoint_in usb_host.xfer_success transferred bytes
            started in
        (done.handled ≡ true)
        × (done.transport.status ≡ TransferStatus.complete)
        × (done.transport.size_transferred ≡ transferred)
        × (done.transport.read_buffer ≡ bytes)
        × ((diagnostics done.transport).last_read_bytes
            ≡ take 4 (take transferred bytes ++ replicate 4 0))
        × ((diagnostics done.transport).reads_started ≡ (t.reads_started + 1) % 2 ^ 32)
        × ((diagnostics done.transport).reads_completed ≡ (t.reads_completed + 1) % 2 ^ 32)
        × ((clear_transfer done.transport).status ≡ TransferStatus.idle)
        × ((clear_transfer done.transport).configured ≡ true)
  read_completes size transferred bytes t accepted fits =
      let (device, endpoint, started, completed, up) = start_read-accepted size t accepted in
      completes t.device_address t.endpoint_in transferred bytes (start_read size t).transport
        device endpoint started completed up fits
