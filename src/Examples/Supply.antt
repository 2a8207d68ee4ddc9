-- ===== src/Examples/Supply.antt =====
-- The USB transport on a host stack that accepts every call, with the power supply attached.
use psu_usb_to_pmbus.Rp2040.UsbHostTransport.Contract.{host_usb-IsTransport, read_completes}
use psu_usb_to_pmbus.Rp2040.UsbHostTransport.Accepted.{Answer, driver_open-Answer}
use psu_usb_to_pmbus.Base.{refl, [], ◌∷◌, some, true, arith, List, ◌≡◌, ℕ}
use psu_usb_to_pmbus.Rp2040.UsbHostTransport.{
  UsbHost, UsbHostTransport, transport_default, diagnostics,
}
use psu_usb_to_pmbus.Rp2040.UsbHostTransport.Open.{
  driver_open, open_interface, open_endpoints, visit_descriptor, open_endpoint, accept_device,
  Opened,
}
use psu_usb_to_pmbus.Rp2040.UsbHostTransport.Transfers.{
  clear_transfer, host_usb_transport, start_read, start_bulk, driver_transfer, host_usb_transport,
}
use psu_usb_to_pmbus.UsbTransport.{IsTransport, Started, TransferStatus}

abbrev accepts : Started Unit
accepts = record { accepted = true; transport = tt }

instance abbrev pub bench_host : UsbHost Unit
bench_host = record {
  vid_pid_get = λ _ _. some (0x1b1c, 0x1c11);
  edpt_open = λ _ _ _. accepts;
  control_xfer = λ _ _ _. accepts;
  edpt_claim = λ _ _ _. accepts;
  edpt_xfer = λ _ _ _ _. accepts;
  edpt_release = λ _ _ h. h;
  edpt_abort_xfer = λ _ _ h. h;
  set_config_complete = λ _ _ h. h;
  xfer_success = 0;
}

-- An interface descriptor and those of its endpoints.
abbrev descriptors : List ℕ
descriptors =
    9 ∷ 4 ∷ 0 ∷ 0 ∷ 2 ∷ 255 ∷ 0 ∷ 0 ∷ 0 ∷ 7 ∷ 5 ∷ 2 ∷ 2 ∷ 64 ∷ 0 ∷ 0 ∷ 7 ∷ 5 ∷ 0x82 ∷ 2 ∷ 64 ∷ 0 ∷ 0
    ∷ []

abbrev unplugged : UsbHostTransport Unit
unplugged = transport_default tt

abbrev pub plugged : UsbHostTransport Unit
plugged = record unplugged {
  device_address = 1;
  endpoint_in = 0x82;
  endpoint_out = 2;
  configured = true;
}

opens : (r : Opened Unit) × (driver_open 1 descriptors 23 unplugged ≡ some r) × (r.consumed ≡ 23)
unfolding driver_open open_interface open_endpoints visit_descriptor open_endpoint accept_device
opens = (_, refl, refl)

driver_open-Answer_example :
    (r : Opened Unit) × (driver_open 1 descriptors 23 unplugged ≡ some r)
    × Answer (some (0x1b1c, 0x1c11)) 1 descriptors 23 r
driver_open-Answer_example = driver_open-Answer 1 descriptors 23 unplugged (omega arith)

host_usb-IsTransport_example : IsTransport (host_usb_transport {H = Unit})
host_usb-IsTransport_example = host_usb-IsTransport

read_completes_example :
    let started = (start_read 64 plugged).transport in
    let done = driver_transfer 1 0x82 0 2 (7 ∷ 8 ∷ 9 ∷ []) started in
    (done.handled ≡ true)
    × (done.transport.status ≡ TransferStatus.complete)
    × (done.transport.size_transferred ≡ 2)
    × (done.transport.read_buffer ≡ 7 ∷ 8 ∷ 9 ∷ [])
    × ((diagnostics done.transport).last_read_bytes ≡ 7 ∷ 8 ∷ 0 ∷ 0 ∷ [])
    × ((diagnostics done.transport).reads_started ≡ 1)
    × ((diagnostics done.transport).reads_completed ≡ 1)
    × ((clear_transfer done.transport).status ≡ TransferStatus.idle)
    × ((clear_transfer done.transport).configured ≡ true)
unfolding start_read start_bulk
read_completes_example = read_completes 64 2 (7 ∷ 8 ∷ 9 ∷ []) plugged refl (omega arith)
