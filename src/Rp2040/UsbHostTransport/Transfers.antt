-- ===== src/Rp2040/UsbHostTransport/Transfers.antt =====
-- Transfers of src/platform/rp2040/usb_transport.cpp: their start, their completion by the host
-- stack, and their end. The setup packet that `start_control` writes to `setup_storage_` is handed
-- on as the request, with length 0.
use psu_usb_to_pmbus.Base.{
  if◌then◌else◌, ℕ, List, Bool, ◌&&◌, length, min, ◌+◌, not, true, ◌==◌, take, ◌%◌, ◌||◌, false,
  ltb, ◌^◌, ◌++◌, replicate, ◌-◌,
}
use psu_usb_to_pmbus.UsbTransport.{UsbTransport, TransferStatus, ControlRequest, Started}
use psu_usb_to_pmbus.Rp2040.UsbHostTransport.{UsbHost, UsbHostTransport, Buffer}

abbrev pub is_idle_status : TransferStatus → Bool
is_idle_status TransferStatus.idle = true
is_idle_status _ = false

abbrev pub is_busy_status : TransferStatus → Bool
is_busy_status TransferStatus.busy = true
is_busy_status _ = false

abbrev pub outcome_status : ℕ → ℕ → TransferStatus
outcome_status success result =
    if result == success then TransferStatus.complete else TransferStatus.failed

-- `++` of a 32-bit counter.
abbrev pub increment_32 : ℕ → ℕ
increment_32 n = (n + 1) % 2 ^ 32

pub record Returned (H : Type 0) : Type 0 where
  pub handled : Bool
  pub transport : UsbHostTransport H

module _ {H : Type 0} where
  unfoldable pub clear_transfer : UsbHostTransport H → UsbHostTransport H
  clear_transfer t = record t {
    size_transferred = 0;
    status = TransferStatus.idle;
    active_endpoint = 0;
  }

  abbrev pub begin_transfer : ℕ → UsbHostTransport H → UsbHostTransport H
  begin_transfer endpoint t = record t { status = TransferStatus.busy; active_endpoint = endpoint }

  abbrev pub on_host : H → UsbHostTransport H → UsbHostTransport H
  on_host host t = record t { host = host }

module _ {H : Type 0} ⦃usb_host : UsbHost H⦄ where
  unfoldable pub start_control : ControlRequest → UsbHostTransport H → Started (UsbHostTransport H)
  start_control request t =
      let begun = begin_transfer 0 t in
      let asked = usb_host.control_xfer t.device_address request t.host in
      let handed = on_host asked.transport begun in
      if not t.configured || not (is_idle_status t.status)
      then record { accepted = false; transport = t }
      else if not asked.accepted
      then record { accepted = false; transport = record handed { status = TransferStatus.idle } }
      else record {
        accepted = true;
        transport = record handed { controls_started = increment_32 t.controls_started };
      }

  -- The common part of `start_write` and `start_read`, with the size of the span and with what the
  -- transfer is.
  unfoldable pub start_bulk : ℕ → ℕ → Buffer → UsbHostTransport H → Started (UsbHostTransport H)
  start_bulk endpoint size buffer t =
      let claimed = usb_host.edpt_claim t.device_address endpoint t.host in
      let begun = begin_transfer endpoint t in
      let asked = usb_host.edpt_xfer t.device_address endpoint buffer claimed.transport in
      if not t.configured || not (is_idle_status t.status) || size == 0 || ltb 0xffff size
      then record { accepted = false; transport = t }
      else if not claimed.accepted
      then record { accepted = false; transport = on_host claimed.transport t }
      else if not asked.accepted
      then record {
        accepted = false;
        transport = record begun {
          host = usb_host.edpt_release t.device_address endpoint asked.transport;
          status = TransferStatus.idle;
        };
      }
      else record { accepted = true; transport = on_host asked.transport begun }

  abbrev pub count_write : Started (UsbHostTransport H) → Started (UsbHostTransport H)
  count_write started =
      let t = started.transport in
      if started.accepted
      then record started {
        transport = record t { writes_started = increment_32 t.writes_started };
      }
      else started

  abbrev pub count_read : Started (UsbHostTransport H) → Started (UsbHostTransport H)
  count_read started =
      let t = started.transport in
      if started.accepted
      then record started { transport = record t { reads_started = increment_32 t.reads_started } }
      else started

  unfoldable pub start_write : List ℕ → UsbHostTransport H → Started (UsbHostTransport H)
  start_write data_bytes t =
      count_write (start_bulk t.endpoint_out (length data_bytes) (Buffer.sends data_bytes) t)

  unfoldable pub start_read : ℕ → UsbHostTransport H → Started (UsbHostTransport H)
  start_read size t = count_read (start_bulk t.endpoint_in size (Buffer.receives size) t)

  unfoldable pub abort_transfer : UsbHostTransport H → UsbHostTransport H
  abort_transfer t = clear_transfer (
      if t.configured && is_busy_status t.status
      then on_host (usb_host.edpt_abort_xfer t.device_address t.active_endpoint t.host) t
      else t)

  -- The result and the length of the transfer that the stack hands back.
  unfoldable pub control_complete : ℕ → ℕ → UsbHostTransport H → UsbHostTransport H
  control_complete result actual_len t = record t {
    controls_completed = increment_32 t.controls_completed;
    last_endpoint = 0;
    last_result = result % 2 ^ 8;
    size_transferred = actual_len;
    status = outcome_status usb_host.xfer_success result;
  }

  -- The completion of a read, with what the stack has put into the span.
  abbrev pub note_read : List ℕ → ℕ → UsbHostTransport H → UsbHostTransport H
  note_read bytes transferred t =
      let captured = min transferred 4 in
      record t {
        reads_completed = increment_32 t.reads_completed;
        last_read_size = transferred;
        last_read_bytes = take captured bytes ++ replicate (4 - captured) 0;
        read_buffer = bytes;
      }

  -- `bytes` is what stands in the span of a read then.
  unfoldable pub driver_transfer : ℕ → ℕ → ℕ → ℕ → List ℕ → UsbHostTransport H → Returned H
  driver_transfer dev_addr endpoint result transferred bytes t =
      let noted : UsbHostTransport H = record t {
        last_endpoint = endpoint;
        last_result = result % 2 ^ 8;
        size_transferred = transferred;
      } in
      let read = if endpoint == t.endpoint_in then note_read bytes transferred noted else noted in
      if not (dev_addr == t.device_address)
        || (not (endpoint == t.endpoint_in) && not (endpoint == t.endpoint_out))
      then record { handled = false; transport = t }
      else record {
        handled = true;
        transport = record read { status = outcome_status usb_host.xfer_success result };
      }

  unfoldable pub driver_set_config : ℕ → ℕ → UsbHostTransport H → Returned H
  driver_set_config dev_addr number t =
      let counted : UsbHostTransport H = record t {
        set_config_attempts = increment_32 t.set_config_attempts;
      } in
      if not (dev_addr == t.device_address) || not (number == t.interface_number)
      then record { handled = false; transport = counted }
      else record {
        handled = true;
        transport = record counted {
          configured = true;
          host = usb_host.set_config_complete dev_addr number t.host;
        };
      }

  -- What the class offers to its clients.
  instance abbrev pub host_usb_transport : UsbTransport (UsbHostTransport H)
  host_usb_transport = record {
    connected = λ t. t.configured;
    start_control = start_control;
    start_write = start_write;
    start_read = start_read;
    transfer_status = λ t. t.status;
    transferred = λ t. t.size_transferred;
    read_data = λ t. t.read_buffer;
    clear_transfer = clear_transfer;
    abort_transfer = abort_transfer;
  }
