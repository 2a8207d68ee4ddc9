-- ===== src/Rp2040/UsbHostTransport.antt =====
-- src/platform/rp2040/usb_transport.cpp and its header: the class driver of the power supply in the
-- USB host stack. The stack is a parameter, with a state of its own that each of its calls may
-- change; it calls the driver back only as events of their own.
pub mod Open
pub mod Transfers
pub mod Contract
pub mod Accepted
use psu_usb_to_pmbus.UsbTransport.{TransferStatus, Started, ControlRequest}
use psu_usb_to_pmbus.Base.{
  Bool, List, Option, [], false, if◌then◌else◌, none, not, replicate, some, ℕ, ◌==◌,
}

-- What an endpoint is to transfer: bytes that go out, or as many as there is room for that come in.
pub data Buffer : Type 0 where
  sends : List ℕ → Buffer
  receives : ℕ → Buffer

-- The calls of the USB host stack, and its code for a transfer that succeeded.
pub record UsbHost (H : Type 0) : Type 0 where
  pub vid_pid_get : ℕ → H → Option (ℕ × ℕ)
  pub edpt_open : ℕ → List ℕ → H → Started H
  pub control_xfer : ℕ → ControlRequest → H → Started H
  pub edpt_claim : ℕ → ℕ → H → Started H
  pub edpt_xfer : ℕ → ℕ → Buffer → H → Started H
  pub edpt_release : ℕ → ℕ → H → H
  pub edpt_abort_xfer : ℕ → ℕ → H → H
  pub set_config_complete : ℕ → ℕ → H → H
  pub xfer_success : ℕ

-- The members of the class, and the state of the stack. The member `read_buffer` points to the span
-- of a read; here it is what the last completed read has put there.
pub record UsbHostTransport (H : Type 0) : Type 0 where
  pub host : H
  pub device_address : ℕ
  pub interface_number : ℕ
  pub endpoint_in : ℕ
  pub endpoint_out : ℕ
  pub configured : Bool
  pub status : TransferStatus
  pub size_transferred : ℕ
  pub last_vid : ℕ
  pub last_pid : ℕ
  pub open_attempts : ℕ
  pub mounted_address : ℕ
  pub last_interface_number : ℕ
  pub last_interface_class : ℕ
  pub reject_code : ℕ
  pub host_configured : Bool
  pub host_initialized : Bool
  pub set_config_attempts : ℕ
  pub controls_started : ℕ
  pub controls_completed : ℕ
  pub writes_started : ℕ
  pub reads_started : ℕ
  pub reads_completed : ℕ
  pub last_read_size : ℕ
  pub last_read_bytes : List ℕ
  pub last_endpoint : ℕ
  pub last_result : ℕ
  pub active_endpoint : ℕ
  pub read_buffer : List ℕ

-- The initialisers of the members.
abbrev pub transport_default : {H : Type 0} → H → UsbHostTransport H
transport_default host = record {
  host = host;
  device_address = 0;
  interface_number = 0;
  endpoint_in = 0;
  endpoint_out = 0;
  configured = false;
  status = TransferStatus.idle;
  size_transferred = 0;
  last_vid = 0;
  last_pid = 0;
  open_attempts = 0;
  mounted_address = 0;
  last_interface_number = 0;
  last_interface_class = 0;
  reject_code = 0;
  host_configured = false;
  host_initialized = false;
  set_config_attempts = 0;
  controls_started = 0;
  controls_completed = 0;
  writes_started = 0;
  reads_started = 0;
  reads_completed = 0;
  last_read_size = 0;
  last_read_bytes = replicate 4 0;
  last_endpoint = 0;
  last_result = 0;
  active_endpoint = 0;
  read_buffer = [];
}

pub record UsbHostDiagnostics : Type 0 where
  pub vid : ℕ
  pub pid : ℕ
  pub open_attempts : ℕ
  pub mounted_address : ℕ
  pub interface_number : ℕ
  pub interface_class : ℕ
  pub reject_code : ℕ
  pub host_configured : Bool
  pub host_initialized : Bool
  pub transport_configured : Bool
  pub transfer_status : TransferStatus
  pub set_config_attempts : ℕ
  pub controls_started : ℕ
  pub controls_completed : ℕ
  pub writes_started : ℕ
  pub reads_started : ℕ
  pub reads_completed : ℕ
  pub last_read_size : ℕ
  pub last_read_bytes : List ℕ
  pub last_endpoint : ℕ
  pub last_result : ℕ

module _ {H : Type 0} where
  -- Both also report success.
  unfoldable pub driver_init : UsbHostTransport H → UsbHostTransport H
  driver_init t = record t { configured = false; status = TransferStatus.idle }

  unfoldable pub driver_deinit : UsbHostTransport H → UsbHostTransport H
  driver_deinit t = record t { configured = false; status = TransferStatus.idle }

  unfoldable pub driver_close : ℕ → UsbHostTransport H → UsbHostTransport H
  driver_close dev_addr t = if not (dev_addr == t.device_address) then t else record t {
    configured = false;
    device_address = 0;
    endpoint_in = 0;
    endpoint_out = 0;
    size_transferred = 0;
    status = TransferStatus.failed;
  }

  unfoldable pub note_unmount : ℕ → UsbHostTransport H → UsbHostTransport H
  note_unmount dev_addr t =
      if t.mounted_address == dev_addr then record t { mounted_address = 0 } else t

  unfoldable pub note_host_init : Bool → Bool → UsbHostTransport H → UsbHostTransport H
  note_host_init configured initialized t = record t {
    host_configured = configured;
    host_initialized = initialized;
  }

  abbrev pub diagnostics : UsbHostTransport H → UsbHostDiagnostics
  diagnostics t = record {
    vid = t.last_vid;
    pid = t.last_pid;
    open_attempts = t.open_attempts;
    mounted_address = t.mounted_address;
    interface_number = t.last_interface_number;
    interface_class = t.last_interface_class;
    reject_code = t.reject_code;
    host_configured = t.host_configured;
    host_initialized = t.host_initialized;
    transport_configured = t.configured;
    transfer_status = t.status;
    set_config_attempts = t.set_config_attempts;
    controls_started = t.controls_started;
    controls_completed = t.controls_completed;
    writes_started = t.writes_started;
    reads_started = t.reads_started;
    reads_completed = t.reads_completed;
    last_read_size = t.last_read_size;
    last_read_bytes = t.last_read_bytes;
    last_endpoint = t.last_endpoint;
    last_result = t.last_result;
  }

module _ {H : Type 0} ⦃usb_host : UsbHost H⦄ where
  -- The vendor and the product are kept where the stack knows them.
  unfoldable pub note_mount : ℕ → UsbHostTransport H → UsbHostTransport H
  note_mount dev_addr t =
      let mounted : UsbHostTransport H = record t { mounted_address = dev_addr } in
      elim (usb_host.vid_pid_get dev_addr t.host) [
        | none ↦ mounted
        | some (vid, pid) ↦ record mounted { last_vid = vid; last_pid = pid }
      ]
