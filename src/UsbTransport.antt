-- ===== src/UsbTransport.antt =====
-- include/psu_usb_to_pmbus/platform/usb_transport.hpp: the USB transport as its clients see it.
-- An implementation keeps a state of its own. A client reads a span that it gave to `start_read`
-- only once the transfer is complete: `read_data` is what stands in it then.
use psu_usb_to_pmbus.Base.{ℕ, Bool, List, true, false, ◌≡◌, ◌⊎◌}

pub data TransferStatus : Type 0 where
  idle busy complete failed : TransferStatus

pub record ControlRequest : Type 0 where
  pub request_type : ℕ
  pub request : ℕ
  pub value : ℕ
  pub index : ℕ

-- An operation with a result and the state after it.
pub record Started (T : Type 0) : Type 0 where
  pub accepted : Bool
  pub transport : T

pub record UsbTransport (T : Type 0) : Type 0 where
  pub connected : T → Bool
  pub start_control : ControlRequest → T → Started T
  pub start_write : List ℕ → T → Started T
  pub start_read : ℕ → T → Started T
  pub transfer_status : T → TransferStatus
  pub transferred : T → ℕ
  pub read_data : T → List ℕ
  pub clear_transfer : T → T
  pub abort_transfer : T → T

-- A start is accepted only on a connected transport that is idle, which is busy from then on; a
-- refused start changes neither.
abbrev pub Starts : {T : Type 0} → UsbTransport T → T → Started T → Type 0
Starts usb t started =
    (usb.connected started.transport ≡ usb.connected t)
    × (((started.accepted ≡ true)
          × (usb.connected t ≡ true)
          × (usb.transfer_status t ≡ TransferStatus.idle)
          × (usb.transfer_status started.transport ≡ TransferStatus.busy))
        ⊎ ((started.accepted ≡ false)
            × (usb.transfer_status started.transport ≡ usb.transfer_status t)))

-- The end of a transfer, which leaves the transport idle.
abbrev pub Stops : {T : Type 0} → UsbTransport T → T → T → Type 0
Stops usb t stopped =
    (usb.connected stopped ≡ usb.connected t)
    × (usb.transfer_status stopped ≡ TransferStatus.idle)
    × (usb.transferred stopped ≡ 0)

-- What a client may rely on.
pub record IsTransport {T : Type 0} (usb : UsbTransport T) : Type 0 where
  pub control_starts :
      (request : ControlRequest) (t : T) → Starts usb t (usb.start_control request t)
  pub write_starts : (bytes : List ℕ) (t : T) → Starts usb t (usb.start_write bytes t)
  pub read_starts : (size : ℕ) (t : T) → Starts usb t (usb.start_read size t)
  pub clear_stops : (t : T) → Stops usb t (usb.clear_transfer t)
  pub abort_stops : (t : T) → Stops usb t (usb.abort_transfer t)
