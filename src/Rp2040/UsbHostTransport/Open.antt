-- ===== src/Rp2040/UsbHostTransport/Open.antt =====
-- `driver_open` of src/platform/rp2040/usb_transport.cpp: which interface of which device is the
-- power supply, by the descriptors of the device.
use psu_usb_to_pmbus.Base.{
  true, bit_and, some, none, zero, suc, ℕ, List, if◌then◌else◌, Option, get_or, Bool, leb, ◌%◌, not,
  ◌+◌, ltb, ◌==◌, ◌^◌, take, ◌&&◌, ◌||◌, drop, false,
}
use psu_usb_to_pmbus.Rp2040.UsbHostTransport.{UsbHost, UsbHostTransport}
use psu_usb_to_pmbus.Rp2040.UsbHostTransport.Transfers.{increment_32, on_host}

abbrev pub vendor_id : ℕ
vendor_id = 0x1b1c

abbrev pub product_id : ℕ
product_id = 0x1c11

abbrev pub interface : ℕ
interface = 0

abbrev pub bulk_out_endpoint : ℕ
bulk_out_endpoint = 0x02

abbrev pub bulk_in_endpoint : ℕ
bulk_in_endpoint = 0x82

-- The layout of descriptors in the USB standard: an interface descriptor and an endpoint descriptor
-- begin with their length and type.
abbrev pub interface_number_at : ℕ
interface_number_at = 2

abbrev pub endpoint_count_at : ℕ
endpoint_count_at = 4

abbrev pub interface_class_at : ℕ
interface_class_at = 5

abbrev pub is_endpoint : ℕ → Bool
is_endpoint descriptor_type = descriptor_type == 5

abbrev pub is_bulk : ℕ → Bool
is_bulk attributes = attributes % 4 == 2

abbrev pub is_in : ℕ → Bool
is_in address = not (bit_and address 0x80 == 0)

-- The variables of the loop. `descriptor` points at the byte after those consumed.
pub record Walk (H : Type 0) : Type 0 where
  pub transport : UsbHostTransport H
  pub consumed : ℕ
  pub endpoint_count : ℕ

-- A refusal returns 0 and leaves its code.
pub record Opened (H : Type 0) : Type 0 where
  pub consumed : ℕ
  pub transport : UsbHostTransport H

pub data Visit (H : Type 0) : Type 0 where
  rejected : UsbHostTransport H → Visit H
  passed : Walk H → Visit H

module _ {H : Type 0} where
  abbrev pub reject_with : ℕ → UsbHostTransport H → UsbHostTransport H
  reject_with code t = record t { reject_code = code }

  abbrev pub set_endpoint : ℕ → UsbHostTransport H → UsbHostTransport H
  set_endpoint address t =
      if is_in address
      then record t { endpoint_in = address }
      else record t { endpoint_out = address }

  abbrev pub note_open : List ℕ → UsbHostTransport H → UsbHostTransport H
  note_open bytes t = record t {
    open_attempts = increment_32 t.open_attempts;
    last_interface_number = get_or bytes interface_number_at 0;
    last_interface_class = get_or bytes interface_class_at 0;
    reject_code = 0;
  }

  abbrev pub note_device : ℕ × ℕ → UsbHostTransport H → UsbHostTransport H
  note_device device t = record t { last_vid = device.0; last_pid = device.1 }

  -- The variables before the loop.
  abbrev pub start : List ℕ → UsbHostTransport H → Walk H
  start bytes t = record {
    transport = record t { endpoint_in = 0; endpoint_out = 0 };
    consumed = get_or bytes 0 0;
    endpoint_count = 0;
  }

  -- The condition of the loop.
  abbrev pub goes_on : List ℕ → ℕ → Walk H → Bool
  goes_on bytes max_len w =
      ltb w.consumed max_len
      && leb (w.consumed + get_or bytes w.consumed 0) max_len
      && ltb w.endpoint_count (get_or bytes endpoint_count_at 0)

  -- The checks after the loop.
  unfoldable pub accept_device : ℕ → List ℕ → Walk H → Opened H
  accept_device dev_addr bytes w =
      let t = w.transport in
      if not (t.endpoint_in == bulk_in_endpoint) || not (t.endpoint_out == bulk_out_endpoint)
      then record { consumed = 0; transport = reject_with 6 t }
      else record {
        consumed = w.consumed;
        transport = record t {
          device_address = dev_addr;
          interface_number = get_or bytes interface_number_at 0;
          configured = false;
        };
      }

module _ {H : Type 0} ⦃usb_host : UsbHost H⦄ where
  -- An endpoint descriptor at the pointer.
  unfoldable pub open_endpoint : ℕ → List ℕ → Walk H → Visit H
  open_endpoint dev_addr bytes w =
      let t = w.transport in
      let address = get_or bytes (w.consumed + 2) 0 in
      let descriptor = take (get_or bytes w.consumed 0) (drop w.consumed bytes) in
      let opened = usb_host.edpt_open dev_addr descriptor t.host in
      if not (is_bulk (get_or bytes (w.consumed + 3) 0))
      then Visit.rejected (reject_with 5 t)
      else if not opened.accepted
      then Visit.rejected (reject_with 5 (on_host opened.transport t))
      else Visit.passed (record w {
        transport = set_endpoint address (on_host opened.transport t);
        endpoint_count = (w.endpoint_count + 1) % 2 ^ 8;
      })

  -- The body of the loop, before the pointer moves.
  unfoldable pub visit_descriptor : ℕ → List ℕ → Walk H → Visit H
  visit_descriptor dev_addr bytes w =
      if get_or bytes w.consumed 0 == 0
      then Visit.rejected (reject_with 4 w.transport)
      else if is_endpoint (get_or bytes (w.consumed + 1) 0)
      then open_endpoint dev_addr bytes w
      else Visit.passed w

  -- `none` if the fuel runs out.
  unfoldable pub open_endpoints : ℕ → ℕ → List ℕ → ℕ → Walk H → Option (Visit H)
  open_endpoints zero dev_addr bytes max_len w = none
  open_endpoints (suc fuel) dev_addr bytes max_len w = elim (goes_on bytes max_len w) [
    | false ↦ some (Visit.passed w)
    | true ↦ elim (visit_descriptor dev_addr bytes w) [
      | Visit.rejected t ↦ some (Visit.rejected t)
      | Visit.passed v ↦
          open_endpoints fuel dev_addr bytes max_len
            (record v { consumed = (v.consumed + get_or bytes v.consumed 0) % 2 ^ 16 })
    ]
  ]

  abbrev pub finish_open : ℕ → List ℕ → Visit H → Opened H
  finish_open dev_addr bytes (Visit.rejected t) = record { consumed = 0; transport = t }
  finish_open dev_addr bytes (Visit.passed w) = accept_device dev_addr bytes w

  -- The device and the interface are right: the descriptors behind the interface's.
  unfoldable pub open_interface : ℕ → List ℕ → ℕ → UsbHostTransport H → Option (Opened H)
  open_interface dev_addr bytes max_len t =
      elim (open_endpoints (max_len + 1) dev_addr bytes max_len (start bytes t)) [
        | none ↦ none
        | some result ↦ some (finish_open dev_addr bytes result)
      ]

  -- `bytes` are the descriptors from that of the interface on.
  unfoldable pub driver_open : ℕ → List ℕ → ℕ → UsbHostTransport H → Option (Opened H)
  driver_open dev_addr bytes max_len t =
      let noted = note_open bytes t in
      elim (usb_host.vid_pid_get dev_addr t.host) [
        | none ↦ some (record { consumed = 0; transport = reject_with 1 noted })
        | some device ↦
            let known = note_device device noted in
            if not (device.0 == vendor_id) || not (device.1 == product_id)
            then some (record { consumed = 0; transport = reject_with 2 known })
            else if not (get_or bytes interface_number_at 0 == interface)
            then some (record { consumed = 0; transport = reject_with 3 known })
            else open_interface dev_addr bytes max_len known
      ]
