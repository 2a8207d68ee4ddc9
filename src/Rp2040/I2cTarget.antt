-- ===== src/Rp2040/I2cTarget.antt =====
-- src/platform/rp2040/i2c_target.cpp: transactions of the I2C peripheral, as its interrupt handler
-- and the main loop see them. The peripheral is what the events report: the bytes that arrived, a
-- request for a byte, the end of a transfer. An event and a critical section of the main loop run
-- without interruption.
pub mod Invariant
pub mod Transactions
pub mod Writes
pub mod Reads
pub mod Interleavings
use psu_usb_to_pmbus.Pmbus.Server.Read.{read}
use psu_usb_to_pmbus.Pmbus.Pec.{pec, pec_update}
use psu_usb_to_pmbus.Telemetry.Snapshot.{TelemetrySnapshot}
use psu_usb_to_pmbus.Float.{Libm}
use psu_usb_to_pmbus.Pmbus.Server.{PmbusServer, note_bad_pec}
use psu_usb_to_pmbus.Pmbus.Server.Write.{write, write_payload_is_well_formed}
use psu_usb_to_pmbus.Base.{
  Bool, List, Option, [], bit_or, drop, false, get_or, if◌then◌else◌, leb, ltb, none, not,
  replicate, set, some, take, true, ℕ, ◌%◌, ◌&&◌, ◌*◌, ◌+◌, ◌-◌, ◌==◌, ◌^◌, ◌||◌, ◌∷◌,
}

abbrev pub receive_capacity : ℕ
receive_capacity = 40

abbrev pub transmit_capacity : ℕ
transmit_capacity = 42

pub record I2cTarget : Type 0 where
  pub server : PmbusServer
  pub receive : List ℕ
  pub transmit : List ℕ
  pub receive_size : ℕ
  pub transmit_size : ℕ
  pub transmit_index : ℕ
  pub last_event_ms : ℕ
  pub read_active : Bool
  pub finish_pending : Bool

unfoldable pub reset_transaction : I2cTarget → I2cTarget
reset_transaction s = record s {
  receive_size = 0;
  transmit_size = 0;
  transmit_index = 0;
  read_active = false;
  finish_pending = false;
  last_event_ms = 0;
}

abbrev pub initial : PmbusServer → I2cTarget
initial server = record {
  server = server;
  receive = replicate receive_capacity 0;
  transmit = replicate transmit_capacity 0;
  receive_size = 0;
  transmit_size = 0;
  transmit_index = 0;
  last_event_ms = 0;
  read_active = false;
  finish_pending = false;
}

-- What `initialize` does to the state, behind the set-up of the pins and the bus.
abbrev pub initialize : I2cTarget → I2cTarget
initialize s = reset_transaction s

-- The address byte on the bus, for a write and for a read.
abbrev pub write_address : PmbusServer → ℕ
write_address server = server.address * 2 % 2 ^ 8

abbrev pub read_address : PmbusServer → ℕ
read_address server = bit_or (server.address * 2) 1 % 2 ^ 8

-- `transmit_[transmit_size_++] = value`.
abbrev pub transmit_byte : ℕ → I2cTarget → I2cTarget
transmit_byte value s = record s {
  transmit = set s.transmit s.transmit_size value;
  transmit_size = s.transmit_size + 1;
}

-- The loop that queues the first `left` bytes of a reply, from `i` on.
unfoldable pub transmit_all : List ℕ → I2cTarget → I2cTarget
transmit_all [] s = s
transmit_all (b ∷ bs) s = transmit_all bs (transmit_byte b s)

-- The bytes of the current write, as received.
abbrev pub received : I2cTarget → List ℕ
received s = take s.receive_size s.receive

module _ ⦃libm : Libm⦄ (t : TelemetrySnapshot) where
  unfoldable pub prepare_read : ℕ → I2cTarget → I2cTarget
  prepare_read now_ms s =
      let ready : I2cTarget = record s {
        transmit_size = 0;
        transmit_index = 0;
        read_active = true;
      } in
      if s.receive_size == 0
      then transmit_byte 0xff ready
      else (let request = take (s.receive_size - 1) (drop 1 s.receive) in
          let reply = read t now_ms s.server (get_or s.receive 0 0) request in
          let served : I2cTarget = record ready { server = reply.server } in
          let response = reply.response in
          if not response.supported
          then transmit_byte 0xff served
          else (let bytes = take response.size response.bytes in
              let addressed = pec_update 0 (write_address reply.server) in
              let requested = pec (received s) addressed in
              let turned = pec_update requested (read_address reply.server) in
              transmit_byte (pec bytes turned) (transmit_all bytes served)))

-- The commit of a write that carries at least one byte behind the command.
unfoldable pub commit : PmbusServer → List ℕ → ℕ → PmbusServer
commit server receive size =
    let crc = pec (take (size - 1) receive) (pec_update 0 (write_address server)) in
    let command = get_or receive 0 0 in
    let protected_payload = take (size - 2) (drop 1 receive) in
    let unprotected_payload = take (size - 1) (drop 1 receive) in
    if crc == get_or receive (size - 1) 0
    then (write server command protected_payload).server
    else if write_payload_is_well_formed command unprotected_payload
    then (write server command unprotected_payload).server
    else note_bad_pec server

unfoldable pub finish_transaction : I2cTarget → I2cTarget
finish_transaction s = reset_transaction (
    if not s.read_active && s.receive_size == 1
    then record s { server = (write s.server (get_or s.receive 0 0) []).server }
    else if not s.read_active && leb 2 s.receive_size
    then record s { server = commit s.server s.receive s.receive_size }
    else s)

-- A byte that does not fit is dropped.
unfoldable pub receive_byte : ℕ → I2cTarget → I2cTarget
receive_byte value s =
    if ltb s.receive_size receive_capacity
    then record s {
      receive = set s.receive s.receive_size value;
      receive_size = s.receive_size + 1;
    }
    else s

-- The loop that empties the receive queue.
unfoldable pub receive_all : List ℕ → I2cTarget → I2cTarget
receive_all [] s = s
receive_all (value ∷ rest) s = receive_all rest (receive_byte value s)

pub data Event : Type 0 where
  received_bytes : List ℕ → Event
  request finish : Event

-- The byte that the handler writes to the bus, if any.
pub record Handled : Type 0 where
  pub target : I2cTarget
  pub written : Option ℕ

-- The next queued byte, or 0xff behind the last.
unfoldable pub next_byte : I2cTarget → Handled
next_byte s =
    if ltb s.transmit_index s.transmit_size
    then record {
      target = record s { transmit_index = s.transmit_index + 1 };
      written = some (get_or s.transmit s.transmit_index 0);
    }
    else record { target = s; written = some 0xff }

module _ ⦃libm : Libm⦄ (t : TelemetrySnapshot) where
  unfoldable pub on_received : List ℕ → I2cTarget → Handled
  on_received bytes s = record {
    target = receive_all bytes (if s.finish_pending then finish_transaction s else s);
    written = none;
  }

  -- The first request of a read prepares the reply; every request takes the next byte of it.
  unfoldable pub on_request : I2cTarget → Handled
  on_request s =
      let open_read : I2cTarget = record s { finish_pending = false } in
      next_byte (if s.read_active then open_read else prepare_read t s.last_event_ms open_read)

  unfoldable pub on_finish : I2cTarget → Handled
  on_finish s =
      if s.read_active
      then record { target = finish_transaction s; written = none }
      else record { target = record s { finish_pending = true }; written = none }

  unfoldable pub event : ℕ → Event → I2cTarget → Handled
  event now_ms e s = dispatch e (record s { last_event_ms = now_ms })
    where
      dispatch : Event → I2cTarget → Handled
      dispatch (received_bytes bytes) s' = on_received bytes s'
      dispatch request s' = on_request s'
      dispatch finish s' = on_finish s'

abbrev pub commit_delay_ms : ℕ
commit_delay_ms = 2

abbrev pub transaction_timeout_ms : ℕ
transaction_timeout_ms = 25

-- What the main loop decides before it disables interrupts.
pub data Plan : Type 0 where
  commit_write restart_bus idle : Plan

unfoldable pub plan : ℕ → I2cTarget → Plan
plan now_ms s =
    if s.finish_pending && leb (s.last_event_ms + commit_delay_ms) now_ms
    then commit_write
    else if s.last_event_ms == 0
        || ltb now_ms s.last_event_ms
        || leb (now_ms - s.last_event_ms) transaction_timeout_ms
    then idle
    else restart_bus

-- The critical section. Events may have come between the plan and it.
unfoldable pub carry_out : Plan → I2cTarget → I2cTarget
carry_out commit_write s = if s.finish_pending then finish_transaction s else s
carry_out restart_bus s = reset_transaction s
carry_out idle s = s
