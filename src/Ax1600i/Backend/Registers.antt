-- ===== src/Ax1600i/Backend/Registers.antt =====
-- Reads and writes of a register of the power supply, by src/psu/corsair_ax1600i/backend.cpp: three
-- exchanges for a read, two for a write.
use psu_usb_to_pmbus.Ax1600i.Protocol.{is_zero_reply, is_ok_reply}
use psu_usb_to_pmbus.Base.{List, [], false, if◌then◌else◌, ltb, not, ℕ, ◌&&◌, ◌+◌, ◌==◌, ◌∷◌}
use psu_usb_to_pmbus.UsbTransport.{UsbTransport}
use psu_usb_to_pmbus.Ax1600i.Backend.{
  Backend, Operation, Destination, recover_operation, complete_probe, next_32, is_read, is_write,
}
use psu_usb_to_pmbus.Ax1600i.Backend.Read.{complete_read, is_probe}
use psu_usb_to_pmbus.Ax1600i.Exchange.{
  begin_exchange, finish_exchange, retry_empty_exchange, service_exchange, exchange_failed,
  exchange_succeeded, reply,
}

abbrev pub inter_operation_delay_ms : ℕ
inter_operation_delay_ms = 100

-- The messages of the register protocol.
abbrev pub read_header : ℕ → ℕ → List ℕ
read_header reg size = 0x13 ∷ 0x03 ∷ 0x06 ∷ 0x01 ∷ 0x07 ∷ size ∷ reg ∷ []

abbrev pub write_request : ℕ → ℕ → List ℕ
write_request reg value = 0x13 ∷ 0x01 ∷ 0x04 ∷ 0x01 ∷ reg ∷ value ∷ []

abbrev pub trigger : List ℕ
trigger = 0x12 ∷ []

abbrev pub fetch : ℕ → List ℕ
fetch size = 0x08 ∷ 0x07 ∷ size ∷ []

module _ {T : Type 0} where
  unfoldable pub start_read_register : ℕ → ℕ → Destination → Backend T → Backend T
  start_read_register reg size destination b =
      let begun = begin_exchange (read_header reg size) b.exchange in
      if not begun.started then record b { exchange = begun.exchange } else record b {
        exchange = begun.exchange;
        operation = Operation.read_register;
        operation_stage = 0;
        register_length = size;
        destination = destination;
      }

  unfoldable pub start_write_register : ℕ → ℕ → Backend T → Backend T
  start_write_register reg value b =
      let begun = begin_exchange (write_request reg value) b.exchange in
      if not begun.started then record b { exchange = begun.exchange } else record b {
        exchange = begun.exchange;
        operation = Operation.write_register;
        operation_stage = 0;
        destination = Destination.nowhere;
      }

  -- `finish_exchange`, and the next message of the operation.
  unfoldable pub next_message : List ℕ → ℕ → Backend T → Backend T
  next_message payload stage b = record b {
    exchange = (begin_exchange payload (finish_exchange b.exchange)).exchange;
    operation_stage = stage;
  }

  -- The same message again if the reply was empty and retries are left, else something else.
  unfoldable pub retry_or : (Backend T → Backend T) → Backend T → Backend T
  retry_or otherwise b =
      let begun = retry_empty_exchange b.exchange in
      let retries = next_32 b.working.ax_empty_reply_retries in
      if begun.started
      then record b {
        exchange = begun.exchange;
        working = record (b.working) { ax_empty_reply_retries = retries };
      }
      else otherwise b

  abbrev pub count_failure : Backend T → Backend T
  count_failure b =
      let n = next_32 b.working.ax_exchange_failures in
      record b { working = record (b.working) { ax_exchange_failures = n } }

  abbrev pub count_header_mismatch : Backend T → Backend T
  count_header_mismatch b =
      let n = next_32 b.working.ax_header_ack_mismatches in
      record b { working = record (b.working) { ax_header_ack_mismatches = n } }

  abbrev pub count_trigger_mismatch : Backend T → Backend T
  count_trigger_mismatch b =
      let n = next_32 b.working.ax_trigger_ack_mismatches in
      record b { working = record (b.working) { ax_trigger_ack_mismatches = n } }

  abbrev pub end_operation : ℕ → Backend T → Backend T
  end_operation now_ms b = record b {
    exchange = finish_exchange b.exchange;
    operation = Operation.no_operation;
    next_action_ms = now_ms + inter_operation_delay_ms;
  }

module _ {T : Type 0} ⦃usb : UsbTransport T⦄ where
  -- The acknowledgement of a header, in a read and in a write.
  unfoldable pub header_answered : ℕ → Backend T → Backend T
  header_answered now_ms b =
      if not (is_zero_reply (reply b.exchange))
      then retry_or (λ b'. recover_operation now_ms (count_header_mismatch b')) b
      else next_message trigger 1 b

  unfoldable pub trigger_refused : ℕ → Backend T → Backend T
  trigger_refused now_ms b =
      let counted = count_trigger_mismatch b in
      recover_operation now_ms (
        if is_read b.operation && is_probe b.destination
        then complete_probe now_ms false counted
        else counted)

  unfoldable pub read_triggered : ℕ → Backend T → Backend T
  read_triggered now_ms b =
      if not (is_ok_reply (reply b.exchange))
      then retry_or (trigger_refused now_ms) b
      else next_message (fetch b.register_length) 2 b

  unfoldable pub finish_read : ℕ → Backend T → Backend T
  finish_read now_ms b =
      let completed = complete_read now_ms b in
      if not completed.done
      then recover_operation now_ms (count_failure completed.backend)
      else end_operation now_ms completed.backend

  unfoldable pub read_fetched : ℕ → Backend T → Backend T
  read_fetched now_ms b =
      if ltb b.exchange.response_size b.register_length
      then retry_or (finish_read now_ms) b
      else finish_read now_ms b

  unfoldable pub write_triggered : ℕ → Backend T → Backend T
  write_triggered now_ms b =
      if not (is_ok_reply (reply b.exchange))
      then retry_or (trigger_refused now_ms) b
      else record (end_operation now_ms b) { operation_failure_since_ms = 0 }

  -- What follows on a reply, by the operation and its stage.
  unfoldable pub advance : ℕ → Backend T → Backend T
  advance now_ms b =
      if b.operation_stage == 0
      then header_answered now_ms b
      else if not (is_read b.operation)
      then write_triggered now_ms b
      else if b.operation_stage == 1
      then read_triggered now_ms b
      else read_fetched now_ms b

  abbrev pub serve_exchange : Backend T → Backend T
  serve_exchange b =
      let serviced = service_exchange b.exchange b.transport in
      record b { exchange = serviced.exchange; transport = serviced.transport }

  unfoldable pub service_operation : ℕ → Backend T → Backend T
  service_operation now_ms b =
      let served = serve_exchange b in
      if not (is_read b.operation) && not (is_write b.operation)
      then b
      else if exchange_failed served.exchange.state
      then recover_operation now_ms (count_failure served)
      else if not (exchange_succeeded served.exchange.state)
      then served
      else advance now_ms served
