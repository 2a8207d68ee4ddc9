-- ===== src/Ax1600i/Backend/Invariant/Replies.antt =====
-- The invariant of `Backend` under what follows on a reply, in src/psu/corsair_ax1600i/backend.cpp.
use psu_usb_to_pmbus.Ax1600i.Backend.Invariant.{
  IsOperating, IsValid, retry_or-IsValid, complete_probe-IsOperating, complete_read-IsOperating,
  operating-IsPhased, recover_operation-IsValid, failed-IsValid, next_message-IsValid,
  end_operation-IsValid,
}
use psu_usb_to_pmbus.Ax1600i.Protocol.{is_ok_reply, is_zero_reply}
use psu_usb_to_pmbus.UsbTransport.{UsbTransport}
use psu_usb_to_pmbus.Ax1600i.Backend.Registers.{
  trigger_refused, read_fetched, read_triggered, write_triggered, advance, finish_read,
  header_answered, count_header_mismatch, count_trigger_mismatch, trigger, fetch,
}
use psu_usb_to_pmbus.Ax1600i.Backend.Read.{complete_read, is_probe}
use psu_usb_to_pmbus.Ax1600i.Backend.Bounds.{IsBounded}
use psu_usb_to_pmbus.Base.{ℕ, arith, false, not, if_cases, ◌==◌, ltb, ◌&&◌}
use psu_usb_to_pmbus.Ax1600i.Backend.{Backend, recover_operation, is_read}
use psu_usb_to_pmbus.Ax1600i.Exchange.{reply}

module _ {T : Type 0} ⦃usb : UsbTransport T⦄ where
  header_answered-IsValid :
      (now_ms : ℕ) {b : Backend T} → IsOperating b → IsValid (header_answered now_ms b)
  unfolding header_answered
  header_answered-IsValid now_ms {b} h =
      let counted : IsBounded (count_header_mismatch b) = ground (arith, h.bounded) in
      if_cases (λ (c : Backend T). IsValid c) (not (is_zero_reply (reply b.exchange)))
        (λ _.
          retry_or-IsValid (λ c. recover_operation now_ms (count_header_mismatch c)) h.bounded
            (operating-IsPhased h) (recover_operation-IsValid now_ms counted h.linked))
        (λ _. next_message-IsValid trigger 1 h (omega arith) (omega arith))

  trigger_refused-IsValid :
      (now_ms : ℕ) {b : Backend T} → IsOperating b → IsValid (trigger_refused now_ms b)
  unfolding trigger_refused
  trigger_refused-IsValid now_ms {b} h =
      let counted : IsOperating (count_trigger_mismatch b) = record {
        bounded = ground (arith, h.bounded);
        linked = h.linked;
        busy = h.busy;
      } in
      let probed = complete_probe-IsOperating now_ms false counted in
      if_cases (λ (c : Backend T). IsValid (recover_operation now_ms c))
        (is_read b.operation && is_probe b.destination)
        (λ _. recover_operation-IsValid now_ms probed.bounded probed.linked)
        (λ _. recover_operation-IsValid now_ms counted.bounded counted.linked)

  read_triggered-IsValid :
      (now_ms : ℕ) {b : Backend T} → IsOperating b → IsValid (read_triggered now_ms b)
  unfolding read_triggered
  read_triggered-IsValid now_ms {b} h =
      if_cases (λ (c : Backend T). IsValid c) (not (is_ok_reply (reply b.exchange)))
        (λ _.
          retry_or-IsValid (trigger_refused now_ms) h.bounded (operating-IsPhased h)
            (trigger_refused-IsValid now_ms h))
        (λ _. next_message-IsValid (fetch b.register_length) 2 h (omega arith) (omega arith))

  finish_read-IsValid :
      (now_ms : ℕ) {b : Backend T} → IsOperating b → IsValid (finish_read now_ms b)
  unfolding finish_read
  finish_read-IsValid now_ms {b} h =
      let completed = complete_read-IsOperating now_ms h in
      if_cases (λ (c : Backend T). IsValid c) (not (complete_read now_ms b).done)
        (λ _. failed-IsValid now_ms completed) (λ _. end_operation-IsValid now_ms _ completed)

  read_fetched-IsValid :
      (now_ms : ℕ) {b : Backend T} → IsOperating b → IsValid (read_fetched now_ms b)
  unfolding read_fetched
  read_fetched-IsValid now_ms {b} h =
      if_cases (λ (c : Backend T). IsValid c) (ltb b.exchange.response_size b.register_length)
        (λ _.
          retry_or-IsValid (finish_read now_ms) h.bounded (operating-IsPhased h)
            (finish_read-IsValid now_ms h))
        (λ _. finish_read-IsValid now_ms h)

  write_triggered-IsValid :
      (now_ms : ℕ) {b : Backend T} → IsOperating b → IsValid (write_triggered now_ms b)
  unfolding write_triggered
  write_triggered-IsValid now_ms {b} h =
      if_cases (λ (c : Backend T). IsValid c) (not (is_ok_reply (reply b.exchange)))
        (λ _.
          retry_or-IsValid (trigger_refused now_ms) h.bounded (operating-IsPhased h)
            (trigger_refused-IsValid now_ms h))
        (λ _. end_operation-IsValid now_ms 0 h)

  pub advance-IsValid : (now_ms : ℕ) {b : Backend T} → IsOperating b → IsValid (advance now_ms b)
  unfolding advance
  advance-IsValid now_ms {b} h =
      if_cases (λ (c : Backend T). IsValid c) (b.operation_stage == 0)
        (λ _. header_answered-IsValid now_ms h)
        λ _.
          if_cases (λ (c : Backend T). IsValid c) (not (is_read b.operation))
            (λ _. write_triggered-IsValid now_ms h)
            λ _.
              if_cases (λ (c : Backend T). IsValid c) (b.operation_stage == 1)
                (λ _. read_triggered-IsValid now_ms h) (λ _. read_fetched-IsValid now_ms h)
