-- ===== src/Ax1600i/Backend/Shown/Replies.antt =====
-- Whether what src/psu/corsair_ax1600i/backend.cpp has published agrees with its link: the
-- operations.
use psu_usb_to_pmbus.Ax1600i.Protocol.{is_zero_reply, is_ok_reply}
use psu_usb_to_pmbus.Ax1600i.Exchange.{
  retry_empty_exchange, reply, exchange_failed, exchange_succeeded,
}
use psu_usb_to_pmbus.Ax1600i.Backend.Read.{complete_read, is_probe}
use psu_usb_to_pmbus.Ax1600i.Backend.Shown.{
  IsShown, IsLinked, IsSilent, silent-IsLinked, silent-IsShown, complete_read-IsLinked,
  complete_probe-IsLinked,
}
use psu_usb_to_pmbus.Telemetry.Snapshot.{TelemetrySnapshot}
use psu_usb_to_pmbus.UsbTransport.{UsbTransport}
use psu_usb_to_pmbus.Base.{arith, false, List, ℕ, if_cases, not, ◌==◌, leb, ◌&&◌, ◌+◌, ltb}
use psu_usb_to_pmbus.Ax1600i.Backend.{
  Backend, publish, reset_link, recover_operation, resume_link, next_32, is_read,
  continuous_failure_reset_ms, is_write,
}
use psu_usb_to_pmbus.Ax1600i.Backend.Registers.{
  next_message, retry_or, trigger_refused, finish_read, header_answered, read_triggered,
  read_fetched, write_triggered, advance, service_operation, serve_exchange, end_operation,
  count_failure, count_trigger_mismatch, count_header_mismatch, trigger, fetch,
}

module _ {T : Type 0} where
  end_operation-IsSilent :
      (now_ms since : ℕ) (b : Backend T)
      → IsSilent b (record (end_operation now_ms b) { operation_failure_since_ms = since })
  end_operation-IsSilent now_ms since b = ground arith

  next_message-IsSilent :
      (payload : List ℕ) (stage : ℕ) (b : Backend T) → IsSilent b (next_message payload stage b)
  unfolding next_message
  next_message-IsSilent payload stage b = ground arith

  pub retry_or-IsShown :
      (otherwise : Backend T → Backend T) {stored : TelemetrySnapshot} {b : Backend T}
      → IsShown stored b
      → IsShown stored (otherwise b)
      → IsShown stored (retry_or otherwise b)
  unfolding retry_or
  retry_or-IsShown otherwise {stored} {b} h other =
      if_cases (λ (c : Backend T). IsShown stored c) (retry_empty_exchange b.exchange).started
        (λ _. silent-IsShown (ground arith) h) (λ _. other)

module _ {T : Type 0} ⦃usb : UsbTransport T⦄ where
  pub served-IsSilent : (b : Backend T) → IsSilent b (serve_exchange b)
  served-IsSilent b = ground arith

module _ {T : Type 0} ⦃usb : UsbTransport T⦄ {stored : TelemetrySnapshot} where
  pub reset_link-IsShown :
      (now_ms : ℕ) {b : Backend T} → IsShown stored b → IsShown stored (reset_link now_ms b)
  unfolding reset_link publish
  reset_link-IsShown now_ms h = ground (arith, h)

  recover_operation-IsShown :
      (now_ms : ℕ) {b : Backend T} → IsShown stored b → IsShown stored (recover_operation now_ms b)
  unfolding recover_operation resume_link
  recover_operation-IsShown now_ms {b} h =
      let counted : Backend T = record b {
        working = record (b.working) { ax_local_resyncs = next_32 b.working.ax_local_resyncs };
      } in
      let kept : IsShown stored counted = silent-IsShown (ground arith) h in
      if_cases (λ (c : Backend T). IsShown stored c) (b.operation_failure_since_ms == 0)
        (λ _. silent-IsShown (ground arith) h)
        λ _.
          if_cases (λ (c : Backend T). IsShown stored c)
            (leb (b.operation_failure_since_ms + continuous_failure_reset_ms) now_ms)
            (λ _. reset_link-IsShown now_ms kept) (λ _. silent-IsShown (ground arith) h)

  failed-IsShown :
      (now_ms : ℕ) {b : Backend T}
      → IsShown stored b
      → IsShown stored (recover_operation now_ms (count_failure b))
  failed-IsShown now_ms {b} h =
      recover_operation-IsShown now_ms (silent-IsShown {c = count_failure b} (ground arith) h)

  trigger_refused-IsShown :
      (now_ms : ℕ) {b : Backend T} → IsLinked stored b → IsShown stored (trigger_refused now_ms b)
  unfolding trigger_refused
  trigger_refused-IsShown now_ms {b} h =
      let counted = silent-IsLinked {c = count_trigger_mismatch b} (ground arith) h in
      if_cases (λ (c : Backend T). IsShown stored (recover_operation now_ms c))
        (is_read b.operation && is_probe b.destination)
        (λ _. recover_operation-IsShown now_ms (complete_probe-IsLinked now_ms false counted).shown)
        (λ _. recover_operation-IsShown now_ms counted.shown)

  finish_read-IsShown :
      (now_ms : ℕ) {b : Backend T} → IsLinked stored b → IsShown stored (finish_read now_ms b)
  unfolding finish_read
  finish_read-IsShown now_ms {b} h =
      let completed = complete_read now_ms b in
      let shown = (complete_read-IsLinked now_ms h).shown in
      if_cases (λ (c : Backend T). IsShown stored c) (not completed.done)
        (λ _. failed-IsShown now_ms shown)
        (λ _. silent-IsShown (end_operation-IsSilent now_ms _ completed.backend) shown)

  advance-IsShown :
      (now_ms : ℕ) {b : Backend T} → IsLinked stored b → IsShown stored (advance now_ms b)
  unfolding advance header_answered read_triggered read_fetched write_triggered
  advance-IsShown now_ms {b} h =
      let Kept = λ (c : Backend T). IsShown stored c in
      let next = λ (payload : List ℕ) (stage : ℕ).
        silent-IsShown (next_message-IsSilent payload stage b) h.shown in
      let retry = λ (otherwise : Backend T → Backend T) (other : IsShown stored (otherwise b)).
        retry_or-IsShown otherwise h.shown other in
      if_cases Kept (b.operation_stage == 0)
        (λ _.
          if_cases Kept (not (is_zero_reply (reply b.exchange)))
            (λ _.
              retry (λ c. recover_operation now_ms (count_header_mismatch c))
                (recover_operation-IsShown now_ms
                  (silent-IsShown {c = count_header_mismatch b} (ground arith) h.shown)))
            (λ _. next trigger 1))
        λ _.
          if_cases Kept (not (is_read b.operation))
            (λ _.
              if_cases Kept (not (is_ok_reply (reply b.exchange)))
                (λ _. retry (trigger_refused now_ms) (trigger_refused-IsShown now_ms h))
                (λ _. silent-IsShown (end_operation-IsSilent now_ms 0 b) h.shown))
            λ _.
              if_cases Kept (b.operation_stage == 1)
                (λ _.
                  if_cases Kept (not (is_ok_reply (reply b.exchange)))
                    (λ _. retry (trigger_refused now_ms) (trigger_refused-IsShown now_ms h))
                    (λ _. next (fetch b.register_length) 2))
                λ _.
                  if_cases Kept (ltb b.exchange.response_size b.register_length)
                    (λ _. retry (finish_read now_ms) (finish_read-IsShown now_ms h))
                    (λ _. finish_read-IsShown now_ms h)

  pub service_operation-IsShown :
      (now_ms : ℕ) {b : Backend T} → IsLinked stored b → IsShown stored (service_operation now_ms b)
  unfolding service_operation
  service_operation-IsShown now_ms {b} h =
      let Kept = λ (c : Backend T). IsShown stored c in
      let served = serve_exchange b in
      let linked = silent-IsLinked (served-IsSilent b) h in
      if_cases Kept (not (is_read b.operation) && not (is_write b.operation)) (λ _. h.shown)
        λ _.
          if_cases Kept (exchange_failed served.exchange.state)
            (λ _. failed-IsShown now_ms linked.shown)
            λ _.
              if_cases Kept (not (exchange_succeeded served.exchange.state)) (λ _. linked.shown)
                (λ _. advance-IsShown now_ms linked)
