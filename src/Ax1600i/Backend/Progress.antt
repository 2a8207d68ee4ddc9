-- ===== src/Ax1600i/Backend/Progress.antt =====
-- How long an operation of src/psu/corsair_ax1600i/backend.cpp can take.
pub mod Service
pub mod Calls
use psu_usb_to_pmbus.Ax1600i.Backend.Invariant.Operations.{
  service_exchange-open, serve_exchange-IsBounded,
}
use psu_usb_to_pmbus.Ax1600i.Backend.Read.{complete_read}
use psu_usb_to_pmbus.Ax1600i.Backend.Invariant.{IsOperating, reset_link-phased}
use psu_usb_to_pmbus.Ax1600i.Protocol.{encode, is_zero_reply, is_ok_reply}
use psu_usb_to_pmbus.Ax1600i.Backend.Schedule.{is_busy}
use psu_usb_to_pmbus.Ax1600i.Backend.Registers.{
  retry_or, next_message, trigger_refused, end_operation, finish_read, advance, header_answered,
  read_triggered, read_fetched, write_triggered, trigger, fetch, count_header_mismatch,
  service_operation, serve_exchange, count_failure,
}
use psu_usb_to_pmbus.Base.{
  refl, ℕ, List, inl, inr, arith, ◌-◌, ◌+◌, ◌≡◌, ◌*◌, true, false, ◌⊎◌, length, ◌<◌, if_cases, ◌≤◌,
  ◌==◌, not, leb, subst, ltb, ◌&&◌,
}
use psu_usb_to_pmbus.UsbTransport.{UsbTransport}
use psu_usb_to_pmbus.Ax1600i.Backend.{
  Backend, LinkState, recover_operation, resume_link, reset_link, continuous_failure_reset_ms,
  is_read, publish, is_write,
}
use psu_usb_to_pmbus.Ax1600i.Exchange.{
  ExchangeState, Exchange, retry_empty_exchange, begin_exchange, transfer_timeout_ms, reply,
  collect_reply, visit, service_exchange, is_in_flight, exchange_failed, exchange_succeeded,
}

-- How many more messages the operation may send: four attempts at each of its stages.
abbrev pub attempts_left : {T : Type 0} → Backend T → ℕ
attempts_left b = (2 - b.operation_stage) * 4 + (3 - b.exchange.retry_count)

-- The time by which all these attempts are over.
abbrev pub horizon : {T : Type 0} → Backend T → ℕ
horizon b = b.exchange.deadline_ms + transfer_timeout_ms * attempts_left b

-- The operation has ended, and the next one is due later.
abbrev pub IsOver : {T : Type 0} → ℕ → Backend T → Type 0
IsOver now_ms b =
    (is_busy b.operation ≡ false) × (b.link_state ≡ LinkState.ready → now_ms < b.next_action_ms)

-- Another attempt has begun.
abbrev IsNext : {T : Type 0} → Backend T → Backend T → Type 0
IsNext b c =
    (is_busy c.operation ≡ true)
    × (c.exchange.deadline_ms ≡ b.exchange.current_time_ms + transfer_timeout_ms)
    × (attempts_left c < attempts_left b)
    × (c.link_state ≡ LinkState.ready)

retry_started :
    (x : Exchange)
    → (retry_empty_exchange x).started ≡ true
    → let y = (retry_empty_exchange x).exchange in
      (y.deadline_ms ≡ x.current_time_ms + transfer_timeout_ms)
      × (x.retry_count < 3)
      × (y.retry_count ≡ x.retry_count + 1)
unfolding retry_empty_exchange
retry_started x e = ground arith

not_ready :
    (now_ms next : ℕ) {link : LinkState}
    → (link ≡ LinkState.backoff) ⊎ (link ≡ LinkState.detached)
    → link ≡ LinkState.ready
    → now_ms < next
not_ready now_ms next h e = absurd (ground (arith, h, e))

pub collect_reply-keeps :
    (received : ℕ) (bytes : List ℕ) (x : Exchange)
    → let y = collect_reply received bytes x in
      (y.deadline_ms ≡ x.deadline_ms)
      × (y.retry_count ≡ x.retry_count)
      × (y.current_time_ms ≡ x.current_time_ms)
unfolding collect_reply
collect_reply-keeps received bytes x = ground arith

module _ {T : Type 0} where
  next_message-IsNext :
      (payload : List ℕ) {b : Backend T}
      → IsOperating b
      → length payload ≤ 62
      → b.operation_stage < 2
      → IsNext b (next_message payload (b.operation_stage + 1) b)
  unfolding next_message begin_exchange encode
  next_message-IsNext payload {b} h small s =
      ground (arith, h.linked, h.busy, h.bounded.placed.sized)

  retry_or-IsNext :
      (now_ms : ℕ) (otherwise : Backend T → Backend T) {b : Backend T}
      → IsOperating b
      → IsOver now_ms (otherwise b)
      → IsOver now_ms (retry_or otherwise b) ⊎ IsNext b (retry_or otherwise b)
  unfolding retry_or
  retry_or-IsNext now_ms otherwise {b} h over =
      if_cases (λ (c : Backend T). IsOver now_ms c ⊎ IsNext b c)
        (retry_empty_exchange b.exchange).started
        (λ e.
          let again = retry_started b.exchange e in
          inr (h.busy, again.0, omega (arith, again.1, again.2), h.linked))
        (λ _. inl over)

  end_operation-IsOver :
      (now_ms since : ℕ) (b : Backend T)
      → IsOver now_ms (record (end_operation now_ms b) { operation_failure_since_ms = since })
  end_operation-IsOver now_ms since b = (refl, λ _. omega arith)

module _ {T : Type 0} ⦃usb : UsbTransport T⦄ where
  reset_link-free : (now_ms : ℕ) (b : Backend T) → is_busy (reset_link now_ms b).operation ≡ false
  unfolding reset_link publish
  reset_link-free now_ms b = ground arith

  reset_link-IsOver : (now_ms : ℕ) (b : Backend T) → IsOver now_ms (reset_link now_ms b)
  reset_link-IsOver now_ms b = (
    reset_link-free now_ms b,
    not_ready now_ms (reset_link now_ms b).next_action_ms (reset_link-phased now_ms b),
  )

  resume_link-IsOver : (now_ms : ℕ) (b : Backend T) → IsOver now_ms (resume_link now_ms b)
  unfolding resume_link
  resume_link-IsOver now_ms b = (refl, λ _. omega arith)

  pub recover_operation-IsOver :
      (now_ms : ℕ) (b : Backend T) → IsOver now_ms (recover_operation now_ms b)
  unfolding recover_operation
  recover_operation-IsOver now_ms b =
      if_cases (λ (c : Backend T). IsOver now_ms c) (b.operation_failure_since_ms == 0)
        (λ _. resume_link-IsOver now_ms _)
        λ _.
          if_cases (λ (c : Backend T). IsOver now_ms c)
            (leb (b.operation_failure_since_ms + continuous_failure_reset_ms) now_ms)
            (λ _. reset_link-IsOver now_ms _) (λ _. resume_link-IsOver now_ms _)

  finish_read-IsOver : (now_ms : ℕ) (b : Backend T) → IsOver now_ms (finish_read now_ms b)
  unfolding finish_read
  finish_read-IsOver now_ms b =
      if_cases (λ (c : Backend T). IsOver now_ms c) (not (complete_read now_ms b).done)
        (λ _. recover_operation-IsOver now_ms _)
        (λ _.
          end_operation-IsOver now_ms (complete_read now_ms b).backend.operation_failure_since_ms
            (complete_read now_ms b).backend)

  trigger_refused-IsOver : (now_ms : ℕ) (b : Backend T) → IsOver now_ms (trigger_refused now_ms b)
  unfolding trigger_refused
  trigger_refused-IsOver now_ms b = recover_operation-IsOver now_ms _

  abbrev pub Moves : ℕ → Backend T → Backend T → Type 0
  Moves now_ms b c = IsOver now_ms c ⊎ IsNext b c

  pub advance-Moves :
      (now_ms : ℕ) {b : Backend T} → IsOperating b → Moves now_ms b (advance now_ms b)
  unfolding advance header_answered read_triggered read_fetched write_triggered
  advance-Moves now_ms {b} h =
      let retry = λ (otherwise : Backend T → Backend T) (over : IsOver now_ms (otherwise b)).
        retry_or-IsNext now_ms otherwise h over in
      if_cases (Moves now_ms b) (b.operation_stage == 0)
        (λ first.
          if_cases (Moves now_ms b) (not (is_zero_reply (reply b.exchange)))
            (λ _.
              retry (λ c. recover_operation now_ms (count_header_mismatch c))
                (recover_operation-IsOver now_ms _))
            (λ _. inr (stage_one first)))
        λ _.
          if_cases (Moves now_ms b) (not (is_read b.operation))
            (λ _.
              if_cases (Moves now_ms b) (not (is_ok_reply (reply b.exchange)))
                (λ _. retry (trigger_refused now_ms) (trigger_refused-IsOver now_ms b))
                (λ _. inl (end_operation-IsOver now_ms 0 b)))
            λ _.
              if_cases (Moves now_ms b) (b.operation_stage == 1)
                (λ second.
                  if_cases (Moves now_ms b) (not (is_ok_reply (reply b.exchange)))
                    (λ _. retry (trigger_refused now_ms) (trigger_refused-IsOver now_ms b))
                    (λ _. inr (stage_two second)))
                λ _.
                  if_cases (Moves now_ms b) (ltb b.exchange.response_size b.register_length)
                    (λ _. retry (finish_read now_ms) (finish_read-IsOver now_ms b))
                    (λ _. inl (finish_read-IsOver now_ms b))
    where
      stage_one : (b.operation_stage == 0) ≡ true → IsNext b (next_message trigger 1 b)
      stage_one e =
          subst (λ n. IsNext b (next_message trigger n b)) (ground arith)
            (next_message-IsNext trigger h (omega arith) (ground arith))

      stage_two :
          (b.operation_stage == 1) ≡ true → IsNext b (next_message (fetch b.register_length) 2 b)
      stage_two e =
          subst (λ n. IsNext b (next_message (fetch b.register_length) n b)) (ground arith)
            (next_message-IsNext (fetch b.register_length) h (omega arith) (ground arith))
