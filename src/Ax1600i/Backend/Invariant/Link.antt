-- ===== src/Ax1600i/Backend/Invariant/Link.antt =====
-- The invariant of `Backend` under `task` of src/psu/corsair_ax1600i/backend.cpp, over any history.
use psu_usb_to_pmbus.Ax1600i.Backend.Invariant.Walk.{schedule_next-IsValid}
use psu_usb_to_pmbus.Ax1600i.Protocol.{is_zero_reply}
use psu_usb_to_pmbus.Ax1600i.Backend.Invariant.Operations.{
  serve_exchange-IsBounded, service_exchange-open, in_flight_of, service_operation-IsValid,
}
use psu_usb_to_pmbus.Ax1600i.Exchange.Invariant.{begin_exchange-started, begin_exchange-IsSized}
use psu_usb_to_pmbus.Ax1600i.Backend.Registers.{serve_exchange, service_operation}
use psu_usb_to_pmbus.Ax1600i.Backend.Schedule.{is_busy}
use psu_usb_to_pmbus.Ax1600i.Backend.Task.{
  initialized, set_time, usb_xpress_open, await_initialize, await_control, send_initialize,
  initialize_message, control_done, control_request, visit_link, with_link, serve_ready, is_ready,
  task, is_detached, is_backoff,
}
use psu_usb_to_pmbus.Ax1600i.Backend.Invariant.{
  IsPhased, IsValid, reset_link-IsValid, retry_or-IsValid, reset_link-phased,
}
use psu_usb_to_pmbus.Ax1600i.Backend.Bounds.{IsBounded}
use psu_usb_to_pmbus.Base.{
  refl, ℕ, arith, ◌≡◌, get_or, false, if_cases, not, if◌then◌else◌, leb, Bool, true, ◌||◌, ◌&&◌,
}
use psu_usb_to_pmbus.UsbTransport.{UsbTransport, TransferStatus}
use psu_usb_to_pmbus.Ax1600i.Backend.{Backend, LinkState, publish, reset_link, Operation}
use psu_usb_to_pmbus.Ax1600i.Exchange.{exchange_failed, exchange_succeeded, reply, ExchangeState}
use psu_usb_to_pmbus.Ax1600i.Backend.Task.{
  open_control, open_link, await_control, send_initialize, await_initialize,
}

pub ready_of : (link : LinkState) → is_ready link ≡ true → link ≡ LinkState.ready
ready_of link e = ground arith

opens :
    (link : LinkState) (late : Bool) (stage : ℕ) (o : Operation) (s : ExchangeState)
    → (is_detached link || (is_backoff link && late)) ≡ true
    → IsPhased link stage o s
    → IsPhased LinkState.start_control stage o s
opens link late stage o s e p = ground (arith, p)

module _ {T : Type 0} where
  pub set_time-IsValid : (now_ms : ℕ) {b : Backend T} → IsValid b → IsValid (set_time now_ms b)
  set_time-IsValid now_ms v = record { bounded = ground (arith, v.bounded); phased = v.phased }

  open_link-IsValid : (now_ms : ℕ) {b : Backend T} → IsValid b → IsValid (open_link now_ms b)
  unfolding open_link
  open_link-IsValid now_ms {b} v =
      if_cases (λ (c : Backend T). IsValid c)
        (is_detached b.link_state || (is_backoff b.link_state && leb b.retry_at_ms now_ms))
        (λ e. record {
          bounded = ground (arith, v.bounded);
          phased =
              opens b.link_state (leb b.retry_at_ms now_ms) b.control_stage b.operation
                b.exchange.state e v.phased;
        })
        (λ _. v)

  initialized-IsValid :
      (now_ms : ℕ) {b : Backend T}
      → IsBounded b
      → is_busy b.operation ≡ false
      → IsValid (initialized now_ms b)
  unfolding initialized publish
  initialized-IsValid now_ms {b} h free =
      if_cases
        (λ (c : Backend T).
          IsValid (record c { link_state = LinkState.ready; next_action_ms = now_ms }))
        (not b.working.connected)
        (λ _. record { bounded = ground (arith, h); phased = rw free (refl, refl) })
        (λ _. record { bounded = ground (arith, h); phased = rw free (refl, refl) })

module _ {T : Type 0} ⦃usb : UsbTransport T⦄ where
  abbrev Phase : LinkState → Backend T → Type 0
  Phase link b = IsPhased link b.control_stage b.operation b.exchange.state

  open_control-IsValid :
      (now_ms : ℕ) {b : Backend T}
      → IsBounded b
      → b.link_state ≡ LinkState.start_control
      → Phase LinkState.start_control b
      → IsValid (open_control now_ms b)
  unfolding open_control
  open_control-IsValid now_ms {b} h e p =
      let request = get_or usb_xpress_open b.control_stage (control_request 0) in
      if_cases (λ (c : Backend T). IsValid c) (usb.start_control request b.transport).accepted
        (λ _. record { bounded = ground (arith, h); phased = p })
        (λ _. record { bounded = ground (arith, h); phased = rw e p })

  await_control-IsValid :
      (now_ms : ℕ) {b : Backend T}
      → IsBounded b
      → b.link_state ≡ LinkState.wait_control
      → Phase LinkState.wait_control b
      → IsValid (await_control now_ms b)
  unfolding await_control
  await_control-IsValid now_ms {b} h e p =
      let reset = reset_link-IsValid now_ms h in
      let waited : IsValid (if leb b.control_deadline_ms now_ms then reset_link now_ms b else b) =
        if_cases (λ (c : Backend T). IsValid c) (leb b.control_deadline_ms now_ms) (λ _. reset)
          (λ _. record { bounded = h; phased = rw e p }) in
      elim (usb.transfer_status b.transport)
        as (λ s. IsValid (elim s [
          | TransferStatus.failed ↦ reset_link now_ms b
          | TransferStatus.complete ↦ control_done b
          | TransferStatus.idle ↦
              if leb b.control_deadline_ms now_ms then reset_link now_ms b else b
          | TransferStatus.busy ↦
              if leb b.control_deadline_ms now_ms then reset_link now_ms b else b
        ])) [
          | TransferStatus.failed ↦ reset
          | TransferStatus.complete ↦ record {
            bounded = ground (arith, h);
            phased = ground (arith, p);
          }
          | TransferStatus.idle ↦ waited
          | TransferStatus.busy ↦ waited
        ]

  send_initialize-IsValid :
      {b : Backend T}
      → IsBounded b
      → b.link_state ≡ LinkState.start_initialize
      → Phase LinkState.start_initialize b
      → IsValid (send_initialize b)
  unfolding send_initialize
  send_initialize-IsValid {b} h e p =
      let begun = begin_exchange-started initialize_message h.placed.sized p.1 (omega arith) in
      let sized = begin_exchange-IsSized initialize_message h.placed.sized in
      rw (begun.0)
        record { bounded = ground (arith, h, sized); phased = rw (p.0, begun.1) (refl, refl) }

  await_initialize-IsValid :
      (now_ms : ℕ) {b : Backend T}
      → IsBounded b
      → b.link_state ≡ LinkState.wait_initialize
      → Phase LinkState.wait_initialize b
      → IsValid (await_initialize now_ms b)
  unfolding await_initialize
  await_initialize-IsValid now_ms {b} h e p =
      let served = serve_exchange b in
      let bounded = serve_exchange-IsBounded h in
      let opened = service_exchange-open b.exchange b.transport p.1 in
      if_cases (λ (c : Backend T). IsValid c) (exchange_failed served.exchange.state)
        (λ _. reset_link-IsValid now_ms bounded)
        λ f.
          if_cases (λ (c : Backend T). IsValid c) (not (exchange_succeeded served.exchange.state))
            (λ s. record {
              bounded = bounded;
              phased = rw e (p.0, in_flight_of served.exchange.state opened f s);
            })
            λ _.
              if_cases (λ (c : Backend T). IsValid c) (not (is_zero_reply (reply served.exchange)))
                (λ _.
                  retry_or-IsValid (reset_link now_ms) bounded (rw e (p.0, refl))
                    (reset_link-IsValid now_ms bounded))
                (λ _. initialized-IsValid now_ms bounded p.0)

  serve_ready-IsValid :
      (now_ms : ℕ) {b : Backend T}
      → IsValid b
      → b.link_state ≡ LinkState.ready
      → IsValid (serve_ready now_ms b)
  unfolding serve_ready
  serve_ready-IsValid now_ms {b} v e =
      let served = service_operation now_ms b in
      let valid = service_operation-IsValid now_ms v e in
      if_cases (λ (c : Backend T). IsValid c) (is_ready served.link_state)
        (λ r. schedule_next-IsValid now_ms valid (ready_of served.link_state r)) (λ _. valid)

  visit_link-IsValid :
      (link : LinkState) (now_ms : ℕ) {b : Backend T}
      → b.link_state ≡ link
      → IsValid b
      → IsValid (visit_link link now_ms b)
  unfolding visit_link
  visit_link-IsValid LinkState.start_control now_ms e v =
      open_control-IsValid now_ms v.bounded e (rw e at (v.phased))
  visit_link-IsValid LinkState.wait_control now_ms e v =
      await_control-IsValid now_ms v.bounded e (rw e at (v.phased))
  visit_link-IsValid LinkState.start_initialize now_ms e v =
      send_initialize-IsValid v.bounded e (rw e at (v.phased))
  visit_link-IsValid LinkState.wait_initialize now_ms e v =
      await_initialize-IsValid now_ms v.bounded e (rw e at (v.phased))
  visit_link-IsValid LinkState.ready now_ms e v = serve_ready-IsValid now_ms v e
  visit_link-IsValid link now_ms e v = v

  detach-IsValid :
      (now_ms : ℕ) {b : Backend T}
      → IsBounded b
      → IsValid (with_link LinkState.detached (reset_link now_ms b))
  detach-IsValid now_ms {b} h =
      let reset = reset_link-IsValid now_ms h in
      record {
        bounded = ground (arith, reset.bounded);
        phased = ground (arith, reset.phased, reset_link-phased now_ms b);
      }

  pub task-IsValid : (now_ms : ℕ) {b : Backend T} → IsValid b → IsValid (task now_ms b)
  unfolding task
  task-IsValid now_ms {b} v =
      let timed = set_time-IsValid now_ms v in
      let opened = open_link now_ms (set_time now_ms b) in
      if_cases (λ (c : Backend T). IsValid c) (not (usb.connected b.transport))
        (λ _.
          if_cases (λ (c : Backend T). IsValid c)
            (not (is_detached b.link_state) || b.working.connected)
            (λ _. detach-IsValid now_ms timed.bounded) (λ _. timed))
        (λ _. visit_link-IsValid opened.link_state now_ms refl (open_link-IsValid now_ms timed))
