-- ===== src/Ax1600i/Backend/Progress/Service.antt =====
-- How long an operation of src/psu/corsair_ax1600i/backend.cpp can take: `service_operation`.
use psu_usb_to_pmbus.Ax1600i.Backend.Progress.{
  collect_reply-keeps, horizon, IsOver, Moves, recover_operation-IsOver, advance-Moves,
}
use psu_usb_to_pmbus.Ax1600i.Backend.Invariant.Operations.{
  service_exchange-open, serve_exchange-IsBounded,
}
use psu_usb_to_pmbus.Ax1600i.Backend.Invariant.{IsOperating}
use psu_usb_to_pmbus.Ax1600i.Backend.Schedule.{is_busy}
use psu_usb_to_pmbus.Ax1600i.Backend.Registers.{
  advance, service_operation, serve_exchange, count_failure,
}
use psu_usb_to_pmbus.Base.{ℕ, inl, inr, arith, ◌≡◌, true, ◌⊎◌, ◌<◌, if_cases, ◌≤◌, not, ◌&&◌}
use psu_usb_to_pmbus.UsbTransport.{UsbTransport}
use psu_usb_to_pmbus.Ax1600i.Backend.{Backend, LinkState, is_read, is_write}
use psu_usb_to_pmbus.Ax1600i.Exchange.{
  ExchangeState, Exchange, visit, service_exchange, is_in_flight, exchange_failed,
  exchange_succeeded,
}

module _ {T : Type 0} ⦃usb : UsbTransport T⦄ where
  visit-keeps :
      (state : ExchangeState) (x : Exchange) (t : T)
      → let y = (visit state x t).exchange in
        (y.deadline_ms ≡ x.deadline_ms)
        × (y.retry_count ≡ x.retry_count)
        × (y.current_time_ms ≡ x.current_time_ms)
  unfolding visit
  visit-keeps ExchangeState.wait_read x t =
      ground (arith, collect_reply-keeps (usb.transferred t) (usb.read_data t) x)
  visit-keeps state x t = ground arith

  -- Its times and its retries are not for the exchange itself to change.
  service_exchange-keeps :
      (x : Exchange) (t : T)
      → let y = (service_exchange x t).exchange in
        (y.deadline_ms ≡ x.deadline_ms)
        × (y.retry_count ≡ x.retry_count)
        × (y.current_time_ms ≡ x.current_time_ms)
  unfolding service_exchange
  service_exchange-keeps x t = ground (arith, visit-keeps x.state x t)

  service_exchange-late :
      (x : Exchange) (t : T)
      → is_in_flight x.state ≡ true
      → x.deadline_ms ≤ x.current_time_ms
      → exchange_failed (service_exchange x t).exchange.state ≡ true
  unfolding service_exchange
  service_exchange-late x t e late = ground arith

  -- The operation goes on, and comes no nearer to its horizon.
  abbrev pub GoesOn : Backend T → Backend T → Type 0
  GoesOn b c =
      (is_busy c.operation ≡ true)
      × (c.link_state ≡ LinkState.ready)
      × (b.exchange.current_time_ms < b.exchange.deadline_ms)
      × (horizon c ≤ horizon b)

  pub service_operation-progress :
      (now_ms : ℕ) {b : Backend T}
      → IsOperating b
      → is_in_flight b.exchange.state ≡ true
      → IsOver now_ms (service_operation now_ms b) ⊎ GoesOn b (service_operation now_ms b)
  unfolding service_operation
  service_operation-progress now_ms {b} h flying =
      let served = serve_exchange b in
      let x = b.exchange in
      let kept = service_exchange-keeps x b.transport in
      let opened = service_exchange-open x b.transport flying in
      let operating : IsOperating served = record {
        bounded = serve_exchange-IsBounded h.bounded;
        linked = h.linked;
        busy = h.busy;
      } in
      if_cases (λ (c : Backend T). IsOver now_ms c ⊎ GoesOn b c)
        (not (is_read b.operation) && not (is_write b.operation))
        (λ e. absurd (ground (arith, h.busy, e)))
        λ _.
          if_cases (λ (c : Backend T). IsOver now_ms c ⊎ GoesOn b c)
            (exchange_failed served.exchange.state)
            (λ _. inl (recover_operation-IsOver now_ms (count_failure served)))
            λ f.
              let early : x.current_time_ms < x.deadline_ms =
                ground (arith, service_exchange-late x b.transport flying) in
              if_cases (λ (c : Backend T). IsOver now_ms c ⊎ GoesOn b c)
                (not (exchange_succeeded served.exchange.state))
                (λ _. inr (h.busy, h.linked, early, omega (arith, kept)))
                (λ _. advanced early kept (advance-Moves now_ms operating))
    where
      advanced :
          b.exchange.current_time_ms < b.exchange.deadline_ms
          → ((service_exchange b.exchange b.transport).exchange.deadline_ms
              ≡ b.exchange.deadline_ms)
            × ((service_exchange b.exchange b.transport).exchange.retry_count
                ≡ b.exchange.retry_count)
            × ((service_exchange b.exchange b.transport).exchange.current_time_ms
                ≡ b.exchange.current_time_ms)
          → Moves now_ms (serve_exchange b) (advance now_ms (serve_exchange b))
          → IsOver now_ms (advance now_ms (serve_exchange b))
            ⊎ GoesOn b (advance now_ms (serve_exchange b))
      advanced early kept (inl over) = inl over
      advanced early kept (inr (busy, deadline, fewer, linked)) =
          inr (busy, linked, early, omega (arith, deadline, fewer, kept))
