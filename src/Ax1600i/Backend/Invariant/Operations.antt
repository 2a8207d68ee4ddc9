-- ===== src/Ax1600i/Backend/Invariant/Operations.antt =====
-- The invariant of `Backend` under `service_operation` of src/psu/corsair_ax1600i/backend.cpp.
use psu_usb_to_pmbus.Ax1600i.Backend.Schedule.{is_busy}
use psu_usb_to_pmbus.Ax1600i.Exchange.Invariant.{service_exchange-IsSized}
use psu_usb_to_pmbus.Ax1600i.Backend.Invariant.Replies.{advance-IsValid}
use psu_usb_to_pmbus.Ax1600i.Backend.Invariant.{IsValid, IsOperating, failed-IsValid}
use psu_usb_to_pmbus.Ax1600i.Backend.Bounds.{IsBounded}
use psu_usb_to_pmbus.Ax1600i.Backend.Registers.{service_operation, serve_exchange}
use psu_usb_to_pmbus.UsbTransport.{UsbTransport}
use psu_usb_to_pmbus.Base.{refl, ℕ, arith, List, ◌≡◌, false, if_cases, not, true, ◌&&◌}
use psu_usb_to_pmbus.Ax1600i.Backend.{Backend, LinkState, is_read, is_write}
use psu_usb_to_pmbus.Ax1600i.Exchange.{
  ExchangeState, service_exchange, is_idle, collect_reply, visit, Exchange, is_in_flight,
  exchange_failed, exchange_succeeded,
}

collect_reply-open :
    (received : ℕ) (bytes : List ℕ) (x : Exchange)
    → is_idle (collect_reply received bytes x).state ≡ false
unfolding collect_reply
collect_reply-open received bytes x = ground arith

pub in_flight_of :
    (s : ExchangeState)
    → is_idle s ≡ false
    → exchange_failed s ≡ false
    → not (exchange_succeeded s) ≡ true
    → is_in_flight s ≡ true
in_flight_of s h f c = ground arith

module _ {T : Type 0} ⦃usb : UsbTransport T⦄ where
  visit-open :
      (state : ExchangeState) (x : Exchange) (t : T)
      → x.state ≡ state
      → is_in_flight state ≡ true
      → is_idle (visit state x t).exchange.state ≡ false
  unfolding visit
  visit-open ExchangeState.wait_read x t e h =
      ground (arith, collect_reply-open (usb.transferred t) (usb.read_data t) x)
  visit-open state x t e h = ground arith

  -- An exchange in flight goes on, is complete, or has failed.
  pub service_exchange-open :
      (x : Exchange) (t : T)
      → is_in_flight x.state ≡ true
      → is_idle (service_exchange x t).exchange.state ≡ false
  unfolding service_exchange
  service_exchange-open x t h = ground (arith, visit-open x.state x t refl h)

  pub serve_exchange-IsBounded : {b : Backend T} → IsBounded b → IsBounded (serve_exchange b)
  serve_exchange-IsBounded {b} h =
      ground (arith, h, service_exchange-IsSized b.transport h.placed.sized)

  pub service_operation-IsValid :
      (now_ms : ℕ) {b : Backend T}
      → IsValid b
      → b.link_state ≡ LinkState.ready
      → IsValid (service_operation now_ms b)
  unfolding service_operation
  service_operation-IsValid now_ms {b} v linked =
      let served = serve_exchange b in
      let phase = rw linked at (v.phased) in
      let bounded = serve_exchange-IsBounded v.bounded in
      if_cases (λ (c : Backend T). IsValid c)
        (not (is_read b.operation) && not (is_write b.operation)) (λ _. v)
        λ e.
          let busy : is_busy b.operation ≡ true = ground arith in
          let opened : is_idle served.exchange.state ≡ false =
            service_exchange-open b.exchange b.transport (ground arith) in
          let operating : IsOperating served = record {
            bounded = bounded;
            linked = linked;
            busy = busy;
          } in
          if_cases (λ (c : Backend T). IsValid c) (exchange_failed served.exchange.state)
            (λ _. failed-IsValid now_ms operating)
            λ f.
              if_cases (λ (c : Backend T). IsValid c)
                (not (exchange_succeeded served.exchange.state))
                (λ s. record {
                  bounded = bounded;
                  phased =
                      rw (linked, busy, opened, in_flight_of served.exchange.state opened f s)
                        (refl, refl);
                })
                (λ _. advance-IsValid now_ms operating)
