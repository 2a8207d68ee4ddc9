-- ===== src/Ax1600i/Backend/Invariant.antt =====
-- The states of the link, of the operation and of the exchange that go together, under every
-- function of src/psu/corsair_ax1600i/backend.cpp.
pub mod Replies
pub mod Operations
pub mod Walk
pub mod Link
use psu_usb_to_pmbus.Ax1600i.Protocol.{is_ok_reply, is_zero_reply}
use psu_usb_to_pmbus.UsbTransport.{UsbTransport}
use psu_usb_to_pmbus.Ax1600i.Exchange.Invariant.{
  with_state-IsSized, begin_exchange-started, begin_exchange-IsSized, retry_empty_exchange-IsSized,
}
use psu_usb_to_pmbus.Ax1600i.Backend.Bounds.Read.{complete_read-IsBounded}
use psu_usb_to_pmbus.Pmbus.Linear.{decode_linear11}
use psu_usb_to_pmbus.Float.{Float}
use psu_usb_to_pmbus.Ax1600i.Backend.Schedule.{is_busy}
use psu_usb_to_pmbus.Ax1600i.Backend.Registers.{
  next_message, retry_or, end_operation, count_failure, trigger_refused, read_fetched,
  read_triggered, write_triggered, advance, finish_read, header_answered, count_header_mismatch,
  count_trigger_mismatch, trigger, fetch,
}
use psu_usb_to_pmbus.Ax1600i.Backend.Read.{
  store_value, complete_read, show_read, store_model, reply_word, is_probe,
}
use psu_usb_to_pmbus.Ax1600i.Backend.Bounds.{
  IsBounded, complete_probe-IsBounded, resume_link-IsBounded, reset_link-IsBounded,
}
use psu_usb_to_pmbus.Base.{
  refl, ℕ, arith, Bool, List, ◌≡◌, false, true, length, ◌≤◌, not, ◌<◌, if_cases, ◌⊎◌, ◌==◌, ltb,
  leb, ◌+◌, ◌&&◌,
}
use psu_usb_to_pmbus.Ax1600i.Backend.{
  Backend, LinkState, Operation, publish, complete_probe, Destination, recover_operation,
  resume_link, reset_link, next_32, is_read, continuous_failure_reset_ms,
}
use psu_usb_to_pmbus.Ax1600i.Exchange.{
  ExchangeState, is_in_flight, is_idle, finish_exchange, retry_empty_exchange, Exchange, reply,
}

-- Only an initialized link carries operations; an exchange is in flight exactly during one, and
-- during the initialization.
abbrev pub IsPhased : LinkState → ℕ → Operation → ExchangeState → Type 0
IsPhased LinkState.start_initialize stage o s = (is_busy o ≡ false) × (s ≡ ExchangeState.idle)
IsPhased LinkState.wait_initialize stage o s = (is_busy o ≡ false) × (is_in_flight s ≡ true)
IsPhased LinkState.ready stage o s = (is_busy o ≡ is_in_flight s) × (is_busy o ≡ not (is_idle s))
IsPhased _ stage o s = (stage < 3) × (is_busy o ≡ false) × (s ≡ ExchangeState.idle)

pub record IsValid {T : Type 0} (b : Backend T) : Type 0 where
  pub bounded : IsBounded b
  pub phased : IsPhased b.link_state b.control_stage b.operation b.exchange.state

-- The link is initialized and an operation is under way.
pub record IsOperating {T : Type 0} (b : Backend T) : Type 0 where
  pub bounded : IsBounded b
  pub linked : b.link_state ≡ LinkState.ready
  pub busy : is_busy b.operation ≡ true

retried :
    (x : Exchange)
    → (retry_empty_exchange x).started ≡ true
    → (retry_empty_exchange x).exchange.state ≡ ExchangeState.start_write
unfolding retry_empty_exchange
retried x e = ground arith

module _ {T : Type 0} where
  store_value-keeps :
      (d : Destination) (raw : ℕ) (value : Float) (b : Backend T)
      → ((store_value d raw value b).link_state ≡ b.link_state)
        × ((store_value d raw value b).operation ≡ b.operation)
  unfolding store_value
  store_value-keeps Destination.native_rail_power raw value b = ground arith
  store_value-keeps d raw value b = (refl, refl)

  pub complete_probe-IsOperating :
      (now_ms : ℕ) (available : Bool) {b : Backend T}
      → IsOperating b
      → IsOperating (complete_probe now_ms available b)
  unfolding complete_probe publish
  complete_probe-IsOperating now_ms available {b} h = record {
    bounded = complete_probe-IsBounded now_ms available h.bounded;
    linked = ground (arith, h.linked);
    busy = ground (arith, h.busy);
  }

  pub complete_read-IsOperating :
      (now_ms : ℕ) {b : Backend T} → IsOperating b → IsOperating (complete_read now_ms b).backend
  unfolding complete_read complete_probe show_read store_model publish
  complete_read-IsOperating now_ms {b} h =
      let stored =
        store_value-keeps b.destination (reply_word b) (decode_linear11 (reply_word b)) b in
      record {
        bounded = complete_read-IsBounded now_ms h.bounded;
        linked = ground (arith, h.linked, stored);
        busy = ground (arith, h.busy, stored);
      }

  pub next_message-IsValid :
      (payload : List ℕ) (stage : ℕ) {b : Backend T}
      → IsOperating b
      → length payload ≤ 62
      → stage ≤ 2
      → IsValid (next_message payload stage b)
  unfolding next_message
  next_message-IsValid payload stage {b} h small s =
      let x = finish_exchange b.exchange in
      let sized = with_state-IsSized ExchangeState.idle h.bounded.placed.sized in
      let begun = begin_exchange-started payload sized refl small in
      record {
        bounded = ground (arith, h.bounded, begin_exchange-IsSized payload sized);
        phased = rw (h.linked, h.busy, begun.1) (refl, refl);
      }

  -- A retry is in place wherever an exchange may be in flight.
  pub retry_or-IsValid :
      (otherwise : Backend T → Backend T) {b : Backend T}
      → IsBounded b
      → IsPhased b.link_state b.control_stage b.operation ExchangeState.start_write
      → IsValid (otherwise b)
      → IsValid (retry_or otherwise b)
  unfolding retry_or
  retry_or-IsValid otherwise {b} h phased other =
      if_cases (λ (c : Backend T). IsValid c) (retry_empty_exchange b.exchange).started
        (λ e. record {
          bounded = ground (arith, h, retry_empty_exchange-IsSized h.placed.sized);
          phased = rw (retried b.exchange e) phased;
        })
        (λ _. other)

  pub operating-IsPhased :
      {b : Backend T}
      → IsOperating b
      → IsPhased b.link_state b.control_stage b.operation ExchangeState.start_write
  operating-IsPhased h = rw (h.linked, h.busy) (refl, refl)

  pub end_operation-IsValid :
      (now_ms since : ℕ) {b : Backend T}
      → IsOperating b
      → IsValid (record (end_operation now_ms b) { operation_failure_since_ms = since })
  end_operation-IsValid now_ms since {b} h = record {
    bounded = ground (arith, h.bounded);
    phased = rw (h.linked) (refl, refl);
  }

module _ {T : Type 0} ⦃usb : UsbTransport T⦄ where
  pub reset_link-phased :
      (now_ms : ℕ) (b : Backend T)
      → ((reset_link now_ms b).link_state ≡ LinkState.backoff)
        ⊎ ((reset_link now_ms b).link_state ≡ LinkState.detached)
  unfolding reset_link publish
  reset_link-phased now_ms b = ground arith

  pub reset_link-IsValid :
      (now_ms : ℕ) {b : Backend T} → IsBounded b → IsValid (reset_link now_ms b)
  unfolding reset_link publish
  reset_link-IsValid now_ms {b} h = record {
    bounded = reset_link-IsBounded now_ms h;
    phased = ground arith;
  }

  pub resume_link-IsValid :
      (now_ms : ℕ) {b : Backend T}
      → IsBounded b
      → b.link_state ≡ LinkState.ready
      → IsValid (resume_link now_ms b)
  unfolding resume_link
  resume_link-IsValid now_ms {b} h e = record {
    bounded = resume_link-IsBounded now_ms h;
    phased = rw e (refl, refl);
  }

  pub recover_operation-IsValid :
      (now_ms : ℕ) {b : Backend T}
      → IsBounded b
      → b.link_state ≡ LinkState.ready
      → IsValid (recover_operation now_ms b)
  unfolding recover_operation
  recover_operation-IsValid now_ms {b} h e =
      let counted : Backend T = record b {
        working = record (b.working) { ax_local_resyncs = next_32 b.working.ax_local_resyncs };
      } in
      let kept : IsBounded counted = ground (arith, h) in
      let since : IsBounded (record counted { operation_failure_since_ms = now_ms }) =
        ground (arith, h) in
      if_cases (λ (c : Backend T). IsValid c) (b.operation_failure_since_ms == 0)
        (λ _. resume_link-IsValid now_ms since e)
        λ _.
          if_cases (λ (c : Backend T). IsValid c)
            (leb (b.operation_failure_since_ms + continuous_failure_reset_ms) now_ms)
            (λ _. reset_link-IsValid now_ms kept) (λ _. resume_link-IsValid now_ms kept e)

  pub failed-IsValid :
      (now_ms : ℕ) {b : Backend T}
      → IsOperating b
      → IsValid (recover_operation now_ms (count_failure b))
  failed-IsValid now_ms {b} h =
      let counted : IsBounded (count_failure b) = ground (arith, h.bounded) in
      recover_operation-IsValid now_ms counted h.linked
