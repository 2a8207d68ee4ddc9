-- ===== src/Ax1600i/Exchange/Invariant.antt =====
-- The buffers and counters of an exchange of src/psu/corsair_ax1600i/backend.cpp.
use psu_usb_to_pmbus.Ax1600i.Protocol.{encode}
use psu_usb_to_pmbus.Ax1600i.Protocol.Bounds.{encode-sizes, decode-sizes}
use psu_usb_to_pmbus.UsbTransport.{UsbTransport}
use psu_usb_to_pmbus.Ax1600i.Exchange.{
  Exchange, exchange_default, retry_empty_exchange, ExchangeState, begin_exchange, with_state,
  service_exchange, visit, rewind, encoded_capacity, empty_reply_retries, collect_reply,
}
use psu_usb_to_pmbus.Base.{ℕ, List, arith, length, ◌+◌, store, ◌≡◌, take, ◌≤◌, length-store, true}

-- The buffers keep their lengths, what is in use of them fits, and the retries are counted to three.
pub record IsSized (x : Exchange) : Type 0 where
  pub tx_whole : length x.tx ≡ 128
  pub rx_whole : length x.encoded_rx ≡ encoded_capacity
  pub response_whole : length x.response ≡ 64
  pub tx_fits : x.tx_size ≤ 128
  pub rx_fits : x.encoded_rx_size ≤ encoded_capacity
  pub response_fits : x.response_size ≤ 64
  pub retries_fit : x.retry_count ≤ empty_reply_retries

pub exchange_default-IsSized : IsSized exchange_default
exchange_default-IsSized = omega arith

pub with_state-IsSized :
    (state : ExchangeState) {x : Exchange} → IsSized x → IsSized (with_state state x)
with_state-IsSized state h = ground (arith, h)

pub rewind-IsSized : {x : Exchange} → IsSized x → IsSized (rewind x)
rewind-IsSized h = ground (arith, h)

pub begin_exchange-IsSized :
    (payload : List ℕ) {x : Exchange} → IsSized x → IsSized (begin_exchange payload x).exchange
unfolding begin_exchange
begin_exchange-IsSized payload {x} h = ground (arith, h, encode-sizes 0 payload x.tx)

pub retry_empty_exchange-IsSized :
    {x : Exchange} → IsSized x → IsSized (retry_empty_exchange x).exchange
unfolding retry_empty_exchange
retry_empty_exchange-IsSized h = ground (arith, h)

pub collect_reply-IsSized :
    (received : ℕ) (bytes : List ℕ) {x : Exchange}
    → IsSized x
    → IsSized (collect_reply received bytes x)
unfolding collect_reply
collect_reply-IsSized received bytes {x} h =
    let size = x.encoded_rx_size + received in
    let rx = store x.encoded_rx_size (take received bytes) x.encoded_rx in
    ground (
      arith,
      h,
      decode-sizes (take size rx) x.response,
      length-store x.encoded_rx_size (take received bytes) x.encoded_rx,
    )

module _ {T : Type 0} ⦃usb : UsbTransport T⦄ where
  visit-IsSized :
      (state : ExchangeState) {x : Exchange} (t : T)
      → IsSized x
      → IsSized (visit state x t).exchange
  unfolding visit
  visit-IsSized ExchangeState.wait_read {x} t h =
      ground (arith, h, collect_reply-IsSized (usb.transferred t) (usb.read_data t) h)
  visit-IsSized state t h = ground (arith, h)

  pub service_exchange-IsSized :
      {x : Exchange} (t : T) → IsSized x → IsSized (service_exchange x t).exchange
  unfolding service_exchange
  service_exchange-IsSized {x} t h = ground (arith, h, visit-IsSized x.state t h)

-- An idle exchange begins with any message of the register protocol.
pub begin_exchange-started :
    (payload : List ℕ) {x : Exchange}
    → IsSized x
    → x.state ≡ ExchangeState.idle
    → length payload ≤ 62
    → ((begin_exchange payload x).started ≡ true)
      × ((begin_exchange payload x).exchange.state ≡ ExchangeState.start_write)
unfolding begin_exchange encode
begin_exchange-started payload h e small = ground (arith, h)
