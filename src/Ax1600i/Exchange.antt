-- ===== src/Ax1600i/Exchange.antt =====
-- src/psu/corsair_ax1600i/backend.cpp: one exchange with the power supply, which is the write of a
-- request and the reads of its reply. The members of `Backend` that only exchanges use are a record.
-- Times are milliseconds since the start, a 64-bit count that does not come near its end.
pub mod Invariant
pub mod Pieces
pub mod Arrival
use psu_usb_to_pmbus.Base.{
  ==_false, ==_iff, All, Bool, Bool-cases, List, Option, [], add-one, all_below, all_below_sound,
  ap, append-nil, append_assoc, arith, bit_and, bit_or, bit_or_fields, bit_or_step, bit_xor,
  bit_xor-lt, bit_xor_comm, bit_xor_self, bit_xor_step, bit_xor_undo, drop, drop-cons,
  drop-set_self, false, get_or, get_or-append, get_or-append_suc, get_or-set_ne, get_or-set_self,
  if_cases, if_false, if◌then◌else◌, inl, inr, leb, length, length-append, length-drop, length-set,
  length-store, length-take, ltb, ltb→lt, lt→ltb, map, min, none, not, refl, replicate, set,
  set-append, set-set-append, some, store, store_lem, subst, suc, sym, take, take-append,
  take-append_suc, take-set_le, take-take-append, take_snoc, true, zero, ℕ, ℕ_discrete, ◌%◌, ◌&&◌,
  ◌*◌, ◌++◌, ◌+◌, ◌-◌, ◌/◌, ◌<◌, ◌==◌, ◌^◌, ◌||◌, ◌↔◌, ◌∙◌, ◌∷◌, ◌≡◌, ◌≢◌, ◌≤◌, ◌⊎◌,
}
use psu_usb_to_pmbus.UsbTransport.{UsbTransport, TransferStatus, Started}
use psu_usb_to_pmbus.Ax1600i.Protocol.{encode, decode, DecodeError}

abbrev pub inter_write_delay_ms : ℕ
inter_write_delay_ms = 5

abbrev pub transfer_timeout_ms : ℕ
transfer_timeout_ms = 500

abbrev pub empty_reply_retries : ℕ
empty_reply_retries = 3

pub data ExchangeState : Type 0 where
  idle start_write wait_write start_read wait_read complete failed : ExchangeState

pub record Exchange : Type 0 where
  pub state : ExchangeState
  pub tx : List ℕ
  pub encoded_rx : List ℕ
  pub response : List ℕ
  pub tx_size : ℕ
  pub encoded_rx_size : ℕ
  pub response_size : ℕ
  pub retry_count : ℕ
  pub current_time_ms : ℕ
  pub not_before_ms : ℕ
  pub deadline_ms : ℕ

abbrev pub encoded_capacity : ℕ
encoded_capacity = 256

-- The initialisers of the members.
abbrev pub exchange_default : Exchange
exchange_default = record {
  state = ExchangeState.idle;
  tx = replicate 128 0;
  encoded_rx = replicate encoded_capacity 0;
  response = replicate 64 0;
  tx_size = 0;
  encoded_rx_size = 0;
  response_size = 0;
  retry_count = 0;
  current_time_ms = 0;
  not_before_ms = 0;
  deadline_ms = 0;
}

abbrev pub with_state : ExchangeState → Exchange → Exchange
with_state state x = record x { state = state }

abbrev pub is_idle : ExchangeState → Bool
is_idle ExchangeState.idle = true
is_idle _ = false

abbrev pub exchange_succeeded : ExchangeState → Bool
exchange_succeeded ExchangeState.complete = true
exchange_succeeded _ = false

abbrev pub exchange_failed : ExchangeState → Bool
exchange_failed ExchangeState.failed = true
exchange_failed _ = false

-- Whether there is still something to wait for.
abbrev pub is_in_flight : ExchangeState → Bool
is_in_flight ExchangeState.idle = false
is_in_flight ExchangeState.complete = false
is_in_flight ExchangeState.failed = false
is_in_flight _ = true

-- The received reply, as decoded.
abbrev pub reply : Exchange → List ℕ
reply x = take x.response_size x.response

-- What a call of `begin_exchange` or `retry_empty_exchange` returns.
pub record Begun : Type 0 where
  pub started : Bool
  pub exchange : Exchange

-- Both begin at the write, with new times and an empty reply.
abbrev pub rewind : Exchange → Exchange
rewind x = record x {
  encoded_rx_size = 0;
  response_size = 0;
  state = ExchangeState.start_write;
  not_before_ms = x.current_time_ms + inter_write_delay_ms;
  deadline_ms = x.current_time_ms + transfer_timeout_ms;
}

unfoldable pub begin_exchange : List ℕ → Exchange → Begun
begin_exchange payload x =
    let encoded = encode 0 payload x.tx in
    let loaded : Exchange = record x { tx = encoded.output; tx_size = encoded.size } in
    if not (is_idle x.state) || ltb 62 (length payload)
    then record { started = false; exchange = x }
    else if encoded.size == 0
    then record { started = false; exchange = loaded }
    else record { started = true; exchange = rewind (record loaded { retry_count = 0 }) }

-- The counter of retries in the telemetry is the caller's.
unfoldable pub retry_empty_exchange : Exchange → Begun
retry_empty_exchange x =
    if not (x.response_size == 0) || leb empty_reply_retries x.retry_count
    then record { started = false; exchange = x }
    else record { started = true; exchange = rewind (record x { retry_count = x.retry_count + 1 }) }

abbrev pub finish_exchange : Exchange → Exchange
finish_exchange x = with_state ExchangeState.idle x

abbrev pub outcome : DecodeError → ExchangeState
outcome DecodeError.success = ExchangeState.complete
outcome _ = ExchangeState.failed

-- The bytes of a completed read arrive behind those that are there, and a zero ends the reply.
unfoldable pub collect_reply : ℕ → List ℕ → Exchange → Exchange
collect_reply received bytes x =
    let size = x.encoded_rx_size + received in
    let rx = store x.encoded_rx_size (take received bytes) x.encoded_rx in
    let grown : Exchange = record x { encoded_rx = rx; encoded_rx_size = size } in
    let result = decode (take size rx) x.response in
    let decoded : Exchange = record grown {
      response = result.output;
      response_size = result.size;
    } in
    if received == 0 || ltb (length x.encoded_rx - x.encoded_rx_size) received
    then with_state ExchangeState.failed x
    else if get_or rx (size - 1) 0 == 0
    then with_state (outcome result.error) decoded
    else with_state ExchangeState.start_read grown

pub record Serviced (T : Type 0) : Type 0 where
  pub exchange : Exchange
  pub transport : T

module _ {T : Type 0} ⦃usb : UsbTransport T⦄ where
  -- One visit of a state, before its deadline.
  unfoldable pub visit : ExchangeState → Exchange → T → Serviced T
  visit ExchangeState.start_write x t =
      let started = usb.start_write (take x.tx_size x.tx) t in
      if ltb x.current_time_ms x.not_before_ms
      then record { exchange = x; transport = t }
      else if started.accepted
      then record {
        exchange = with_state ExchangeState.wait_write x;
        transport = started.transport;
      }
      else record { exchange = x; transport = started.transport }
  visit ExchangeState.wait_write x t = elim (usb.transfer_status t) [
    | TransferStatus.failed ↦ record {
      exchange = with_state ExchangeState.failed x;
      transport = usb.clear_transfer t;
    }
    | TransferStatus.complete ↦ record {
      exchange =
          with_state
            (if usb.transferred t == x.tx_size
              then ExchangeState.start_read
              else ExchangeState.failed)
            x;
      transport = usb.clear_transfer t;
    }
    | TransferStatus.idle ↦ record { exchange = x; transport = t }
    | TransferStatus.busy ↦ record { exchange = x; transport = t }
  ]
  visit ExchangeState.start_read x t =
      let started = usb.start_read (length x.encoded_rx - x.encoded_rx_size) t in
      if leb (length x.encoded_rx) x.encoded_rx_size
      then record { exchange = with_state ExchangeState.failed x; transport = t }
      else if started.accepted
      then record { exchange = with_state ExchangeState.wait_read x; transport = started.transport }
      else record { exchange = x; transport = started.transport }
  visit ExchangeState.wait_read x t = elim (usb.transfer_status t) [
    | TransferStatus.failed ↦ record {
      exchange = with_state ExchangeState.failed x;
      transport = usb.clear_transfer t;
    }
    | TransferStatus.complete ↦ record {
      exchange = collect_reply (usb.transferred t) (usb.read_data t) x;
      transport = usb.clear_transfer t;
    }
    | TransferStatus.idle ↦ record { exchange = x; transport = t }
    | TransferStatus.busy ↦ record { exchange = x; transport = t }
  ]
  visit _ x t = record { exchange = x; transport = t }

  unfoldable pub service_exchange : Exchange → T → Serviced T
  service_exchange x t =
      if is_in_flight x.state && leb x.deadline_ms x.current_time_ms
      then record { exchange = with_state ExchangeState.failed x; transport = t }
      else visit x.state x t
