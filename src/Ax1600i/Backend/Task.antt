-- ===== src/Ax1600i/Backend/Task.antt =====
-- `Backend::task` of src/psu/corsair_ax1600i/backend.cpp: the link, from the attachment of the
-- supply to the walk through its registers.
use psu_usb_to_pmbus.Ax1600i.Protocol.{is_zero_reply}
use psu_usb_to_pmbus.Base.{
  Bool, List, [], false, get_or, if◌then◌else◌, leb, length, ltb, not, true, ℕ, ◌&&◌, ◌+◌, ◌||◌,
  ◌∷◌,
}
use psu_usb_to_pmbus.UsbTransport.{UsbTransport, TransferStatus, ControlRequest}
use psu_usb_to_pmbus.Ax1600i.Backend.{Backend, LinkState, reset_link, publish}
use psu_usb_to_pmbus.Ax1600i.Backend.Registers.{service_operation, retry_or, serve_exchange}
use psu_usb_to_pmbus.Ax1600i.Backend.Schedule.{schedule_next}
use psu_usb_to_pmbus.Ax1600i.Exchange.{
  begin_exchange, finish_exchange, exchange_failed, exchange_succeeded, reply, transfer_timeout_ms,
}

abbrev pub initialize_message : List ℕ
initialize_message = 0x11 ∷ 0x02 ∷ 0x64 ∷ 0 ∷ 0 ∷ 0 ∷ 0 ∷ []

abbrev pub control_request : ℕ → ControlRequest
control_request value = record { request_type = 0x40; request = 0x02; value = value; index = 0 }

abbrev pub usb_xpress_open : List ControlRequest
usb_xpress_open = control_request 2 ∷ control_request 1 ∷ control_request 2 ∷ []

abbrev pub is_detached : LinkState → Bool
is_detached LinkState.detached = true
is_detached _ = false

abbrev pub is_backoff : LinkState → Bool
is_backoff LinkState.backoff = true
is_backoff _ = false

abbrev pub is_ready : LinkState → Bool
is_ready LinkState.ready = true
is_ready _ = false

module _ {T : Type 0} where
  abbrev pub with_link : LinkState → Backend T → Backend T
  with_link state b = record b { link_state = state }

  unfoldable pub initialized : ℕ → Backend T → Backend T
  initialized now_ms b =
      let finished : Backend T = record b { exchange = finish_exchange b.exchange } in
      let connected : Backend T = record finished {
        working = record (finished.working) { connected = true };
      } in
      record (if not b.working.connected then publish now_ms connected else finished) {
        link_state = LinkState.ready;
        next_action_ms = now_ms;
      }

  -- An attached supply, or a back-off that is over, opens the link.
  unfoldable pub open_link : ℕ → Backend T → Backend T
  open_link now_ms b =
      if is_detached b.link_state || (is_backoff b.link_state && leb b.retry_at_ms now_ms)
      then with_link LinkState.start_control b
      else b

  abbrev pub set_time : ℕ → Backend T → Backend T
  set_time now_ms b = record b { exchange = record (b.exchange) { current_time_ms = now_ms } }

module _ {T : Type 0} ⦃usb : UsbTransport T⦄ where
  -- The cases of the switch on the link's state.
  unfoldable pub open_control : ℕ → Backend T → Backend T
  open_control now_ms b =
      let request = get_or usb_xpress_open b.control_stage (control_request 0) in
      let started = usb.start_control request b.transport in
      let handed : Backend T = record b { transport = started.transport } in
      if started.accepted
      then record handed {
        link_state = LinkState.wait_control;
        control_deadline_ms = now_ms + transfer_timeout_ms;
      }
      else handed

  abbrev pub control_done : Backend T → Backend T
  control_done b =
      let stage = b.control_stage + 1 in
      record b {
        transport = usb.clear_transfer b.transport;
        control_stage = stage;
        link_state =
            if ltb stage (length usb_xpress_open)
            then LinkState.start_control
            else LinkState.start_initialize;
      }

  unfoldable pub await_control : ℕ → Backend T → Backend T
  await_control now_ms b =
      let waited = if leb b.control_deadline_ms now_ms then reset_link now_ms b else b in
      elim (usb.transfer_status b.transport) [
        | TransferStatus.failed ↦ reset_link now_ms b
        | TransferStatus.complete ↦ control_done b
        | TransferStatus.idle ↦ waited
        | TransferStatus.busy ↦ waited
      ]

  unfoldable pub send_initialize : Backend T → Backend T
  send_initialize b =
      let begun = begin_exchange initialize_message b.exchange in
      let handed : Backend T = record b { exchange = begun.exchange } in
      if begun.started then with_link LinkState.wait_initialize handed else handed

  unfoldable pub await_initialize : ℕ → Backend T → Backend T
  await_initialize now_ms b =
      let served = serve_exchange b in
      if exchange_failed served.exchange.state
      then reset_link now_ms served
      else if not (exchange_succeeded served.exchange.state)
      then served
      else if not (is_zero_reply (reply served.exchange))
      then retry_or (reset_link now_ms) served
      else initialized now_ms served

  unfoldable pub serve_ready : ℕ → Backend T → Backend T
  serve_ready now_ms b =
      let served = service_operation now_ms b in
      if is_ready served.link_state then schedule_next now_ms served else served

  unfoldable pub visit_link : LinkState → ℕ → Backend T → Backend T
  visit_link LinkState.start_control now_ms b = open_control now_ms b
  visit_link LinkState.wait_control now_ms b = await_control now_ms b
  visit_link LinkState.start_initialize now_ms b = send_initialize b
  visit_link LinkState.wait_initialize now_ms b = await_initialize now_ms b
  visit_link LinkState.ready now_ms b = serve_ready now_ms b
  visit_link _ now_ms b = b

  unfoldable pub task : ℕ → Backend T → Backend T
  task now_ms b =
      let timed = set_time now_ms b in
      let opened = open_link now_ms timed in
      if not (usb.connected b.transport)
      then if not (is_detached b.link_state) || b.working.connected
        then with_link LinkState.detached (reset_link now_ms timed)
        else timed
      else visit_link opened.link_state now_ms opened
