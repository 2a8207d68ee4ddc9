-- ===== src/Ax1600i/Backend/Program.antt =====
-- What src/psu/corsair_ax1600i/backend.cpp asks the supply next: `schedule_next` and the frames that
-- it loads.
use psu_usb_to_pmbus.Ax1600i.Backend.Invariant.{IsValid}
use psu_usb_to_pmbus.Ax1600i.Backend.Invariant.Walk.{IsWaiting, next_rail, waits}
use psu_usb_to_pmbus.Ax1600i.Protocol.Encode.{frame, encode-frame, length-frame}
use psu_usb_to_pmbus.Ax1600i.Backend.{Operation, Backend, LinkState}
use psu_usb_to_pmbus.Ax1600i.Backend.Registers.{
  start_read_register, read_header, start_write_register, write_request,
}
use psu_usb_to_pmbus.Ax1600i.Backend.Schedule.{
  run_step, ProgramStep, after_step, schedule_next, program, skips, is_busy,
}
use psu_usb_to_pmbus.Base.{
  refl, [], List, ℕ, ◌≡◌, take, length, ◌+◌, ◌≤◌, ◌%◌, arith, not, ◌||◌, ltb, false, ◌==◌,
  take-append, drop, all_below, Bool, true, get_or, all_below_sound, subst, sym,
}
use psu_usb_to_pmbus.Ax1600i.Exchange.Invariant.{IsSized, begin_exchange-started}
use psu_usb_to_pmbus.Ax1600i.Exchange.{Exchange, ExchangeState, begin_exchange, is_idle}

-- The bytes that the exchange writes.
abbrev pub sent : Exchange → List ℕ
sent x = take x.tx_size x.tx

begin_exchange-sent :
    (payload : List ℕ) {x : Exchange}
    → IsSized x
    → x.state ≡ ExchangeState.idle
    → length payload ≤ 62
    → sent (begin_exchange payload x).exchange ≡ frame 0 payload
unfolding begin_exchange
begin_exchange-sent payload {x} h e small =
    let (size, output) = encode-frame 0 payload x.tx (omega arith) (omega (arith, h.tx_whole)) in
    let whole = length-frame 0 payload in
    let idle : (not (is_idle x.state) || ltb 62 (length payload)) ≡ false = ground arith in
    let full : (length (frame 0 payload) == 0) ≡ false = ground arith in
    rw (idle, size, full, output)
      (take-append (frame 0 payload) (drop (length (frame 0 payload)) x.tx))

-- The message of a step of the walk.
abbrev pub message_of : ProgramStep → ℕ → List ℕ
message_of (ProgramStep.reads reg d) branch = read_header reg 2
message_of (ProgramStep.selects_rail rail) branch = write_request 0x00 rail
message_of ProgramStep.selects_branch branch = write_request 0xe7 branch
message_of ProgramStep.skips branch = []

abbrev pub operation_of : ProgramStep → Operation
operation_of (ProgramStep.reads reg d) = Operation.read_register
operation_of ProgramStep.skips = Operation.no_operation
operation_of _ = Operation.write_register

abbrev is_step : ProgramStep → Bool
is_step ProgramStep.skips = false
is_step _ = true

all_steps : all_below 31 (λ step. is_step (get_or program step skips)) ≡ true
unfolding all_below
all_steps = refl

module _ {T : Type 0} where
  -- The message is on its way, and the walk is at the step after it.
  abbrev pub Asks : ProgramStep → Backend T → Backend T → Type 0
  Asks step b c =
      (sent c.exchange ≡ frame 0 (message_of step b.selected_branch))
      × (c.exchange.state ≡ ExchangeState.start_write)
      × (c.operation ≡ operation_of step)
      × (c.operation_stage ≡ 0)
      × (c.program_step ≡ (b.program_step + 1) % 31)
      × (c.selected_rail ≡ next_rail step b.selected_rail)

  run_step-Asks :
      (step : ProgramStep) {b : Backend T}
      → IsWaiting b
      → is_step step ≡ true
      → Asks step b (after_step (run_step step b))
  unfolding run_step start_read_register start_write_register
  run_step-Asks (ProgramStep.reads reg d) {b} w known =
      let header = read_header reg 2 in
      let sized = w.bounded.placed.sized in
      let begun = begin_exchange-started header sized w.still (omega arith) in
      let sends = begin_exchange-sent header sized w.still (omega arith) in
      rw (begun.0) (sends, begun.1, refl, refl, refl, refl)
  run_step-Asks (ProgramStep.selects_rail rail) {b} w known =
      let request = write_request 0x00 rail in
      let sized = w.bounded.placed.sized in
      let begun = begin_exchange-started request sized w.still (omega arith) in
      let sends = begin_exchange-sent request sized w.still (omega arith) in
      rw (begun.0) (sends, begun.1, refl, refl, refl, refl)
  run_step-Asks ProgramStep.selects_branch {b} w known =
      let request = write_request 0xe7 b.selected_branch in
      let sized = w.bounded.placed.sized in
      let begun = begin_exchange-started request sized w.still (omega arith) in
      let sends = begin_exchange-sent request sized w.still (omega arith) in
      rw (begun.0) (sends, begun.1, refl, refl, refl, refl)
  run_step-Asks ProgramStep.skips {b} w known = absurd (ground (arith, known))

  schedule_next-due :
      (now_ms : ℕ) (b : Backend T)
      → is_busy b.operation ≡ false
      → b.next_action_ms ≤ now_ms
      → b.model_read ≡ true
      → b.scan_registers ≡ false
      → schedule_next now_ms b ≡ after_step (run_step (get_or program b.program_step skips) b)
  unfolding schedule_next
  schedule_next-due now_ms b free due known plain = ground arith

  -- In a valid state of an initialized link, with no operation under way, with the time of the next
  -- action come, with the model read and without a scan, the call of `schedule_next` begins the
  -- step of the walk that is due: the exchange is about to write the whole frame of that step's
  -- message, at stage 0 of the operation that it belongs to; the walk is one step further, from
  -- the last one back at the first; and the rail is the one that a selecting step asks for,
  -- otherwise the one before.
  pub schedule_next-Asks :
      (now_ms : ℕ) {b : Backend T}
      → IsValid b
      → b.link_state ≡ LinkState.ready
      → is_busy b.operation ≡ false
      → b.next_action_ms ≤ now_ms
      → b.model_read ≡ true
      → b.scan_registers ≡ false
      → Asks (get_or program b.program_step skips) b (schedule_next now_ms b)
  schedule_next-Asks now_ms {b} v linked free due known plain =
      let step = get_or program b.program_step skips in
      subst (Asks step b) (sym (schedule_next-due now_ms b free due known plain)) (
        run_step-Asks step (waits v linked free) (
          all_below_sound 31 (λ n. is_step (get_or program n skips)) b.program_step all_steps
            v.bounded.placed.step_fits))
