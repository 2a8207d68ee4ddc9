-- ===== src/Ax1600i/Backend/Shown/Link.antt =====
-- Whether what src/psu/corsair_ax1600i/backend.cpp has published agrees with its link: `task`.
use psu_usb_to_pmbus.Ax1600i.Protocol.{is_zero_reply}
use psu_usb_to_pmbus.Ax1600i.Exchange.{exchange_failed, exchange_succeeded, reply}
use psu_usb_to_pmbus.Ax1600i.Backend.Shown.Replies.{
  reset_link-IsShown, served-IsSilent, service_operation-IsShown, retry_or-IsShown,
}
use psu_usb_to_pmbus.Telemetry.Snapshot.{TelemetrySnapshot}
use psu_usb_to_pmbus.UsbTransport.{UsbTransport}
use psu_usb_to_pmbus.Ax1600i.Backend.Shown.{IsSilent, IsShown, IsLinked, silent-IsShown}
use psu_usb_to_pmbus.Base.{refl, arith, false, ℕ, ◌≡◌, if_cases, ◌||◌, not, ltb, get_or}
use psu_usb_to_pmbus.Ax1600i.Backend.{Backend, LinkState, publish, reset_link, Destination}
use psu_usb_to_pmbus.Ax1600i.Backend.Registers.{
  start_read_register, start_write_register, serve_exchange, service_operation,
}
use psu_usb_to_pmbus.Ax1600i.Backend.Schedule.{
  run_step, schedule_next, ProgramStep, after_step, is_busy, program, skips,
}
use psu_usb_to_pmbus.Ax1600i.Backend.Task.{
  initialized, open_link, open_control, await_control, send_initialize, await_initialize,
  serve_ready, visit_link, task, with_link, set_time, is_ready, is_detached,
}

module _ {T : Type 0} where
  start_read_register-IsSilent :
      (reg size : ℕ) (d : Destination) (b : Backend T)
      → IsSilent b (start_read_register reg size d b)
  unfolding start_read_register
  start_read_register-IsSilent reg size d b = ground arith

  start_write_register-IsSilent :
      (reg value rail : ℕ) (b : Backend T)
      → IsSilent b (start_write_register reg value (record b { selected_rail = rail }))
  unfolding start_write_register
  start_write_register-IsSilent reg value rail b = ground arith

  after_step-IsSilent : {b c : Backend T} → IsSilent b c → IsSilent b (after_step c)
  after_step-IsSilent s = ground (arith, s)

  run_step-IsSilent : (step : ProgramStep) (b : Backend T) → IsSilent b (run_step step b)
  unfolding run_step
  run_step-IsSilent (ProgramStep.reads reg d) b = start_read_register-IsSilent reg 2 d b
  run_step-IsSilent (ProgramStep.selects_rail rail) b =
      start_write_register-IsSilent 0x00 rail rail b
  run_step-IsSilent ProgramStep.selects_branch b =
      start_write_register-IsSilent 0xe7 b.selected_branch b.selected_rail b
  run_step-IsSilent ProgramStep.skips b = ground arith

  schedule_next-IsSilent : (now_ms : ℕ) (b : Backend T) → IsSilent b (schedule_next now_ms b)
  unfolding schedule_next
  schedule_next-IsSilent now_ms b =
      let same : IsSilent b b = ground arith in
      if_cases (λ c. IsSilent b c) (is_busy b.operation || ltb now_ms b.next_action_ms) (λ _. same)
        λ _.
          if_cases (λ c. IsSilent b c) (not b.model_read)
            (λ _. start_read_register-IsSilent 0x9a 7 Destination.model b)
            λ _.
              if_cases (λ c. IsSilent b c) b.scan_registers
                (λ _.
                  if_cases (λ c. IsSilent b c) (not b.scan_complete)
                    (λ _. start_read_register-IsSilent b.probe_register 2 Destination.probe b)
                    (λ _. same))
                (λ _.
                  after_step-IsSilent (run_step-IsSilent (get_or program b.program_step skips) b))

module _ {T : Type 0} {stored : TelemetrySnapshot} where
  initialized-IsShown :
      (now_ms : ℕ) {b : Backend T} → IsShown stored b → IsShown stored (initialized now_ms b)
  unfolding initialized publish
  initialized-IsShown now_ms h = ground (arith, h)

  open_link-IsShown :
      (now_ms : ℕ) {b : Backend T} → IsShown stored b → IsShown stored (open_link now_ms b)
  unfolding open_link
  open_link-IsShown now_ms h = ground (arith, h)

module _ {T : Type 0} ⦃usb : UsbTransport T⦄ {stored : TelemetrySnapshot} where
  open_control-IsShown :
      (now_ms : ℕ) {b : Backend T} → IsShown stored b → IsShown stored (open_control now_ms b)
  unfolding open_control
  open_control-IsShown now_ms h = ground (arith, h)

  await_control-IsShown :
      (now_ms : ℕ) {b : Backend T} → IsShown stored b → IsShown stored (await_control now_ms b)
  unfolding await_control
  await_control-IsShown now_ms {b} h = ground (arith, h, reset_link-IsShown now_ms h)

  send_initialize-IsShown : {b : Backend T} → IsShown stored b → IsShown stored (send_initialize b)
  unfolding send_initialize
  send_initialize-IsShown h = ground (arith, h)

  await_initialize-IsShown :
      (now_ms : ℕ) {b : Backend T} → IsShown stored b → IsShown stored (await_initialize now_ms b)
  unfolding await_initialize
  await_initialize-IsShown now_ms {b} h =
      let Kept = λ (c : Backend T). IsShown stored c in
      let served = serve_exchange b in
      let shown = silent-IsShown (served-IsSilent b) h in
      if_cases Kept (exchange_failed served.exchange.state) (λ _. reset_link-IsShown now_ms shown)
        λ _.
          if_cases Kept (not (exchange_succeeded served.exchange.state)) (λ _. shown)
            λ _.
              if_cases Kept (not (is_zero_reply (reply served.exchange)))
                (λ _. retry_or-IsShown (reset_link now_ms) shown (reset_link-IsShown now_ms shown))
                (λ _. initialized-IsShown now_ms shown)

  serve_ready-IsShown :
      (now_ms : ℕ) {b : Backend T} → IsLinked stored b → IsShown stored (serve_ready now_ms b)
  unfolding serve_ready
  serve_ready-IsShown now_ms {b} h =
      let served = service_operation now_ms b in
      let shown = service_operation-IsShown now_ms h in
      if_cases (λ (c : Backend T). IsShown stored c) (is_ready served.link_state)
        (λ _. silent-IsShown (schedule_next-IsSilent now_ms served) shown) (λ _. shown)

  visit_link-IsShown :
      (link : LinkState) (now_ms : ℕ) {b : Backend T}
      → b.link_state ≡ link
      → IsShown stored b
      → IsShown stored (visit_link link now_ms b)
  unfolding visit_link
  visit_link-IsShown LinkState.start_control now_ms e h = open_control-IsShown now_ms h
  visit_link-IsShown LinkState.wait_control now_ms e h = await_control-IsShown now_ms h
  visit_link-IsShown LinkState.start_initialize now_ms e h = send_initialize-IsShown h
  visit_link-IsShown LinkState.wait_initialize now_ms e h = await_initialize-IsShown now_ms h
  visit_link-IsShown LinkState.ready now_ms e h =
      serve_ready-IsShown now_ms record { shown = h; linked = e }
  visit_link-IsShown link now_ms e h = h

  detach-IsShown :
      (now_ms : ℕ) {b : Backend T}
      → usb.connected b.transport ≡ false
      → IsShown stored b
      → IsShown stored (with_link LinkState.detached (reset_link now_ms b))
  unfolding reset_link publish
  detach-IsShown now_ms {b} down h = ground (arith, down, h)

  pub task-IsShown :
      (now_ms : ℕ) {b : Backend T} → IsShown stored b → IsShown stored (task now_ms b)
  unfolding task
  task-IsShown now_ms {b} h =
      let Kept = λ (c : Backend T). IsShown stored c in
      let timed = silent-IsShown {c = set_time now_ms b} (ground arith) h in
      let opened = open_link now_ms (set_time now_ms b) in
      if_cases Kept (not (usb.connected b.transport))
        (λ down.
          if_cases Kept (not (is_detached b.link_state) || b.working.connected)
            (λ _. detach-IsShown now_ms (ground arith) timed) (λ _. timed))
        (λ _. visit_link-IsShown opened.link_state now_ms refl (open_link-IsShown now_ms timed))
