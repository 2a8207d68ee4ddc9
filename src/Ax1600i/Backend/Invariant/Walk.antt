-- ===== src/Ax1600i/Backend/Invariant/Walk.antt =====
-- The invariant of `Backend` under `schedule_next` of src/psu/corsair_ax1600i/backend.cpp.
use psu_usb_to_pmbus.Ax1600i.Exchange.Invariant.{begin_exchange-started, begin_exchange-IsSized}
use psu_usb_to_pmbus.Ax1600i.Backend.Invariant.{IsValid}
use psu_usb_to_pmbus.Ax1600i.Backend.Bounds.{IsBounded, rail_of}
use psu_usb_to_pmbus.Ax1600i.Backend.Registers.{
  start_read_register, start_write_register, read_header, write_request,
}
use psu_usb_to_pmbus.Base.{
  refl, ℕ, arith, List, ◌<◌, all_below, Bool, ◌≡◌, ◌≤◌, true, false, ◌+◌, if_cases, length, ◌%◌,
  not, get_or, ◌==◌, ==_iff, all_below_sound, sym, ◌||◌, ltb,
}
use psu_usb_to_pmbus.Ax1600i.Backend.{Backend, LinkState, Operation, Destination}
use psu_usb_to_pmbus.Ax1600i.Backend.Schedule.{
  ProgramStep, skips, after_step, is_busy, program, run_step, schedule_next,
}
use psu_usb_to_pmbus.Ax1600i.Exchange.{ExchangeState, begin_exchange}

-- The rail that a step leaves selected.
abbrev pub next_rail : ProgramStep → ℕ → ℕ
next_rail (ProgramStep.selects_rail rail) old = rail
next_rail _ old = old

abbrev follows : ℕ → Bool
follows step = rail_of ((step + 1) % 31) == next_rail (get_or program step skips) (rail_of step)

follows_all : all_below 31 follows ≡ true
unfolding all_below
follows_all = refl

pub follows_lem :
    (step : ℕ)
    → step < 31
    → rail_of ((step + 1) % 31) ≡ next_rail (get_or program step skips) (rail_of step)
follows_lem step h = (==_iff _ _).0 (all_below_sound 31 follows step follows_all h)

-- Nothing is under way on an initialized link.
pub record IsWaiting {T : Type 0} (b : Backend T) : Type 0 where
  pub bounded : IsBounded b
  pub linked : b.link_state ≡ LinkState.ready
  pub free : is_busy b.operation ≡ false
  pub still : b.exchange.state ≡ ExchangeState.idle

module _ {T : Type 0} where
  pub begun-IsValid :
      (payload : List ℕ) (o : Operation) (d : Destination) (size : ℕ) {b : Backend T}
      → IsWaiting b
      → is_busy o ≡ true
      → length payload ≤ 62
      → size ≤ 7
      → IsValid (record b {
        exchange = (begin_exchange payload b.exchange).exchange;
        operation = o;
        operation_stage = 0;
        register_length = size;
        destination = d;
      })
  begun-IsValid payload o d size {b} w busy small fits =
      let sized = w.bounded.placed.sized in
      record {
        bounded = ground (arith, w.bounded, begin_exchange-IsSized payload sized);
        phased =
            rw (w.linked, busy, (begin_exchange-started payload sized w.still small).1)
              (refl, refl);
      }

  pub start_read_register-IsValid :
      (reg size : ℕ) (d : Destination) {b : Backend T}
      → IsWaiting b
      → size ≤ 7
      → IsValid (start_read_register reg size d b)
  unfolding start_read_register
  start_read_register-IsValid reg size d {b} w fits =
      let header = read_header reg size in
      let begun = begin_exchange-started header w.bounded.placed.sized w.still (omega arith) in
      rw (begun.0) (begun-IsValid header Operation.read_register d size w refl (omega arith) fits)

  pub start_write_register-IsValid :
      (reg value : ℕ) {b : Backend T} → IsWaiting b → IsValid (start_write_register reg value b)
  unfolding start_write_register
  start_write_register-IsValid reg value {b} w =
      let request = write_request reg value in
      let begun = begin_exchange-started request w.bounded.placed.sized w.still (omega arith) in
      rw (begun.0) (
        begun-IsValid request Operation.write_register Destination.nowhere b.register_length w refl
          (omega arith) (w.bounded.placed.length_fits))

  -- The step can be counted before it is run.
  step_after_read :
      (reg size : ℕ) (d : Destination) (b : Backend T)
      → after_step (start_read_register reg size d b)
        ≡ start_read_register reg size d (after_step b)
  unfolding start_read_register
  step_after_read reg size d b =
      if_cases (λ (c : Backend T). after_step c ≡ start_read_register reg size d (after_step b))
        (not (begin_exchange (read_header reg size) b.exchange).started) (λ e. rw e refl)
        (λ e. rw e refl)

  step_after_write :
      (reg value : ℕ) (b : Backend T)
      → after_step (start_write_register reg value b)
        ≡ start_write_register reg value (after_step b)
  unfolding start_write_register
  step_after_write reg value b =
      if_cases (λ (c : Backend T). after_step c ≡ start_write_register reg value (after_step b))
        (not (begin_exchange (write_request reg value) b.exchange).started) (λ e. rw e refl)
        (λ e. rw e refl)

  abbrev stepped : ProgramStep → Backend T → Backend T
  stepped step b = record b {
    program_step = (b.program_step + 1) % 31;
    selected_rail = next_rail step b.selected_rail;
  }

  run_step-IsValid :
      (step : ProgramStep) (b : Backend T)
      → IsWaiting (stepped step b)
      → IsValid (after_step (run_step step b))
  unfolding run_step
  run_step-IsValid (ProgramStep.reads reg d) b w =
      rw (step_after_read reg 2 d b) (start_read_register-IsValid reg 2 d w (omega arith))
  run_step-IsValid (ProgramStep.selects_rail rail) b w =
      rw (step_after_write 0x00 rail (record b { selected_rail = rail }))
        (start_write_register-IsValid 0x00 rail w)
  run_step-IsValid ProgramStep.selects_branch b w =
      rw (step_after_write 0xe7 b.selected_branch b)
        (start_write_register-IsValid 0xe7 b.selected_branch w)
  run_step-IsValid ProgramStep.skips b w = record {
    bounded = w.bounded;
    phased = rw (w.linked, w.free, w.still) (refl, refl);
  }

  stepped-IsWaiting :
      {b : Backend T} → IsWaiting b → IsWaiting (stepped (get_or program b.program_step skips) b)
  stepped-IsWaiting {b} w =
      let p = w.bounded.placed in
      let follow = follows_lem b.program_step p.step_fits in
      let rail : next_rail (get_or program b.program_step skips) b.selected_rail
          ≡ rail_of ((b.program_step + 1) % 31) =
        rw p.rail_follows (sym follow) in
      record {
        bounded = record {
          placed = record {
            sized = p.sized;
            rails = p.rails;
            branches = p.branches;
            model = p.model;
            branch_fits = p.branch_fits;
            step_fits = omega arith;
            rail_follows = rail;
            stage_fits = p.stage_fits;
            length_fits = p.length_fits;
            probe_fits = p.probe_fits;
          };
          core = w.bounded.core;
        };
        linked = w.linked;
        free = w.free;
        still = w.still;
      }

  -- Without an operation an initialized link waits.
  pub waits :
      {b : Backend T}
      → IsValid b
      → b.link_state ≡ LinkState.ready
      → is_busy b.operation ≡ false
      → IsWaiting b
  waits {b} v linked free =
      let phase = rw linked at (v.phased) in
      record { bounded = v.bounded; linked = linked; free = free; still = ground (arith, phase) }

  pub schedule_next-IsValid :
      (now_ms : ℕ) {b : Backend T}
      → IsValid b
      → b.link_state ≡ LinkState.ready
      → IsValid (schedule_next now_ms b)
  unfolding schedule_next
  schedule_next-IsValid now_ms {b} v linked =
      if_cases (λ (c : Backend T). IsValid c) (is_busy b.operation || ltb now_ms b.next_action_ms)
        (λ _. v)
        λ e.
          let w = waits v linked (ground arith) in
          if_cases (λ (c : Backend T). IsValid c) (not b.model_read)
            (λ _. start_read_register-IsValid 0x9a 7 Destination.model w (omega arith))
            λ _.
              if_cases (λ (c : Backend T). IsValid c) b.scan_registers
                (λ _.
                  if_cases (λ (c : Backend T). IsValid c) (not b.scan_complete)
                    (λ _.
                      start_read_register-IsValid b.probe_register 2 Destination.probe w
                        (omega arith))
                    (λ _. v))
                (λ _.
                  run_step-IsValid (get_or program b.program_step skips) b (stepped-IsWaiting w))
