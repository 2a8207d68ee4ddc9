-- ===== src/Ax1600i/Backend.antt =====
-- src/psu/corsair_ax1600i/backend.cpp and its header: the state of `Backend`, what it publishes, and
-- what it does when an operation or the link fails. The store is written by `publish` alone, so its
-- part here is the list of what was published, the newest first.
pub mod Read
pub mod Registers
pub mod Schedule
pub mod Task
pub mod Bounds
pub mod Invariant
pub mod History
pub mod Progress
pub mod Program
pub mod Shown
use psu_usb_to_pmbus.Float.{of_ℕ}
use psu_usb_to_pmbus.Telemetry.Snapshot.{TelemetrySnapshot, RegisterProbeTelemetry}
use psu_usb_to_pmbus.Base.{
  ==_false, ==_iff, All, Bool, Bool-cases, List, Option, Option-cases, [], add-one, all_below,
  all_below_sound, ap, append-nil, append_assoc, arith, bit_and, bit_or, bit_or_fields, bit_or_step,
  bit_xor, bit_xor-lt, bit_xor_comm, bit_xor_self, bit_xor_step, bit_xor_undo, drop, drop-cons,
  drop-set_self, false, get_or, get_or-append, get_or-append_suc, get_or-set_ne, get_or-set_self,
  if_cases, if_false, if◌then◌else◌, inl, inr, leb, length, length-append, length-drop, length-set,
  length-store, length-take, ltb, ltb→lt, lt→ltb, map, min, none, not, refl, replicate, set,
  set-append, set-set-append, some, store, store_lem, subst, suc, sym, take, take-append,
  take-append_suc, take-set_le, take-take-append, take_snoc, true, zero, ℕ, ℕ_discrete, ◌%◌, ◌&&◌,
  ◌*◌, ◌++◌, ◌+◌, ◌-◌, ◌/◌, ◌<◌, ◌==◌, ◌^◌, ◌||◌, ◌↔◌, ◌∙◌, ◌∷◌, ◌≡◌, ◌≢◌, ◌≤◌, ◌⊎◌,
}
use psu_usb_to_pmbus.UsbTransport.{UsbTransport}
use psu_usb_to_pmbus.Ax1600i.Exchange.{Exchange, ExchangeState, exchange_default, with_state}

abbrev pub retry_delay_ms : ℕ
retry_delay_ms = 1000

abbrev pub operation_recovery_delay_ms : ℕ
operation_recovery_delay_ms = 50

abbrev pub continuous_failure_reset_ms : ℕ
continuous_failure_reset_ms = 10000

pub data LinkState : Type 0 where
  detached start_control wait_control start_initialize wait_initialize ready backoff : LinkState

pub data Operation : Type 0 where
  no_operation read_register write_register : Operation

pub data Destination : Type 0 where
  nowhere model vin iin pin native_total_output_power : Destination
  rail_voltage rail_current native_rail_power : Destination
  temperature_1 temperature_2 fan uptime : Destination
  branch_current branch_power branch_ocp probe : Destination

pub record Backend (T : Type 0) : Type 0 where
  pub transport : T
  pub published : List TelemetrySnapshot
  pub working : TelemetrySnapshot
  pub exchange : Exchange
  pub link_state : LinkState
  pub operation : Operation
  pub destination : Destination
  pub operation_stage : ℕ
  pub control_stage : ℕ
  pub register_length : ℕ
  pub selected_rail : ℕ
  pub selected_branch : ℕ
  pub program_step : ℕ
  pub validity_mask : ℕ
  pub retry_at_ms : ℕ
  pub next_action_ms : ℕ
  pub control_deadline_ms : ℕ
  pub operation_failure_since_ms : ℕ
  pub model_read : Bool
  pub scan_registers : Bool
  pub scan_complete : Bool
  pub probe_register : ℕ

-- The constructor, from what the store holds.
abbrev pub backend_initial : {T : Type 0} → T → TelemetrySnapshot → Bool → Backend T
backend_initial transport stored scan_registers = record {
  transport = transport;
  published = [];
  working = record stored { rated_output_power = of_ℕ 1600 };
  exchange = exchange_default;
  link_state = LinkState.detached;
  operation = Operation.no_operation;
  destination = Destination.nowhere;
  operation_stage = 0;
  control_stage = 0;
  register_length = 0;
  selected_rail = 0;
  selected_branch = 0;
  program_step = 0;
  validity_mask = 0;
  retry_at_ms = 0;
  next_action_ms = 0;
  control_deadline_ms = 0;
  operation_failure_since_ms = 0;
  model_read = false;
  scan_registers = scan_registers;
  scan_complete = false;
  probe_register = 0;
}

-- `++` of a 32-bit counter.
abbrev pub next_32 : ℕ → ℕ
next_32 n = (n + 1) % 2 ^ 32

abbrev pub is_branch : Destination → Bool
is_branch Destination.branch_current = true
is_branch Destination.branch_power = true
is_branch Destination.branch_ocp = true
is_branch _ = false

abbrev pub is_read : Operation → Bool
is_read Operation.read_register = true
is_read _ = false

abbrev pub is_write : Operation → Bool
is_write Operation.write_register = true
is_write _ = false

abbrev pub next_branch : ℕ → ℕ
next_branch branch = (branch + 1) % 12

module _ {T : Type 0} where
  unfoldable pub publish : ℕ → Backend T → Backend T
  publish now_ms b =
      let w : TelemetrySnapshot = record (b.working) {
        updated_ms = now_ms;
        generation = (b.working.generation + 1) % 2 ^ 64;
      } in
      record b { working = w; published = w ∷ b.published }

  -- The sequence of a probe of all registers, one at a time.
  unfoldable pub complete_probe : ℕ → Bool → Backend T → Backend T
  complete_probe now_ms available b =
      let x = b.exchange in
      let answered = available && leb 2 x.response_size in
      let last = b.probe_register == 0xff in
      let word = bit_or (get_or x.response 0 0) (get_or x.response 1 0 * 2 ^ 8) % 2 ^ 16 in
      let p : RegisterProbeTelemetry = record {
        sequence = next_32 b.working.probe.sequence;
        raw = if answered then word else 0;
        address = b.probe_register;
        size = min x.response_size 0xff;
        available = answered;
        complete = last;
      } in
      let shown = publish now_ms (record b { working = record (b.working) { probe = p } }) in
      if last
      then record shown { scan_complete = true }
      else record shown { probe_register = (b.probe_register + 1) % 2 ^ 8 }

module _ {T : Type 0} ⦃usb : UsbTransport T⦄ where
  unfoldable pub reset_link : ℕ → Backend T → Backend T
  reset_link now_ms b =
      let up = usb.connected b.transport in
      let resets = next_32 b.working.ax_full_link_resets in
      let branch_lost = is_read b.operation && is_branch b.destination in
      let w : TelemetrySnapshot =
        if up then record (b.working) { ax_full_link_resets = resets } else b.working in
      let closed : Backend T = record b {
        working = w;
        transport = usb.abort_transfer b.transport;
        link_state = if up then LinkState.backoff else LinkState.detached;
        exchange = with_state ExchangeState.idle b.exchange;
        selected_branch = if branch_lost then next_branch b.selected_branch else b.selected_branch;
        operation = Operation.no_operation;
        control_stage = 0;
        program_step = 0;
        selected_rail = 0;
        retry_at_ms = now_ms + retry_delay_ms;
        operation_failure_since_ms = 0;
      } in
      if up
      then closed
      else publish now_ms (record closed {
        working = record (closed.working) { connected = false; core_valid = false };
        validity_mask = 0;
      })

  -- The operation is given up, and the link goes on; a lost selection is made again from rail 0.
  unfoldable pub resume_link : ℕ → Backend T → Backend T
  resume_link now_ms b = record b {
    transport = usb.abort_transfer b.transport;
    exchange = with_state ExchangeState.idle b.exchange;
    operation = Operation.no_operation;
    destination = Destination.nowhere;
    operation_stage = 0;
    program_step = if is_write b.operation then 4 else b.program_step;
    selected_rail = if is_write b.operation then 0 else b.selected_rail;
    next_action_ms = now_ms + operation_recovery_delay_ms;
  }

  unfoldable pub recover_operation : ℕ → Backend T → Backend T
  recover_operation now_ms b =
      let resyncs = next_32 b.working.ax_local_resyncs in
      let counted : Backend T = record b {
        working = record (b.working) { ax_local_resyncs = resyncs };
      } in
      if b.operation_failure_since_ms == 0
      then resume_link now_ms (record counted { operation_failure_since_ms = now_ms })
      else if leb (b.operation_failure_since_ms + continuous_failure_reset_ms) now_ms
      then reset_link now_ms counted
      else resume_link now_ms counted
