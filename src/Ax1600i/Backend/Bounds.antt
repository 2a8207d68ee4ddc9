-- ===== src/Ax1600i/Backend/Bounds.antt =====
-- The bounds of the members of `Backend` in src/psu/corsair_ax1600i/backend.cpp.
pub mod Read
use psu_usb_to_pmbus.Ax1600i.Backend.Read.{is_core}
use psu_usb_to_pmbus.UsbTransport.{UsbTransport}
use psu_usb_to_pmbus.Ax1600i.Exchange.Invariant.{IsSized}
use psu_usb_to_pmbus.Base.{ℕ, arith, if◌then◌else◌, length, leb, Bool, ◌≡◌, ◌&&◌, ◌<◌, ◌≤◌, ◌^◌}
use psu_usb_to_pmbus.Ax1600i.Backend.{Backend, publish, complete_probe, resume_link, reset_link}

-- The rail that the walk through the registers has selected before a step.
abbrev pub rail_of : ℕ → ℕ
rail_of step = if leb 16 step && leb step 22 then 1 else if leb 23 step && leb step 26 then 2 else 0

-- Every index stays in its array, the arrays keep their lengths, and the selected rail is the one
-- that the walk is at.
pub record IsPlaced {T : Type 0} (b : Backend T) : Type 0 where
  pub sized : IsSized b.exchange
  pub rails : length b.working.rails ≡ 3
  pub branches : length b.working.branches ≡ 12
  pub model : length b.working.model ≡ 24
  pub branch_fits : b.selected_branch < 12
  pub step_fits : b.program_step < 31
  pub rail_follows : b.selected_rail ≡ rail_of b.program_step
  pub stage_fits : b.operation_stage ≤ 2
  pub length_fits : b.register_length ≤ 7
  pub probe_fits : b.probe_register < 2 ^ 8

-- Besides, the core values are called valid exactly if all four have been read.
pub record IsBounded {T : Type 0} (b : Backend T) : Type 0 where
  pub placed : IsPlaced b
  pub core : b.working.core_valid ≡ is_core b.validity_mask

module _ {T : Type 0} where
  pub publish-IsBounded : (now_ms : ℕ) {b : Backend T} → IsBounded b → IsBounded (publish now_ms b)
  unfolding publish
  publish-IsBounded now_ms h = ground (arith, h)

  pub complete_probe-IsBounded :
      (now_ms : ℕ) (available : Bool) {b : Backend T}
      → IsBounded b
      → IsBounded (complete_probe now_ms available b)
  unfolding complete_probe publish
  complete_probe-IsBounded now_ms available h = ground (arith, h)

module _ {T : Type 0} ⦃usb : UsbTransport T⦄ where
  pub reset_link-IsBounded :
      (now_ms : ℕ) {b : Backend T} → IsBounded b → IsBounded (reset_link now_ms b)
  unfolding reset_link publish
  reset_link-IsBounded now_ms h = ground (arith, h)

  pub resume_link-IsBounded :
      (now_ms : ℕ) {b : Backend T} → IsBounded b → IsBounded (resume_link now_ms b)
  unfolding resume_link
  resume_link-IsBounded now_ms h = ground (arith, h)
