-- ===== src/Ax1600i/Backend/Bounds/Read.antt =====
-- The bounds under what a reply changes in the telemetry.
use psu_usb_to_pmbus.Ax1600i.Backend.Bounds.{IsBounded, IsPlaced, complete_probe-IsBounded}
use psu_usb_to_pmbus.Float.{Float, add, mul, of_ℕ}
use psu_usb_to_pmbus.Telemetry.Snapshot.{RailTelemetry}
use psu_usb_to_pmbus.Ax1600i.Backend.Read.{
  store_value, store_model, show_read, complete_read, is_probe, Completed, is_ocp, is_model,
  reply_word,
}
use psu_usb_to_pmbus.Telemetry.Power.{
  derive, update_derived_output_power, accumulate_input_power_sample,
}
use psu_usb_to_pmbus.Base.{
  ℕ, List, [], ◌∷◌, refl, arith, ◌≡◌, length, if_cases, take, set, min, ◌==◌, length-set, ◌-◌,
  length-store, replicate, length-replicate, true, ltb, leb,
}
use psu_usb_to_pmbus.Ax1600i.Backend.{Backend, Destination, publish, next_branch}

length-derive :
    (rails : List RailTelemetry) (total : Float) → length (derive rails total).rails ≡ length rails
unfolding derive
length-derive [] total = refl
length-derive (rail ∷ rest) total = ground (
  arith,
  length-derive rest total,
  length-derive rest (add total (mul rail.voltage rail.current)),
)

module _ {T : Type 0} where
  show_read-IsBounded : (now_ms : ℕ) {b : Backend T} → IsPlaced b → IsBounded (show_read now_ms b)
  unfolding show_read publish
  show_read-IsBounded now_ms h = ground (arith, h)

  store_model-IsPlaced : {b : Backend T} → IsPlaced b → IsPlaced (store_model b)
  unfolding store_model
  store_model-IsPlaced {b} h =
      let size = length b.working.model in
      let copied = take (min b.register_length (size - 1)) b.exchange.response in
      ground (arith, h, length-store 0 copied (replicate size 0), length-replicate {A = ℕ} size 0)

  set_rail-IsPlaced :
      (rail : RailTelemetry) {b : Backend T}
      → IsPlaced b
      → IsPlaced (record b {
        working = record (b.working) { rails = set b.working.rails b.selected_rail rail };
      })
  set_rail-IsPlaced rail {b} h = ground (arith, h, length-set b.working.rails b.selected_rail rail)

  set_branch-IsPlaced :
      (branch : RailTelemetry) {b : Backend T}
      → IsPlaced b
      → IsPlaced (record b {
        working = record (b.working) { branches = set b.working.branches b.selected_branch branch };
      })
  set_branch-IsPlaced branch {b} h =
      ground (arith, h, length-set b.working.branches b.selected_branch branch)

  update_derived-IsPlaced :
      {b : Backend T}
      → IsPlaced b
      → IsPlaced (record b { working = update_derived_output_power b.working })
  unfolding update_derived_output_power
  update_derived-IsPlaced {b} h = ground (arith, h, length-derive b.working.rails (of_ℕ 0))

  accumulate-IsPlaced :
      (value : Float) {b : Backend T}
      → IsPlaced b
      → IsPlaced (record b { working = accumulate_input_power_sample b.working value })
  unfolding accumulate_input_power_sample
  accumulate-IsPlaced value h = ground (arith, h)

  mark-IsPlaced :
      (mask : ℕ) {b : Backend T} → IsPlaced b → IsPlaced (record b { validity_mask = mask })
  mark-IsPlaced mask h = ground (arith, h)

  pass_branch-IsPlaced :
      {b : Backend T}
      → IsPlaced b
      → IsPlaced (record b { selected_branch = next_branch b.selected_branch })
  pass_branch-IsPlaced h = ground (arith, h)

  store_value-IsPlaced :
      (d : Destination) (raw : ℕ) (value : Float) {b : Backend T}
      → IsPlaced b
      → IsPlaced (store_value d raw value b)
  unfolding store_value
  store_value-IsPlaced Destination.pin raw value h = accumulate-IsPlaced value (ground (arith, h))
  store_value-IsPlaced Destination.rail_voltage raw value h = set_rail-IsPlaced _ h
  store_value-IsPlaced Destination.rail_current raw value h = set_rail-IsPlaced _ h
  store_value-IsPlaced Destination.native_rail_power raw value {b} h =
      let powered = update_derived-IsPlaced (set_rail-IsPlaced _ h) in
      if_cases (λ (c : Backend T). IsPlaced c) (b.selected_rail == 0) (λ _. mark-IsPlaced _ powered)
        (λ _. powered)
  store_value-IsPlaced Destination.branch_current raw value h = set_branch-IsPlaced _ h
  store_value-IsPlaced Destination.branch_power raw value h = set_branch-IsPlaced _ h
  store_value-IsPlaced Destination.branch_ocp raw value h =
      pass_branch-IsPlaced (set_branch-IsPlaced _ h)
  store_value-IsPlaced d raw value h = ground (arith, h)

  since-IsBounded :
      (since : ℕ) {b : Backend T}
      → IsBounded b
      → IsBounded (record b { operation_failure_since_ms = since })
  since-IsBounded since h = ground (arith, h)

  passed-IsBounded :
      {b : Backend T}
      → IsBounded b
      → IsBounded (record b { selected_branch = next_branch b.selected_branch })
  passed-IsBounded h = ground (arith, h)

  abbrev Bounded : Completed T → Type 0
  Bounded c = IsBounded c.backend

  pub complete_read-IsBounded :
      (now_ms : ℕ) {b : Backend T} → IsBounded b → IsBounded (complete_read now_ms b).backend
  unfolding complete_read
  complete_read-IsBounded now_ms {b} h =
      if_cases Bounded (is_probe b.destination)
        (λ _. since-IsBounded 0 (complete_probe-IsBounded now_ms true h))
        λ _.
          if_cases Bounded (ltb b.exchange.response_size b.register_length)
            (λ _.
              if_cases (λ (c : Backend T). IsBounded c) (is_ocp b.destination)
                (λ _. passed-IsBounded h) (λ _. h))
            λ _. show_read-IsBounded now_ms (
              if_cases (λ (c : Backend T). IsPlaced c) (is_model b.destination)
                (λ _. store_model-IsPlaced h.placed)
                λ _.
                  if_cases (λ (c : Backend T). IsPlaced c) (leb 2 b.register_length)
                    (λ _. store_value-IsPlaced b.destination (reply_word b) _ h.placed)
                    (λ _. h.placed))
