-- ===== src/Ax1600i/Backend/Progress/Calls.antt =====
-- Operations of src/psu/corsair_ax1600i/backend.cpp over the calls of `task`.
use psu_usb_to_pmbus.Ax1600i.Backend.Invariant.Link.{ready_of}
use psu_usb_to_pmbus.Ax1600i.Backend.Progress.{IsOver, horizon}
use psu_usb_to_pmbus.Ax1600i.Backend.Progress.Service.{GoesOn, service_operation-progress}
use psu_usb_to_pmbus.Ax1600i.Backend.Registers.{service_operation}
use psu_usb_to_pmbus.Ax1600i.Backend.Invariant.{IsValid, IsOperating}
use psu_usb_to_pmbus.Ax1600i.Backend.Invariant.{IsPhased}
use psu_usb_to_pmbus.Ax1600i.Backend.Invariant.Link.{set_time-IsValid, task-IsValid}
use psu_usb_to_pmbus.Base.{
  All, refl, ℕ, List, [], ◌∷◌, inl, inr, arith, ◌≡◌, ◌≤◌, true, false, ◌||◌, ◌⊎◌, ◌<◌, ltb,
  if_cases, subst, sym, ◌+◌,
}
use psu_usb_to_pmbus.UsbTransport.{UsbTransport}
use psu_usb_to_pmbus.Ax1600i.Backend.{Backend, LinkState, Operation}
use psu_usb_to_pmbus.Ax1600i.Exchange.{ExchangeState, is_in_flight}
use psu_usb_to_pmbus.Ax1600i.Backend.Task.{
  task, open_link, visit_link, serve_ready, set_time, is_ready,
}
use psu_usb_to_pmbus.Ax1600i.Backend.Schedule.{schedule_next, is_busy}

-- An operation is under way only on an initialized link.
under_way :
    (link : LinkState) (stage : ℕ) (o : Operation) (s : ExchangeState)
    → IsPhased link stage o s
    → is_busy o ≡ true
    → (link ≡ LinkState.ready) × (is_in_flight s ≡ true)
under_way link stage o s p busy = ground (arith, p, busy)

module _ {T : Type 0} where
  schedule_next-waits :
      (now_ms : ℕ) (b : Backend T)
      → (is_busy b.operation || ltb now_ms b.next_action_ms) ≡ true
      → schedule_next now_ms b ≡ b
  unfolding schedule_next
  schedule_next-waits now_ms b e = rw e refl

module _ {T : Type 0} ⦃usb : UsbTransport T⦄ where
  task-ready :
      (now_ms : ℕ) (b : Backend T)
      → usb.connected b.transport ≡ true
      → b.link_state ≡ LinkState.ready
      → task now_ms b ≡ serve_ready now_ms (set_time now_ms b)
  unfolding task open_link visit_link
  task-ready now_ms b up linked = ground arith

  -- What a call of `task` makes of an operation.
  abbrev Proceeds : ℕ → Backend T → Backend T → Type 0
  Proceeds now_ms b c =
      (is_busy c.operation ≡ false)
      ⊎ ((is_busy c.operation ≡ true) × (now_ms < horizon b) × (horizon c ≤ horizon b))

  serve_ready-Proceeds :
      (now_ms : ℕ) {b : Backend T}
      → IsOperating b
      → b.exchange.current_time_ms ≡ now_ms
      → is_in_flight b.exchange.state ≡ true
      → Proceeds now_ms b (serve_ready now_ms b)
  unfolding serve_ready
  serve_ready-Proceeds now_ms {b} h time flying =
      let served = service_operation now_ms b in
      let progress = service_operation-progress now_ms h flying in
      if_cases (Proceeds now_ms b) (is_ready served.link_state)
        (λ r.
          let same : schedule_next now_ms served ≡ served =
            schedule_next-waits now_ms served (quiet r progress) in
          subst (Proceeds now_ms b) (sym same) (kept progress))
        (λ _. kept progress)
    where
      served_b : Backend T
      served_b = service_operation now_ms b

      kept : IsOver now_ms served_b ⊎ GoesOn b served_b → Proceeds now_ms b served_b
      kept (inl over) = inl over.0
      kept (inr (busy, linked, early, less)) = inr (busy, omega (arith, early, time), less)

      quiet :
          is_ready served_b.link_state ≡ true
          → IsOver now_ms served_b ⊎ GoesOn b served_b
          → (is_busy served_b.operation || ltb now_ms served_b.next_action_ms) ≡ true
      quiet r (inl over) = ground (arith, over.1 (ready_of served_b.link_state r))
      quiet r (inr (busy, linked, early, less)) = rw busy refl

  task-Proceeds :
      (now_ms : ℕ) {b : Backend T}
      → IsValid b
      → is_busy b.operation ≡ true
      → usb.connected b.transport ≡ true
      → Proceeds now_ms b (task now_ms b)
  task-Proceeds now_ms {b} v busy up =
      let flying =
        under_way b.link_state b.control_stage b.operation b.exchange.state v.phased busy in
      let timed : IsOperating (set_time now_ms b) = record {
        bounded = (set_time-IsValid now_ms v).bounded;
        linked = flying.0;
        busy = busy;
      } in
      subst (Proceeds now_ms b) (sym (task-ready now_ms b up flying.0))
        (serve_ready-Proceeds now_ms timed refl flying.1)

  -- One of the calls ends the operation that is under way.
  abbrev pub Ends : Backend T → List (ℕ × T) → Type 0
  Ends b [] = ⊥
  Ends b ((now_ms, t) ∷ rest) =
      let c = task now_ms (record b { transport = t }) in
      (is_busy c.operation ≡ false) ⊎ Ends c rest

  -- One of the calls comes at the time or later.
  abbrev pub Reaches : ℕ → List (ℕ × T) → Type 0
  Reaches time [] = ⊥
  Reaches time ((now_ms, t) ∷ rest) = (time ≤ now_ms) ⊎ Reaches time rest

  abbrev pub IsConnected : ℕ × T → Type 0
  IsConnected call = usb.connected call.1 ≡ true

  Reaches-le : {m n : ℕ} (calls : List (ℕ × T)) → m ≤ n → Reaches n calls → Reaches m calls
  Reaches-le [] h r = r
  Reaches-le (call ∷ rest) h (inl late) = inl (omega (arith, h, late))
  Reaches-le (call ∷ rest) h (inr r) = inr (Reaches-le rest h r)

  handed-IsValid : (t : T) {b : Backend T} → IsValid b → IsValid (record b { transport = t })
  handed-IsValid t v = record { bounded = ground (arith, v.bounded); phased = v.phased }

  horizon-Ends :
      (calls : List (ℕ × T)) {b : Backend T}
      → IsValid b
      → is_busy b.operation ≡ true
      → All IsConnected calls
      → Reaches (horizon b) calls
      → Ends b calls
  horizon-Ends [] v busy up r = r
  horizon-Ends ((now_ms, t) ∷ rest) {b} v busy up r =
      let handed = handed-IsValid t v in
      goes_on (λ still later. horizon-Ends rest (task-IsValid now_ms handed) still up.1 later)
        (task-Proceeds now_ms handed busy up.0) r
    where
      next : Backend T
      next = task now_ms (record b { transport = t })

      goes_on :
          (is_busy next.operation ≡ true → Reaches (horizon next) rest → Ends next rest)
          → Proceeds now_ms b next
          → (horizon b ≤ now_ms) ⊎ Reaches (horizon b) rest
          → (is_busy next.operation ≡ false) ⊎ Ends next rest
      goes_on again (inl over) _ = inl over
      goes_on again (inr (still, early, less)) (inl late) = absurd (omega (arith, early, late))
      goes_on again (inr (still, early, less)) (inr later) =
          inr (again still (Reaches-le rest less later))

  -- In a valid state whose operation is under way, if the transport is connected at every one of
  -- the calls of `task`, and one of the calls comes 5500 ms after the deadline of the present
  -- exchange or later, then one of the calls ends the operation, whatever the supply answers.
  pub operation-Ends :
      (calls : List (ℕ × T)) {b : Backend T}
      → IsValid b
      → is_busy b.operation ≡ true
      → All IsConnected calls
      → Reaches (b.exchange.deadline_ms + 5500) calls
      → Ends b calls
  operation-Ends calls {b} v busy up r =
      horizon-Ends calls v busy up (Reaches-le calls (omega arith) r)
