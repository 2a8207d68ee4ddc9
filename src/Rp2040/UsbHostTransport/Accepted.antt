-- ===== src/Rp2040/UsbHostTransport/Accepted.antt =====
-- What `driver_open` of src/platform/rp2040/usb_transport.cpp accepts.
use psu_usb_to_pmbus.Base.{
  refl, some, zero, suc, true, false, inl, inr, arith, ℕ, Option, List, ◌≡◌, ◌≢◌, ◌<◌, get_or, ◌^◌,
  ◌⊎◌, ◌-◌, ◌≤◌, Bool-cases, Option-cases, take, drop, if_cases, ◌==◌, ◌+◌, not, ◌%◌, ◌||◌, subst,
  sym, ◌∙◌, ap,
}
use psu_usb_to_pmbus.Rp2040.UsbHostTransport.{UsbHost, UsbHostTransport}
use psu_usb_to_pmbus.Rp2040.UsbHostTransport.Open.{
  Walk, Opened, Visit, goes_on, visit_descriptor, open_endpoint, open_endpoints, accept_device,
  open_interface, driver_open, finish_open, interface_number_at, interface, vendor_id, product_id,
  bulk_in_endpoint, bulk_out_endpoint, is_endpoint, is_bulk, note_open, reject_with, note_device,
  start,
}

supply :
    (device : ℕ × ℕ)
    → (not (device.0 == vendor_id) || not (device.1 == product_id)) ≡ false
    → device ≡ (vendor_id, product_id)
supply device e = ground (arith, e)

module _ {H : Type 0} where
  visit_cases :
      (o : Visit H)
      → ((t : UsbHostTransport H) × (o ≡ Visit.rejected t)) ⊎ ((w : Walk H) × (o ≡ Visit.passed w))
  visit_cases (Visit.rejected t) = inl (t, refl)
  visit_cases (Visit.passed w) = inr (w, refl)

  -- Once an endpoint has been found, the bytes consumed are not none and not too many.
  abbrev Walked : ℕ → Walk H → Type 0
  Walked max_len w =
      (w.transport.reject_code ≡ 0)
      × ((w.transport.endpoint_in ≡ 0) ⊎ ((0 < w.consumed) × (w.consumed ≤ max_len)))

  abbrev Ended : ℕ → Visit H → Type 0
  Ended max_len (Visit.rejected t) = t.reject_code ≢ 0
  Ended max_len (Visit.passed w) = Walked max_len w

  -- What the body of the loop leaves to be consumed.
  abbrev Visited : List ℕ → ℕ → Visit H → Type 0
  Visited bytes consumed (Visit.rejected t) = t.reject_code ≢ 0
  Visited bytes consumed (Visit.passed w) =
      (w.transport.reject_code ≡ 0) × (w.consumed ≡ consumed) × (get_or bytes consumed 0 ≢ 0)

  -- The pointer moves.
  abbrev pass : List ℕ → Walk H → Walk H
  pass bytes v = record v { consumed = (v.consumed + get_or bytes v.consumed 0) % 2 ^ 16 }

  further :
      (bytes : List ℕ) (max_len : ℕ) {fuel : ℕ} (w v : Walk H)
      → max_len < 2 ^ 16
      → max_len - w.consumed < suc fuel
      → goes_on bytes max_len w ≡ true
      → Visited bytes w.consumed (Visit.passed v)
      → (max_len - (pass bytes v).consumed < fuel) × Walked max_len (pass bytes v)
  further bytes max_len w v small enough e (plain, same, moves) =
      let inside : w.consumed + get_or bytes w.consumed 0 ≤ max_len = ground (arith, e) in
      let consumed : (v.consumed + get_or bytes v.consumed 0) % 2 ^ 16
          ≡ w.consumed + get_or bytes w.consumed 0 =
        rw same (omega (arith, inside, small)) in
      (
        omega (arith, consumed, inside, moves),
        (plain, inr (omega (arith, consumed, moves), omega (arith, consumed, inside))),
      )

  abbrev pub Answer : Option (ℕ × ℕ) → ℕ → List ℕ → ℕ → Opened H → Type 0
  Answer device dev_addr bytes max_len r =
      let t = r.transport in
      ((r.consumed ≡ 0) × (t.reject_code ≢ 0))
      ⊎ ((0 < r.consumed)
          × (r.consumed ≤ max_len)
          × (t.reject_code ≡ 0)
          × (device ≡ some (vendor_id, product_id))
          × (get_or bytes interface_number_at 0 ≡ interface)
          × (t.endpoint_in ≡ bulk_in_endpoint)
          × (t.endpoint_out ≡ bulk_out_endpoint)
          × (t.device_address ≡ dev_addr)
          × (t.interface_number ≡ interface)
          × (t.configured ≡ false))

  accept_device-Answer :
      (dev_addr : ℕ) (bytes : List ℕ) (max_len : ℕ) (w : Walk H)
      → Walked max_len w
      → get_or bytes interface_number_at 0 ≡ interface
      → Answer
          (some (vendor_id, product_id))
          dev_addr
          bytes
          max_len
          (accept_device dev_addr bytes w)
  unfolding accept_device
  accept_device-Answer dev_addr bytes max_len w h i = ground (arith, h, i)

module _ {H : Type 0} ⦃usb_host : UsbHost H⦄ where
  visit_descriptor-Visited :
      (dev_addr : ℕ) (bytes : List ℕ) (w : Walk H)
      → w.transport.reject_code ≡ 0
      → Visited bytes w.consumed (visit_descriptor dev_addr bytes w)
  unfolding visit_descriptor open_endpoint
  visit_descriptor-Visited dev_addr bytes w h =
      let visited = Visited bytes w.consumed in
      let t = w.transport in
      let descriptor = take (get_or bytes w.consumed 0) (drop w.consumed bytes) in
      if_cases visited (get_or bytes w.consumed 0 == 0) (λ _. omega arith)
        λ e.
          let moves : get_or bytes w.consumed 0 ≢ 0 = ground arith in
          if_cases visited (is_endpoint (get_or bytes (w.consumed + 1) 0))
            (λ _.
              if_cases visited (not (is_bulk (get_or bytes (w.consumed + 3) 0))) (λ _. omega arith)
                (λ _.
                  if_cases visited (not (usb_host.edpt_open dev_addr descriptor t.host).accepted)
                    (λ _. omega arith) (λ _. (ground (arith, h), refl, moves))))
            (λ _. (h, refl, moves))

  open_endpoints-Ended :
      (fuel dev_addr : ℕ) (bytes : List ℕ) (max_len : ℕ) (w : Walk H)
      → max_len < 2 ^ 16
      → max_len - w.consumed < fuel
      → Walked max_len w
      → (o : Visit H) × (open_endpoints fuel dev_addr bytes max_len w ≡ some o) × Ended max_len o
  unfolding open_endpoints
  open_endpoints-Ended zero dev_addr bytes max_len w small enough h = absurd (omega arith)
  open_endpoints-Ended (suc fuel) dev_addr bytes max_len w small enough h =
      let visited = visit_descriptor-Visited dev_addr bytes w h.0 in
      elim (Bool-cases (goes_on bytes max_len w)) [
        | inl e ↦ elim (visit_cases (visit_descriptor dev_addr bytes w)) [
          | inl (t, r) ↦ (Visit.rejected t, rw (e, r, open_endpoints) refl, rw r at visited)
          | inr (v, p) ↦
              let moves = further bytes max_len w v small enough e (rw p at visited) in
              let (o, ends, ended) =
                open_endpoints-Ended fuel dev_addr bytes max_len (pass bytes v) small moves.0
                  moves.1 in
              (o, rw (e, p, open_endpoints) ends, ended)
        ]
        | inr e ↦ (Visit.passed w, rw (e, open_endpoints) refl, h)
      ]

  finish_open-Answer :
      (dev_addr : ℕ) (bytes : List ℕ) (max_len : ℕ) (o : Visit H)
      → Ended max_len o
      → get_or bytes interface_number_at 0 ≡ interface
      → Answer (some (vendor_id, product_id)) dev_addr bytes max_len (finish_open dev_addr bytes o)
  finish_open-Answer dev_addr bytes max_len (Visit.rejected t) h i = inl (refl, h)
  finish_open-Answer dev_addr bytes max_len (Visit.passed w) h i =
      accept_device-Answer dev_addr bytes max_len w h i

  open_interface-Answer :
      (dev_addr : ℕ) (bytes : List ℕ) (max_len : ℕ) (t : UsbHostTransport H)
      → max_len < 2 ^ 16
      → t.reject_code ≡ 0
      → get_or bytes interface_number_at 0 ≡ interface
      → (r : Opened H) × (open_interface dev_addr bytes max_len t ≡ some r)
        × Answer (some (vendor_id, product_id)) dev_addr bytes max_len r
  unfolding open_interface
  open_interface-Answer dev_addr bytes max_len t small plain i =
      let (o, ends, ended) =
        open_endpoints-Ended (max_len + 1) dev_addr bytes max_len (start bytes t) small
          (omega arith) (plain, inl refl) in
      opened o ends ended
    where
      opened :
          (o : Visit H)
          → open_endpoints (max_len + 1) dev_addr bytes max_len (start bytes t) ≡ some o
          → Ended max_len o
          → (r : Opened H) × (open_interface dev_addr bytes max_len t ≡ some r)
            × Answer (some (vendor_id, product_id)) dev_addr bytes max_len r
      opened o ends ended = (
        finish_open dev_addr bytes o,
        rw (open_interface, ends) refl,
        finish_open-Answer dev_addr bytes max_len o ended i,
      )

  -- A call of `driver_open` with a length below 2^16 returns, and either refuses, with 0 and a code
  -- that is not 0, or accepts: the device has the vendor and product numbers of the supply, the
  -- interface is number 0, its endpoints are the two expected ones, the bytes consumed are at least
  -- one and at most the given length, and the transport belongs to the device, not yet configured.
  pub driver_open-Answer :
      (dev_addr : ℕ) (bytes : List ℕ) (max_len : ℕ) (t : UsbHostTransport H)
      → max_len < 2 ^ 16
      → (r : Opened H) × (driver_open dev_addr bytes max_len t ≡ some r)
        × Answer (usb_host.vid_pid_get dev_addr t.host) dev_addr bytes max_len r
  unfolding driver_open open_interface
  driver_open-Answer dev_addr bytes max_len t small =
      let noted = note_open bytes t in
      elim (Option-cases (usb_host.vid_pid_get dev_addr t.host)) [
        | inl e ↦ (
          record { consumed = 0; transport = reject_with 1 noted },
          rw (e, driver_open) refl,
          inl (refl, omega arith),
        )
        | inr (device, e) ↦
            let known = note_device device noted in
            elim (Bool-cases (not (device.0 == vendor_id) || not (device.1 == product_id))) [
              | inl other ↦ (
                record { consumed = 0; transport = reject_with 2 known },
                rw (e, other, driver_open) refl,
                inl (refl, omega arith),
              )
              | inr same ↦
                  elim (Bool-cases (not (get_or bytes interface_number_at 0 == interface))) [
                    | inl other ↦ (
                      record { consumed = 0; transport = reject_with 3 known },
                      rw (e, same, other, driver_open) refl,
                      inl (refl, omega arith),
                    )
                    | inr first ↦
                        let (r, opens, answer) =
                          open_interface-Answer dev_addr bytes max_len known small refl
                            (ground (arith, first)) in
                        (
                          r,
                          rw (e, same, first, driver_open) opens,
                          subst (λ d. Answer d dev_addr bytes max_len r)
                              (sym (e ∙ ap some (supply device same))) answer,
                        )
                  ]
            ]
      ]
