-- ===== src/Rp2040/I2cTarget/Transactions.antt =====
-- Whole writes on the bus, through src/platform/rp2040/i2c_target.cpp: the bytes, the end of the
-- transfer, and the commit by the main loop.
use psu_usb_to_pmbus.Rp2040.I2cTarget.Invariant.{IsReady}
use psu_usb_to_pmbus.Telemetry.Snapshot.{TelemetrySnapshot}
use psu_usb_to_pmbus.Float.{Libm}
use psu_usb_to_pmbus.Pmbus.Pec.{pec}
use psu_usb_to_pmbus.Rp2040.I2cTarget.{
  receive_all, I2cTarget, receive_byte, commit, receive_capacity, write_address, event, Event,
  on_received, on_finish, carry_out, finish_transaction, Plan, reset_transaction,
}
use psu_usb_to_pmbus.Pmbus.Server.{PmbusServer}
use psu_usb_to_pmbus.Base.{
  List, [], ap, append_assoc, arith, drop, false, leb, length, length-append, ltb, refl, set, store,
  store_lem, subst, sym, true, ℕ, ◌++◌, ◌+◌, ◌==◌, ◌∙◌, ◌∷◌, ◌≡◌, ◌≤◌, if_false,
}

-- No transaction is open.
pub record IsIdle (s : I2cTarget) : Type 0 where
  pub nothing_received : s.receive_size ≡ 0
  pub no_read : s.read_active ≡ false
  pub no_commit : s.finish_pending ≡ false

-- The packet error code of a write.
abbrev pub write_code : PmbusServer → ℕ → List ℕ → ℕ
write_code server command payload = pec (write_address server ∷ command ∷ payload) 0

receive_all_lem :
    (bytes : List ℕ) (s : I2cTarget)
    → s.receive_size + length bytes ≤ receive_capacity
    → receive_all bytes s ≡ record s {
      receive = store s.receive_size bytes s.receive;
      receive_size = s.receive_size + length bytes;
    }
unfolding receive_all receive_byte
receive_all_lem [] s h = ap (λ (n : ℕ). record s { receive_size = n }) (omega arith)
receive_all_lem (b ∷ bytes) s h =
    let fits : ltb s.receive_size receive_capacity ≡ true = ground arith in
    let one : I2cTarget = record s {
      receive = set s.receive s.receive_size b;
      receive_size = s.receive_size + 1;
    } in
    rw fits (
      receive_all_lem bytes one (omega arith)
      ∙ ap
          (λ (n : ℕ). record s {
            receive = store (s.receive_size + 1) bytes (set s.receive s.receive_size b);
            receive_size = n;
          })
          (omega arith))

-- A message arrives in any number of interrupts: the time of each, and the bytes that it finds in the
-- queue, none to all that are left.
abbrev pub Batches : Type 0
Batches = List (ℕ × List ℕ)

abbrev pub joined : Batches → List ℕ
joined [] = []
joined ((arrival, bytes) ∷ batches) = bytes ++ joined batches

abbrev last_arrival : Batches → ℕ → ℕ
last_arrival [] now_ms = now_ms
last_arrival ((arrival, bytes) ∷ batches) now_ms = last_arrival batches arrival

store-append :
    (bytes more buffer : List ℕ) (n : ℕ)
    → store n (bytes ++ more) buffer ≡ store (n + length bytes) more (store n bytes buffer)
store-append [] more buffer n = ap (λ (k : ℕ). store k more buffer) (omega arith)
store-append (b ∷ bytes) more buffer n =
    store-append bytes more (set buffer n b) (n + 1)
    ∙ ap (λ (k : ℕ). store k more (store (n + 1) bytes (set buffer n b))) (omega arith)

-- The state once a message has arrived at a target with some bytes already.
abbrev loaded : I2cTarget → Batches → I2cTarget
loaded s batches = record s {
  receive = store s.receive_size (joined batches) s.receive;
  receive_size = s.receive_size + length (joined batches);
  last_event_ms = last_arrival batches s.last_event_ms;
}

abbrev took : I2cTarget → ℕ → List ℕ → I2cTarget
took s arrival bytes = record s {
  receive = store s.receive_size bytes s.receive;
  receive_size = s.receive_size + length bytes;
  last_event_ms = arrival;
}

took-loaded :
    (s : I2cTarget) (arrival : ℕ) (bytes : List ℕ) (batches : Batches)
    → loaded (took s arrival bytes) batches ≡ loaded s ((arrival, bytes) ∷ batches)
took-loaded s arrival bytes batches =
    let all = (arrival, bytes) ∷ batches in
    let split = sym (store-append bytes (joined batches) s.receive s.receive_size) in
    let count : s.receive_size + length bytes + length (joined batches)
        ≡ s.receive_size + length (joined all) =
      omega (arith, length-append bytes (joined batches)) in
    ap (λ (r : List ℕ). record (loaded (took s arrival bytes) batches) { receive = r }) split
    ∙ ap (λ (n : ℕ). record (loaded s all) { receive_size = n }) count

-- The state once a pending write of at least two bytes has been committed.
finish_write :
    (s : I2cTarget) (size : ℕ)
    → s.read_active ≡ false
    → s.receive_size ≡ size
    → 2 ≤ size
    → finish_transaction s
      ≡ reset_transaction (record s { server = commit s.server s.receive size })
unfolding finish_transaction reset_transaction
finish_write s size a e h =
    let one : (s.receive_size == 1) ≡ false = ground arith in
    let two : leb 2 s.receive_size ≡ true = ground arith in
    rw (a, one, two)
      (ap (λ (n : ℕ). reset_transaction (record s { server = commit s.server s.receive n })) e)

module _ ⦃libm : Libm⦄ (t : TelemetrySnapshot) where
  abbrev pub arrive_all : Batches → I2cTarget → I2cTarget
  arrive_all [] s = s
  arrive_all ((arrival, bytes) ∷ batches) s =
      arrive_all batches (event t arrival (Event.received_bytes bytes) s).target

  arrive_lem :
      (arrival : ℕ) (bytes : List ℕ) (s : I2cTarget)
      → s.finish_pending ≡ false
      → s.receive_size + length bytes ≤ receive_capacity
      → (event t arrival (Event.received_bytes bytes) s).target ≡ took s arrival bytes
  unfolding event on_received
  arrive_lem arrival bytes s pending h =
      ap (receive_all bytes) (
        if_false (finish_transaction (record s { last_event_ms = arrival }))
          (record s { last_event_ms = arrival }) pending)
      ∙ receive_all_lem bytes (record s { last_event_ms = arrival }) h

  arrive_all_lem :
      (batches : Batches) (s : I2cTarget)
      → s.finish_pending ≡ false
      → s.receive_size + length (joined batches) ≤ receive_capacity
      → arrive_all batches s ≡ loaded s batches
  arrive_all_lem [] s pending h = ap (λ (n : ℕ). record s { receive_size = n }) (omega arith)
  arrive_all_lem ((arrival, bytes) ∷ batches) s pending h =
      let both = length-append bytes (joined batches) in
      ap (arrive_all batches) (arrive_lem arrival bytes s pending (omega (arith, h, both)))
      ∙ arrive_all_lem batches (took s arrival bytes) pending (omega (arith, h, both))
      ∙ took-loaded s arrival bytes batches

  end_lem :
      (end : ℕ) (s : I2cTarget)
      → s.read_active ≡ false
      → (event t end Event.finish s).target
        ≡ record s { finish_pending = true; last_event_ms = end }
  unfolding event on_finish
  end_lem end s h = rw h refl

  -- The target after a whole write of a message: its batches, the end, and the commit.
  abbrev pub write_transaction : Batches → ℕ → I2cTarget → I2cTarget
  write_transaction batches end s =
      carry_out Plan.commit_write (event t end Event.finish (arrive_all batches s)).target

  write_transaction_lem :
      {s : I2cTarget}
      → IsIdle s
      → (batches : Batches) (end : ℕ) → 2 ≤ length (joined batches)
      → length (joined batches) ≤ receive_capacity
      → write_transaction batches end s
        ≡ reset_transaction (record (loaded s batches) {
          server = commit s.server (loaded s batches).receive (length (joined batches));
          finish_pending = true;
          last_event_ms = end;
        })
  unfolding carry_out
  write_transaction_lem {s} free batches end two fits =
      let arrived =
        arrive_all_lem batches s free.no_commit (omega (arith, free.nothing_received, fits)) in
      let closed = record (loaded s batches) { finish_pending = true; last_event_ms = end } in
      rw (arrived, end_lem end (loaded s batches) free.no_read)
        (finish_write closed (length (joined batches)) free.no_read
          (omega (arith, free.nothing_received)) two)

  -- After a whole write nothing is open, and the commit saw the bytes as they stand in the buffer.
  pub write_commit :
      {s : I2cTarget}
      → IsReady s
      → IsIdle s
      → (batches : Batches) (end command : ℕ) (payload : List ℕ) (code : ℕ)
      → joined batches ≡ command ∷ (payload ++ code ∷ [])
      → length payload + 2 ≤ receive_capacity
      → let after = write_transaction batches end s in
        (after.server
          ≡ commit s.server
              (command ∷ (payload ++ code ∷ drop (length payload + 2) s.receive))
              (length payload + 2))
        × IsIdle after
  unfolding reset_transaction
  write_commit {s} ready free batches end command payload code same fits =
      let bytes = command ∷ (payload ++ code ∷ []) in
      let size : length (joined batches) ≡ length payload + 2 =
        ap length same ∙ omega (arith, length-append payload (code ∷ [])) in
      let count : length bytes ≡ length payload + 2 =
        omega (arith, length-append payload (code ∷ [])) in
      let placed : (loaded s batches).receive ≡ store 0 bytes s.receive =
        ap (λ (n : ℕ). store n (joined batches) s.receive) free.nothing_received
        ∙ ap (λ (b : List ℕ). store 0 b s.receive) same in
      let stored : store 0 bytes s.receive ≡ bytes ++ drop (length bytes) s.receive =
        store_lem bytes [] s.receive 0 refl (omega (arith, count, fits, ready.receive_whole)) in
      let spread : bytes ++ drop (length bytes) s.receive
          ≡ command ∷ (payload ++ code ∷ drop (length bytes) s.receive) =
        ap (◌∷◌ command) (append_assoc payload (code ∷ []) (drop (length bytes) s.receive)) in
      let tail : command ∷ (payload ++ code ∷ drop (length bytes) s.receive)
          ≡ command ∷ (payload ++ code ∷ drop (length payload + 2) s.receive) =
        ap (λ (n : ℕ). command ∷ (payload ++ code ∷ drop n s.receive)) count in
      let whole =
        write_transaction_lem free batches end (omega (arith, size)) (omega (arith, size, fits)) in
      (
        ap (λ (x : I2cTarget). x.server) whole
            ∙ ap (λ (r : List ℕ). commit s.server r (length (joined batches)))
                (placed ∙ stored ∙ spread ∙ tail)
            ∙ ap
                (λ (n : ℕ).
                  commit s.server
                    (command ∷ (payload ++ code ∷ drop (length payload + 2) s.receive)) n)
                size,
        subst IsIdle (sym whole)
            (record { nothing_received = refl; no_read = refl; no_commit = refl }),
      )
