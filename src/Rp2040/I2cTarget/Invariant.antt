-- ===== src/Rp2040/I2cTarget/Invariant.antt =====
-- The bounds of the buffers of src/platform/rp2040/i2c_target.cpp, and the PMBus target behind them.
use psu_usb_to_pmbus.Pmbus.Server.Bounds.{read-Fits}
use psu_usb_to_pmbus.Pmbus.Server.Read.{read}
use psu_usb_to_pmbus.Telemetry.Snapshot.{TelemetrySnapshot}
use psu_usb_to_pmbus.Float.{Libm}
use psu_usb_to_pmbus.Pmbus.Server.Invariant.{
  IsValid, write-IsValid, note_bad_pec-IsValid, read-IsValid,
}
use psu_usb_to_pmbus.Pmbus.Server.{PmbusServer}
use psu_usb_to_pmbus.Rp2040.I2cTarget.{
  receive_byte, reset_transaction, receive_all, transmit_all, I2cTarget, transmit_byte,
  receive_capacity, initial, transmit_capacity, commit, finish_transaction, prepare_read,
  on_received, on_request, event, carry_out, next_byte, on_finish, Plan, Event,
}
use psu_usb_to_pmbus.Base.{
  List, [], ap, arith, length, length-set, refl, set, store, ℕ, ◌+◌, ◌∙◌, ◌∷◌, ◌≡◌, ◌≤◌,
  length-store, get_or, take, ◌-◌, drop, if_cases, false, true, ◌==◌, not, length-take,
}

pub record IsReady (s : I2cTarget) : Type 0 where
  pub receive_whole : length s.receive ≡ receive_capacity
  pub transmit_whole : length s.transmit ≡ transmit_capacity
  pub receive_fits : s.receive_size ≤ receive_capacity
  pub transmit_fits : s.transmit_size ≤ 35
  pub index_fits : s.transmit_index ≤ s.transmit_size
  pub server_valid : IsValid s.server

pub initial-IsReady : (server : PmbusServer) → IsValid server → IsReady (initial server)
initial-IsReady server v = record {
  receive_whole = refl;
  transmit_whole = refl;
  receive_fits = omega arith;
  transmit_fits = omega arith;
  index_fits = omega arith;
  server_valid = v;
}

pub reset_transaction-IsReady : {s : I2cTarget} → IsReady s → IsReady (reset_transaction s)
unfolding reset_transaction
reset_transaction-IsReady r = ground arith

-- The queue after a reply.
pub transmit_all_lem :
    (bs : List ℕ) (s : I2cTarget)
    → transmit_all bs s ≡ record s {
      transmit = store s.transmit_size bs s.transmit;
      transmit_size = s.transmit_size + length bs;
    }
unfolding transmit_all
transmit_all_lem [] s = ap (λ (n : ℕ). record s { transmit_size = n }) (omega arith)
transmit_all_lem (b ∷ bs) s =
    transmit_all_lem bs (transmit_byte b s)
    ∙ ap
        (λ (n : ℕ). record s {
          transmit = store (s.transmit_size + 1) bs (set s.transmit s.transmit_size b);
          transmit_size = n;
        })
        (omega arith)

receive_byte-IsReady : (b : ℕ) {s : I2cTarget} → IsReady s → IsReady (receive_byte b s)
unfolding receive_byte
receive_byte-IsReady b {s} r = ground (arith, length-set s.receive s.receive_size b)

receive_all-IsReady : (bytes : List ℕ) {s : I2cTarget} → IsReady s → IsReady (receive_all bytes s)
unfolding receive_all
receive_all-IsReady [] r = r
receive_all-IsReady (b ∷ bytes) {s} r = receive_all-IsReady bytes (receive_byte-IsReady b r)

commit-IsValid :
    (server : PmbusServer) (receive : List ℕ) (size : ℕ)
    → IsValid server
    → IsValid (commit server receive size)
unfolding commit
commit-IsValid server receive size v = ground (
  arith,
  write-IsValid (get_or receive 0 0) (take (size - 2) (drop 1 receive)) v,
  write-IsValid (get_or receive 0 0) (take (size - 1) (drop 1 receive)) v,
  note_bad_pec-IsValid v,
)

finish_transaction-IsReady : {s : I2cTarget} → IsReady s → IsReady (finish_transaction s)
unfolding finish_transaction reset_transaction
finish_transaction-IsReady {s} r = ground (
  arith,
  write-IsValid (get_or s.receive 0 0) [] r.server_valid,
  commit-IsValid s.server s.receive s.receive_size r.server_valid,
)

-- A queued reply and its code.
queue-IsReady :
    (bs : List ℕ) (b : ℕ) {s : I2cTarget}
    → IsReady s
    → s.transmit_size ≡ 0
    → length bs ≤ 34
    → IsReady (transmit_byte b (transmit_all bs s))
queue-IsReady bs b {s} r e h = rw transmit_all_lem record {
  receive_whole = r.receive_whole;
  transmit_whole =
      length-set (store s.transmit_size bs s.transmit) (s.transmit_size + length bs) b
      ∙ length-store s.transmit_size bs s.transmit
      ∙ r.transmit_whole;
  receive_fits = r.receive_fits;
  transmit_fits = omega arith;
  index_fits = omega (arith, r.index_fits);
  server_valid = r.server_valid;
}

with_server :
    (server : PmbusServer) {s : I2cTarget}
    → IsReady s
    → IsValid server
    → IsReady (record s { server = server })
with_server server r v = ground arith

timed_lem : (now_ms : ℕ) {s : I2cTarget} → IsReady s → IsReady (record s { last_event_ms = now_ms })
timed_lem now_ms r = ground arith

module _ ⦃libm : Libm⦄ (t : TelemetrySnapshot) where
  prepare_read-IsReady :
      (now_ms : ℕ) {s : I2cTarget} → IsReady s → IsReady (prepare_read t now_ms s)
  unfolding prepare_read transmit_all
  prepare_read-IsReady now_ms {s} r =
      let request = take (s.receive_size - 1) (drop 1 s.receive) in
      let reply = read t now_ms s.server (get_or s.receive 0 0) request in
      let bytes = take reply.response.size reply.response.bytes in
      let fits = read-Fits t now_ms s.server (get_or s.receive 0 0) request in
      let ready : I2cTarget = record s {
        transmit_size = 0;
        transmit_index = 0;
        read_active = true;
      } in
      let ready_lem : IsReady ready = ground (arith, r) in
      let served : I2cTarget = record ready { server = reply.server } in
      let served_lem : IsReady served =
        with_server reply.server ready_lem
          (read-IsValid t now_ms r.server_valid (get_or s.receive 0 0) request) in
      if_cases IsReady (s.receive_size == 0)
        (λ _. queue-IsReady [] 0xff ready_lem refl (omega arith))
        λ _.
          if_cases IsReady (not reply.response.supported)
            (λ _. queue-IsReady [] 0xff served_lem refl (omega arith))
            (λ _.
              queue-IsReady bytes _ served_lem refl
                (omega (arith, fits.bounded, length-take reply.response.size reply.response.bytes)))

  on_received-IsReady :
      (bytes : List ℕ) {s : I2cTarget} → IsReady s → IsReady (on_received t bytes s).target
  unfolding on_received
  on_received-IsReady bytes {s} r =
      receive_all-IsReady bytes
        (if_cases IsReady s.finish_pending (λ _. finish_transaction-IsReady r) (λ _. r))

  next_byte-IsReady : {s : I2cTarget} → IsReady s → IsReady (next_byte s).target
  unfolding next_byte
  next_byte-IsReady r = ground arith

  on_request-IsReady : {s : I2cTarget} → IsReady s → IsReady (on_request t s).target
  unfolding on_request
  on_request-IsReady {s} r =
      let open_read : I2cTarget = record s { finish_pending = false } in
      let open_lem : IsReady open_read = ground (arith, r) in
      next_byte-IsReady (
        if_cases IsReady s.read_active (λ _. open_lem)
          (λ _. prepare_read-IsReady s.last_event_ms open_lem))

  pub event-IsReady :
      (now_ms : ℕ) (e : Event) {s : I2cTarget} → IsReady s → IsReady (event t now_ms e s).target
  unfolding event on_finish
  event-IsReady now_ms (Event.received_bytes bytes) {s} r =
      on_received-IsReady bytes (timed_lem now_ms r)
  event-IsReady now_ms Event.request {s} r = on_request-IsReady (timed_lem now_ms r)
  event-IsReady now_ms Event.finish {s} r =
      ground (arith, finish_transaction-IsReady (timed_lem now_ms r))

-- A critical section of the main loop, whatever had been planned.
pub carry_out-IsReady : (p : Plan) {s : I2cTarget} → IsReady s → IsReady (carry_out p s)
unfolding carry_out
carry_out-IsReady Plan.commit_write {s} r =
    if_cases IsReady s.finish_pending (λ _. finish_transaction-IsReady r) (λ _. r)
carry_out-IsReady Plan.restart_bus r = reset_transaction-IsReady r
carry_out-IsReady Plan.idle r = r
