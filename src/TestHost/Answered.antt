-- ===== src/TestHost/Answered.antt =====
-- `transaction` of tools/PMBusTestHost/PMBusTestHost.ino prints one reply, whatever the bus answers.
use psu_usb_to_pmbus.Base.{
  codes, All-append, All-take, Bool, List, Option-cases, ap, arith, false, if_cases, if◌then◌else◌,
  inl, inr, leb, length, not, refl, some, take, true, ℕ, ◌++◌, ◌==◌, ◌||◌, ◌∙◌, ◌∷◌, ◌≡◌, ◌≢◌, ◌⊎◌,
}
use psu_usb_to_pmbus.TestHost.Replies.{
  IsReply, Inline, wire_error-Inline, ok_text-IsReply, error_text-IsReply, hex_text-Inline,
  decimal-Inline,
}
use psu_usb_to_pmbus.TestHost.{TestHost, Wire, print, on_wire}
use psu_usb_to_pmbus.TestHost.Text.{same_text, decimal}
use psu_usb_to_pmbus.TestHost.Request.{error_text, wire_error, parse_hex, hex_text}
use psu_usb_to_pmbus.TestHost.Transaction.{
  fail, Written, write_phase, read_phase, transact, transaction, range_of, collect, ok_text,
}

module _ {W : Type 0} ⦃bus : Wire W⦄ where
  -- One reply more, and the line as it was.
  pub record Answered (h g : TestHost W) : Type 0 where
    pub text : List ℕ
    pub reply : IsReply text
    pub output : g.output ≡ h.output ++ text
    pub line : g.line ≡ h.line

  pub printed-Answered : (text : List ℕ) (h : TestHost W) → IsReply text → Answered h (print text h)
  printed-Answered text h r = record { text = text; reply = r; output = refl; line = refl }

  pub fail-Answered :
      (sequence code detail : List ℕ) (h : TestHost W)
      → Inline sequence
      → Inline code
      → Inline detail
      → Answered h (fail sequence code detail h)
  fail-Answered sequence code detail h s c d =
      printed-Answered (error_text (some sequence) code detail) h
        (error_text-IsReply (some sequence) code detail s c d)

  -- The bus may differ before the reply.
  on_wire-Answered : (w : W) (h g : TestHost W) → Answered (on_wire w h) g → Answered h g
  on_wire-Answered w h g a = record {
    text = a.text;
    reply = a.reply;
    output = a.output;
    line = a.line;
  }

  -- A write fails with a reply, or prints nothing.
  abbrev WriteOutcome : TestHost W → Written W → Type 0
  WriteOutcome h r =
      (Answered h r.host × (r.failed ≡ true))
      ⊎ ((r.failed ≡ false) × (r.host.output ≡ h.output) × (r.host.line ≡ h.line))

  write_phase_outcome :
      (sequence : List ℕ) (address : ℕ) (stops : Bool) (read_length : ℕ) (bytes : List ℕ)
      (h : TestHost W)
      → Inline sequence
      → WriteOutcome h (write_phase sequence address stops read_length bytes h)
  unfolding write_phase
  write_phase_outcome sequence address stops read_length bytes h s =
      let buffered = bus.write bytes (bus.begin_transmission address h.wire) in
      let ended = bus.end_transmission (read_length == 0 || stops) buffered.wire in
      if_cases (WriteOutcome h) (length bytes == 0) (λ e. inr (refl, refl, refl))
        (λ e.
          if_cases (WriteOutcome h) (not (buffered.result == length bytes))
            (λ k. inl (
              on_wire-Answered buffered.wire h _ (
                  fail-Answered sequence (codes "I2C") (codes "tx_buffer") (on_wire buffered.wire h)
                    s (omega arith) (omega arith)),
              refl,
            ))
            (λ k.
              if_cases (WriteOutcome h) (not (ended.result == 0))
                (λ l. inl (
                  on_wire-Answered ended.wire h _ (
                      fail-Answered sequence (wire_error ended.result) (codes "endTransmission")
                        (on_wire ended.wire h) s (wire_error-Inline ended.result) (omega arith)),
                  refl,
                ))
                (λ l. inr (refl, refl, refl))))

  read_phase-Answered :
      (sequence : List ℕ) (address read_length : ℕ) (h : TestHost W)
      → Inline sequence
      → Answered h (read_phase sequence address read_length h)
  unfolding read_phase
  read_phase-Answered sequence address read_length h s =
      let requested = bus.request_from address read_length true h.wire in
      let rounds = if leb requested.result 32 then bus.available requested.wire else 0 in
      let collected = collect rounds read_length requested.wire h.scratch in
      let text = decimal requested.result ++ (b'/' ∷ decimal read_length) in
      let short : Inline (take 19 text) =
        All-take (λ c. c ≢ b'\n') 19 text
          (All-append (λ c. c ≢ b'\n') (decimal requested.result) (b'/' ∷ decimal read_length)
            (decimal-Inline requested.result) (omega arith, decimal-Inline read_length)) in
      let handed = on_wire collected.wire h in
      let digits = hex_text (take read_length collected.result) in
      if_cases (Answered h) (read_length == 0)
        (λ e.
          printed-Answered (ok_text sequence (codes "-")) h
            (ok_text-IsReply sequence (codes "-") s (omega arith)))
        (λ e.
          if_cases (Answered h) (not (requested.result == read_length))
            (λ k. on_wire-Answered collected.wire h _ (
              fail-Answered sequence (codes "SHORT_READ") (take 19 text) handed s (omega arith)
                short))
            (λ k. on_wire-Answered collected.wire h _ (
              printed-Answered (ok_text sequence digits) handed (
                ok_text-IsReply sequence digits s
                  (hex_text-Inline (take read_length collected.result))))))

  transact-Answered :
      (sequence : List ℕ) (address : ℕ) (stops : Bool) (read_length : ℕ) (bytes : List ℕ)
      (h : TestHost W)
      → Inline sequence
      → Answered h (transact sequence address stops read_length bytes h)
  unfolding transact
  transact-Answered sequence address stops read_length bytes h s =
      let written = write_phase sequence address stops read_length bytes h in
      let further = read_phase-Answered sequence address read_length written.host s in
      elim (write_phase_outcome sequence address stops read_length bytes h s) [
        | inl (answered, failed) ↦ rw failed answered
        | inr (failed, output, line) ↦ rw failed (record {
          text = further.text;
          reply = further.reply;
          output = further.output ∙ ap (λ (o : List ℕ). o ++ further.text) output;
          line = further.line ∙ line;
        })
      ]

  pub transaction-Answered :
      (sequence address mode read_length write : List ℕ) (h : TestHost W)
      → Inline sequence
      → Answered h (transaction sequence address mode read_length write h)
  unfolding transaction
  transaction-Answered sequence address mode read_length write h s =
      elim (Option-cases (range_of address mode read_length)) [
        | inl e ↦
            rw (transaction, e)
              (fail-Answered sequence (codes "RANGE") (codes "address/mode/length") h s
                (omega arith) (omega arith))
        | inr (range, e) ↦ elim (Option-cases (parse_hex write)) [
          | inl k ↦
              rw (transaction, e, k)
                (fail-Answered sequence (codes "PARSE") (codes "write_hex") h s (omega arith)
                  (omega arith))
          | inr (bytes, k) ↦
              rw (transaction, e, k)
                (transact-Answered sequence range.address (same_text mode (codes "STOP"))
                  range.read_length bytes h s)
        ]
      ]
