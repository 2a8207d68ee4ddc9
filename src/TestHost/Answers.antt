-- ===== src/TestHost/Answers.antt =====
-- What `transaction` of tools/PMBusTestHost/PMBusTestHost.ino makes of the bytes that a target sends.
use psu_usb_to_pmbus.TestHost.Requests.{request-transact}
use psu_usb_to_pmbus.TestHost.Line.{loop}
use psu_usb_to_pmbus.TestHost.RoundTrip.{request_text}
use psu_usb_to_pmbus.TestHost.Words.{Plain, write_read}
use psu_usb_to_pmbus.TestHost.Request.{hex_text, parse_hex}
use psu_usb_to_pmbus.Base.{
  zero, All, List, [], append_assoc, arith, drop, false, length, length-append, ltb, refl,
  set-append, some, suc, sym, true, ℕ, ◌%◌, ◌++◌, ◌+◌, ◌-◌, ◌<◌, ◌==◌, ◌^◌, ◌∷◌, ◌≡◌, ◌≤◌, Bool,
  leb, take-append, ◌||◌, ==_iff,
}
use psu_usb_to_pmbus.TestHost.{Wire, TestHost, Called, on_wire}
use psu_usb_to_pmbus.TestHost.Transaction.{collect, read_phase, write_phase, ok_text, transact}

hex_text_read :
    (bytes : List ℕ)
    → All (λ v. v < 2 ^ 8) bytes
    → 0 < length bytes
    → length bytes ≤ 32
    → parse_hex (hex_text bytes) ≡ some bytes
hex_text_read [] small some_byte few = absurd (omega (arith, some_byte))
hex_text_read (v ∷ bytes) small some_byte few = (write_read (v ∷ bytes) small few).0

-- The place of the byte that has just been read, with `left` behind it.
place :
    (before left n : ℕ)
    → n ≡ suc (before + left)
    → n ≤ 32
    → (n + 2 ^ 32 - (left + 1) % 2 ^ 32) % 2 ^ 32 ≡ before
place before left n split few = omega (arith, split, few)

module _ {W : Type 0} ⦃bus : Wire W⦄ where
  -- The bytes that are left to read.
  abbrev pub Delivers : List ℕ → W → Type 0
  Delivers [] w = bus.available w ≡ 0
  Delivers (byte ∷ bytes) w =
      (bus.available w ≡ suc (length bytes))
      × ((bus.read w).result ≡ some byte)
      × Delivers bytes (bus.read w).wire

  Delivers-available : (bytes : List ℕ) (w : W) → Delivers bytes w → bus.available w ≡ length bytes
  Delivers-available [] w d = d
  Delivers-available (byte ∷ bytes) w d = d.0

  -- As many rounds as bytes are available are enough: the condition of the loop is false then.
  collect-available :
      (rounds read_length : ℕ) (w : W) (bytes : List ℕ)
      → bus.available w ≡ rounds
      → bus.available (collect rounds read_length w bytes).wire ≡ 0
  unfolding collect
  collect-available zero read_length w bytes h = h
  collect-available (suc rounds) read_length w bytes h =
      let left : bus.available (bus.read w).wire ≡ rounds = omega (arith, bus.read_takes w, h) in
      let there : (bus.available w == 0) ≡ false = ground (arith, h) in
      rw there (collect-available rounds read_length (bus.read w).wire _ left)

  -- One more byte.
  collect-read :
      (byte : ℕ) (bytes before rest : List ℕ) (r n : ℕ) (w : W)
      → Delivers (byte ∷ bytes) w
      → byte < 2 ^ 8
      → n ≡ suc (length before + length bytes)
      → n ≤ 32
      → collect (suc (length bytes)) n w (before ++ r ∷ rest)
        ≡ collect (length bytes) n (bus.read w).wire (before ++ byte ∷ rest)
  unfolding collect
  collect-read byte bytes before rest r n w d small split few =
      let left = Delivers-available bytes (bus.read w).wire d.2 in
      let there : (bus.available w == 0) ≡ false = ground (arith, d.0) in
      let at = place (length before) (length bytes) n split few in
      let inside : ltb (length before) 32 ≡ true = ground (arith, split, few) in
      let value : byte % 2 ^ 8 ≡ byte = omega (arith, small) in
      rw (there, left, at, d.1, inside, value, set-append before rest r byte) refl

  -- The bytes are stored in the order in which they come.
  collect-Delivers :
      (bytes before rest : List ℕ) (n : ℕ) (w : W)
      → Delivers bytes w
      → All (λ v. v < 2 ^ 8) bytes
      → n ≡ length before + length bytes
      → n ≤ 32
      → length bytes ≤ length rest
      → ((collect (length bytes) n w (before ++ rest)).result
          ≡ before ++ (bytes ++ drop (length bytes) rest))
        × (bus.available (collect (length bytes) n w (before ++ rest)).wire ≡ 0)
  unfolding collect
  collect-Delivers [] before rest n w d small split few room = (refl, d)
  collect-Delivers (byte ∷ bytes) before [] n w d small split few room =
      absurd (omega (arith, room))
  collect-Delivers (byte ∷ bytes) before (r ∷ rest) n w d small split few room =
      let further =
        collect-Delivers bytes (before ++ byte ∷ []) rest n (bus.read w).wire d.2 small.1
          (omega (arith, split, length-append before (byte ∷ []))) few (omega (arith, room)) in
      let taken = collect-read byte bytes before rest r n w d small.0 (omega (arith, split)) few in
      let there = append_assoc before (byte ∷ []) rest in
      let whole = append_assoc before (byte ∷ []) (bytes ++ drop (length bytes) rest) in
      rw (taken, sym there) (rw (sym whole) further)

  -- What the bus has answered to a write, when it has taken all of it.
  abbrev after_write : ℕ → Bool → List ℕ → W → W
  after_write address stops [] w = w
  after_write address stops (byte ∷ bytes) w =
      let buffered = bus.write (byte ∷ bytes) (bus.begin_transmission address w) in
      (bus.end_transmission stops buffered.wire).wire

  abbrev pub Acknowledges : ℕ → Bool → List ℕ → W → Type 0
  Acknowledges address stops [] w = Unit
  Acknowledges address stops (byte ∷ bytes) w =
      let buffered = bus.write (byte ∷ bytes) (bus.begin_transmission address w) in
      (buffered.result ≡ suc (length bytes))
      × ((bus.end_transmission stops buffered.wire).result ≡ 0)

  -- The bus once the read has been asked for.
  abbrev pub asked : ℕ → Bool → ℕ → List ℕ → W → Called ℕ W
  asked address stops read_length bytes w =
      bus.request_from address read_length true (after_write address stops bytes w)

  write_phase-Acknowledges :
      (sequence : List ℕ) (address : ℕ) (stops : Bool) (read_length : ℕ) (bytes : List ℕ)
      (h : TestHost W)
      → 0 < read_length
      → Acknowledges address stops bytes h.wire
      → write_phase sequence address stops read_length bytes h
        ≡ record { failed = false; host = on_wire (after_write address stops bytes h.wire) h }
  unfolding write_phase
  write_phase-Acknowledges sequence address stops read_length [] h some_byte k = refl
  write_phase-Acknowledges sequence address stops read_length (byte ∷ bytes) h some_byte k =
      let stopping : (read_length == 0 || stops) ≡ stops = ground (arith, some_byte) in
      let taken =
        (==_iff (bus.write (byte ∷ bytes) (bus.begin_transmission address h.wire)).result
            (suc (length bytes))).1
          k.0 in
      let some_of_them : (suc (length bytes) == 0) ≡ false = ground arith in
      rw (write_phase, stopping, taken, k.1, some_of_them) refl

  read_phase-Delivers :
      (sequence : List ℕ) (address : ℕ) (reply : List ℕ) (h : TestHost W)
      → 0 < length reply
      → length reply ≤ 32
      → length h.scratch ≡ 32
      → All (λ v. v < 2 ^ 8) reply
      → (bus.request_from address (length reply) true h.wire).result ≡ length reply
      → Delivers reply (bus.request_from address (length reply) true h.wire).wire
      → ((read_phase sequence address (length reply) h).output
          ≡ h.output ++ ok_text sequence (hex_text reply))
        × (bus.available (read_phase sequence address (length reply) h).wire ≡ 0)
  unfolding read_phase
  read_phase-Delivers sequence address reply h some_byte few room small whole d =
      let w = (bus.request_from address (length reply) true h.wire).wire in
      let (stored, empty) =
        collect-Delivers reply [] h.scratch (length reply) w d small (omega arith) few
          (omega (arith, few, room)) in
      let reads : (length reply == 0) ≡ false = ground (arith, some_byte) in
      let fits : leb (length reply) 32 ≡ true = ground (arith, few) in
      let shown = take-append reply (drop (length reply) h.scratch) in
      let same : (length reply == length reply) ≡ true = ground arith in
      rw (whole, Delivers-available reply w d, reads, fits, same, stored, shown) (refl, empty)

  transact-Delivers :
      (sequence : List ℕ) (address : ℕ) (stops : Bool) (bytes reply : List ℕ) (h : TestHost W)
      → 0 < length reply
      → length reply ≤ 32
      → length h.scratch ≡ 32
      → All (λ v. v < 2 ^ 8) reply
      → Acknowledges address stops bytes h.wire
      → (asked address stops (length reply) bytes h.wire).result ≡ length reply
      → Delivers reply (asked address stops (length reply) bytes h.wire).wire
      → ((transact sequence address stops (length reply) bytes h).output
          ≡ h.output ++ ok_text sequence (hex_text reply))
        × (bus.available (transact sequence address stops (length reply) bytes h).wire ≡ 0)
  unfolding transact
  transact-Delivers sequence address stops bytes reply h some_byte few room small k whole d =
      rw (write_phase-Acknowledges sequence address stops (length reply) bytes h some_byte k) (
        read_phase-Delivers sequence address reply
          (on_wire (after_write address stops bytes h.wire) h) some_byte few room small whole d)

  -- A request for a read, written as the host programs write it, to a host that has received nothing
  -- of a line yet: if the target acknowledges the bytes that are to be written and the bus then
  -- delivers the bytes asked for, from one to 32 of them, the host prints one line with the sequence
  -- of the request and these bytes in hexadecimal, which its own reader reads back, and nothing is
  -- left to read on the bus.
  pub request-Delivers :
      (sequence : List ℕ) (address : ℕ) (stops : Bool) (bytes reply : List ℕ) (h : TestHost W)
      → 0 < length sequence
      → length sequence ≤ 79
      → Plain sequence
      → address < 128
      → All (λ v. v < 2 ^ 8) bytes
      → length bytes ≤ 32
      → 0 < length reply
      → length reply ≤ 32
      → All (λ v. v < 2 ^ 8) reply
      → length h.scratch ≡ 32
      → length h.line ≡ 160
      → h.line_length ≡ 0
      → Acknowledges address stops bytes h.wire
      → (asked address stops (length reply) bytes h.wire).result ≡ length reply
      → Delivers reply (asked address stops (length reply) bytes h.wire).wire
      → let text = request_text sequence address stops (length reply) bytes in
        let answered = loop (text ++ b'\n' ∷ []) h in
        (answered.output ≡ h.output ++ ok_text sequence (hex_text reply))
        × (parse_hex (hex_text reply) ≡ some reply)
        × (bus.available answered.wire ≡ 0)
        × (answered.line_length ≡ 0)
  request-Delivers sequence address stops bytes reply h some_byte short s seven all small answers
        few whole_reply room whole start k full d =
      let n = length reply in
      let text = request_text sequence address stops n bytes in
      let (shown, empty) =
        transact-Delivers sequence address stops bytes reply h answers few room whole_reply k full
          d in
      rw
        (request-transact sequence address stops n bytes h some_byte short s seven few all small
          whole start)
        (shown, hex_text_read reply whole_reply answers few, empty, refl)
