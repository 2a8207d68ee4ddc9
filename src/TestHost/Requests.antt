-- ===== src/TestHost/Requests.antt =====
-- Whole lines of tools/PMBusTestHost/PMBusTestHost.ino: requests from the first byte to the last.
use psu_usb_to_pmbus.TestHost.Text.{c_string, decimal}
use psu_usb_to_pmbus.TestHost.RoundTrip.{
  InLine, request_text, Plain-InLine, process_line-text, Plain-IsWord, InLine-append,
  arguments_text, loop-line, loop-append, c_string-append,
}
use psu_usb_to_pmbus.Base.{
  refl, [], ◌∷◌, suc, true, false, arith, List, ℕ, Bool, ◌++◌, ◌<◌, ◌≡◌, drop, ◌≤◌, All, length,
  ◌^◌, ◌+◌, set, ◌∙◌, ap, drop-cons, set-append, length-append, get_or,
}
use psu_usb_to_pmbus.TestHost.{TestHost, Wire}
use psu_usb_to_pmbus.TestHost.Words.{
  Plain, address_text, write_text, write_read, length_read, address_read,
}
use psu_usb_to_pmbus.TestHost.Transaction.{transact, write_phase, read_phase}
use psu_usb_to_pmbus.TestHost.RoundTrip.{mode_text, InLine}
use psu_usb_to_pmbus.TestHost.Line.{receive, loop, process_line}

-- The line once a text has been received and closed.
abbrev pub line_with : List ℕ → List ℕ → List ℕ
line_with text line = text ++ 0 ∷ drop (suc (length text)) line

-- The texts of a request have no byte below the space, and a request has room in a line.
request_text-InLine :
    (sequence : List ℕ) (address : ℕ) (stops : Bool) (read_length : ℕ) (bytes : List ℕ)
    → Plain sequence
    → address < 128
    → read_length ≤ 32
    → All (λ v. v < 2 ^ 8) bytes
    → length bytes ≤ 32
    → InLine (request_text sequence address stops read_length bytes)
request_text-InLine sequence address stops read_length bytes s seven few all small =
    let (parsed, solid, fits, some_digit) = write_read bytes all small in
    let w = Plain-InLine (write_text bytes) solid in
    let (read, plain, few_digits, digit) = length_read read_length few in
    let n = Plain-InLine (decimal read_length) plain in
    let a = Plain-InLine (address_text address) (address_read address seven).1 in
    let writes = write_text bytes in
    let reads = decimal read_length ++ b' ' ∷ writes in
    let modes = mode_text stops ++ b' ' ∷ reads in
    let behind_mode : InLine reads =
      InLine-append (decimal read_length) (b' ' ∷ writes) n (omega arith, w) in
    let behind_address : InLine modes =
      InLine-append (mode_text stops) (b' ' ∷ reads) (mode-InLine stops)
        (omega arith, behind_mode) in
    let arguments : InLine (address_text address ++ b' ' ∷ modes) =
      InLine-append (address_text address) (b' ' ∷ modes) a (omega arith, behind_address) in
    let behind_command : InLine (sequence ++ b' ' ∷ (address_text address ++ b' ' ∷ modes)) =
      InLine-append sequence (b' ' ∷ (address_text address ++ b' ' ∷ modes))
        (Plain-InLine sequence s) (omega arith, arguments) in
    (omega arith, (omega arith, behind_command))
  where
    mode-InLine : (b : Bool) → InLine (mode_text b)
    mode-InLine true = omega arith
    mode-InLine false = omega arith

length-request_text :
    (sequence : List ℕ) (address : ℕ) (stops : Bool) (read_length : ℕ) (bytes : List ℕ)
    → read_length ≤ 32
    → All (λ v. v < 2 ^ 8) bytes
    → length bytes ≤ 32
    → length (request_text sequence address stops read_length bytes) ≤ length sequence + 80
length-request_text sequence address stops read_length bytes few all small =
    let (parsed, solid, fits, some_digit) = write_read bytes all small in
    let (read, plain, few_digits, digit) = length_read read_length few in
    let behind_mode = decimal read_length ++ b' ' ∷ write_text bytes in
    let behind_address = mode_text stops ++ b' ' ∷ behind_mode in
    omega (
      arith,
      fits,
      few_digits,
      length-mode stops,
      length-append (decimal read_length) (b' ' ∷ write_text bytes),
      length-append (mode_text stops) (b' ' ∷ behind_mode),
      length-append (address_text address) (b' ' ∷ behind_address),
      length-append sequence (b' ' ∷ arguments_text address stops read_length bytes),
    )
  where
    length-mode : (b : Bool) → length (mode_text b) ≤ 4
    length-mode true = omega arith
    length-mode false = omega arith

module _ {W : Type 0} ⦃bus : Wire W⦄ where
  abbrev ended : List ℕ → TestHost W → TestHost W
  ended text h = record (process_line text h) { line_length = 0 }

  receive-end :
      (h : TestHost W)
      → 0 < h.line_length
      → receive b'\n' h
        ≡ ended
            (c_string (set h.line h.line_length 0))
            (record h { line = set h.line h.line_length 0 })
  unfolding receive
  receive-end h some_byte = ground (arith, some_byte)

  loop-one : (c : ℕ) (h : TestHost W) → loop (c ∷ []) h ≡ receive c h
  unfolding loop
  loop-one c h = refl

  -- A line, with its end.
  loop-lined :
      (text : List ℕ) (h : TestHost W)
      → InLine text
      → 0 < length text
      → length text < 160
      → length h.line ≡ 160
      → h.line_length ≡ 0
      → loop (text ++ b'\n' ∷ []) h
        ≡ record (process_line text
            (record h { line = line_with text h.line; line_length = length text })) {
              line_length = 0;
            }
  loop-lined text h all some_byte room whole start =
      let n = length text in
      let closing : set (text ++ drop n h.line) n 0 ≡ line_with text h.line =
        ap (λ (o : List ℕ). set (text ++ o) n 0) (drop-cons n h.line 0 (omega (arith, room, whole)))
        ∙ set-append text (drop (suc n) h.line) (get_or h.line n 0) 0 in
      let received : loop text h ≡ record h { line = text ++ drop n h.line; line_length = n } =
        loop-line text [] h.line h all refl start (omega (arith, room, whole))
          (omega (arith, whole))
        ∙ ap (λ (k : ℕ). record h { line = text ++ drop n h.line; line_length = k })
            (omega arith) in
      loop-append text (b'\n' ∷ []) h
      ∙ loop-one b'\n' (loop text h)
      ∙ ap (λ (g : TestHost W). receive b'\n' g) received
      ∙ receive-end (record h { line = text ++ drop n h.line; line_length = n }) some_byte
      ∙ ap (λ (l : List ℕ). ended (c_string l) (record h { line = l; line_length = n })) closing
      ∙ ap (λ (t : List ℕ). ended t (record h { line = line_with text h.line; line_length = n }))
          (c_string-append text (drop (suc n) h.line) all)

  pub transact-line :
      (sequence : List ℕ) (address : ℕ) (stops : Bool) (read_length : ℕ) (bytes : List ℕ)
      (h : TestHost W) (line : List ℕ) (count : ℕ)
      → record (transact sequence address stops read_length bytes
          (record h { line = line; line_length = count })) { line_length = 0 }
        ≡ record (transact sequence address stops read_length bytes h) {
          line = line;
          line_length = 0;
        }
  unfolding transact write_phase read_phase
  transact-line sequence address stops read_length bytes h line count = ground arith

  -- A request to a host that has received nothing of a line yet, written as the host programs write
  -- it, with a sequence of at most 79 bytes above the space, an address of seven bits, a read of at
  -- most 32 bytes and at most 32 bytes to write, carries out exactly the transaction that it asks
  -- for; apart from that it only changes the line, of which nothing has been received then.
  pub request-transact :
      (sequence : List ℕ) (address : ℕ) (stops : Bool) (read_length : ℕ) (bytes : List ℕ)
      (h : TestHost W)
      → 0 < length sequence
      → length sequence ≤ 79
      → Plain sequence
      → address < 128
      → read_length ≤ 32
      → All (λ v. v < 2 ^ 8) bytes
      → length bytes ≤ 32
      → length h.line ≡ 160
      → h.line_length ≡ 0
      → let text = request_text sequence address stops read_length bytes in
        loop (text ++ b'\n' ∷ []) h ≡ record (transact sequence address stops read_length bytes h) {
          line = line_with text h.line;
          line_length = 0;
        }
  request-transact sequence address stops read_length bytes h some_byte short s seven few all small
        whole start =
      let text = request_text sequence address stops read_length bytes in
      let fits = length-request_text sequence address stops read_length bytes few all small in
      let closed : TestHost W = record h {
        line = line_with text h.line;
        line_length = length text;
      } in
      loop-lined text h
        (request_text-InLine sequence address stops read_length bytes s seven few all small)
        (omega arith) (omega (arith, fits, short)) whole start
      ∙ ap (λ (g : TestHost W). record g { line_length = 0 })
          (process_line-text sequence address stops read_length bytes closed
            (Plain-IsWord sequence some_byte s) seven few all small)
      ∙ transact-line sequence address stops read_length bytes h (line_with text h.line)
          (length text)
