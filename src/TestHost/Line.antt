-- ===== src/TestHost/Line.antt =====
-- `processLine` and `loop` of tools/PMBusTestHost/PMBusTestHost.ino. `strtok_r` also writes
-- terminators into the line; it is not read again before it is written anew.
use psu_usb_to_pmbus.Base.{
  codes, [], ◌∷◌, some, none, true, false, Option, List, ℕ, set, if◌then◌else◌, Bool, not, ◌==◌,
  ltb, ◌+◌,
}
use psu_usb_to_pmbus.TestHost.{TestHost, Wire, print, line_capacity}
use psu_usb_to_pmbus.TestHost.Text.{same_text, strtok, c_string}
use psu_usb_to_pmbus.TestHost.Request.{error_text, information_text}
use psu_usb_to_pmbus.TestHost.Transaction.{transaction}

abbrev pub is_some : Option (List ℕ) → Bool
is_some none = false
is_some (some text) = true

module _ {W : Type 0} ⦃bus : Wire W⦄ where
  abbrev pub complain : Option (List ℕ) → List ℕ → TestHost W → TestHost W
  complain sequence detail h = print (error_text sequence (codes "PARSE") detail) h

  unfoldable pub inform : List ℕ → List ℕ → TestHost W → TestHost W
  inform sequence rest h =
      if is_some (strtok rest).text
      then complain (some sequence) (codes "extra") h
      else print (information_text sequence) h

  -- The words behind the sequence of a transaction.
  unfoldable pub with_words :
      List ℕ
      → Option (List ℕ)
      → Option (List ℕ)
      → Option (List ℕ)
      → Option (List ℕ)
      → Bool
      → TestHost W
      → TestHost W
  with_words sequence (some address) (some mode) (some read_length) (some write) false h =
      transaction sequence address mode read_length write h
  with_words sequence _ _ _ _ _ h = complain (some sequence) (codes "arguments") h

  unfoldable pub execute : List ℕ → List ℕ → TestHost W → TestHost W
  execute sequence rest h =
      let address = strtok rest in
      let mode = strtok address.rest in
      let read_length = strtok mode.rest in
      let write = strtok read_length.rest in
      let extra = strtok write.rest in
      with_words sequence address.text mode.text read_length.text write.text (is_some extra.text) h

  abbrev pub dispatch : List ℕ → List ℕ → List ℕ → TestHost W → TestHost W
  dispatch command sequence rest h =
      if same_text command (codes "I")
      then inform sequence rest h
      else if not (same_text command (codes "X"))
      then complain (some sequence) (codes "unknown_command") h
      else execute sequence rest h

  abbrev pub with_command : Option (List ℕ) → Option (List ℕ) → List ℕ → TestHost W → TestHost W
  with_command (some command) (some sequence) rest h = dispatch command sequence rest h
  with_command _ sequence rest h = complain sequence (codes "command") h

  unfoldable pub process_line : List ℕ → TestHost W → TestHost W
  process_line input h =
      let command = strtok input in
      let sequence = strtok command.rest in with_command command.text sequence.text sequence.rest h

  -- A byte from the serial port.
  unfoldable pub receive : ℕ → TestHost W → TestHost W
  receive c h =
      let ended = set h.line h.line_length 0 in
      let closed = record h { line = ended } in
      let done = if h.line_length == 0 then closed else process_line (c_string ended) closed in
      if c == b'\r'
      then h
      else if c == b'\n'
      then record done { line_length = 0 }
      else if ltb (h.line_length + 1) line_capacity
      then record h { line = set h.line h.line_length c; line_length = h.line_length + 1 }
      else print (error_text (some (codes "0")) (codes "RANGE") (codes "line_too_long"))
          (record h { line_length = 0 })

  unfoldable pub loop : List ℕ → TestHost W → TestHost W
  loop [] h = h
  loop (c ∷ cs) h = loop cs (receive c h)
