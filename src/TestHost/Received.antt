-- ===== src/TestHost/Received.antt =====
-- The lines of tools/PMBusTestHost/PMBusTestHost.ino: each is answered with one reply.
use psu_usb_to_pmbus.Base.{codes, Bool, List, Option, arith, false, if_cases, none, not, some, ℕ}
use psu_usb_to_pmbus.TestHost.Replies.{
  Inline, Said, error_text-IsReply, ok_text-IsReply, strtok-Inline,
}
use psu_usb_to_pmbus.TestHost.Answered.{Answered, printed-Answered, transaction-Answered}
use psu_usb_to_pmbus.TestHost.{TestHost, Wire}
use psu_usb_to_pmbus.TestHost.Text.{same_text, strtok}
use psu_usb_to_pmbus.TestHost.Request.{error_text, information_text}
use psu_usb_to_pmbus.TestHost.Line.{
  complain, is_some, inform, with_words, execute, dispatch, with_command, process_line,
}

module _ {W : Type 0} ⦃bus : Wire W⦄ where
  complain-Answered :
      (sequence : Option (List ℕ)) (detail : List ℕ) (h : TestHost W)
      → Said sequence
      → Inline detail
      → Answered h (complain sequence detail h)
  complain-Answered sequence detail h s d =
      printed-Answered (error_text sequence (codes "PARSE") detail) h
        (error_text-IsReply sequence (codes "PARSE") detail s (omega arith) d)

  inform-Answered :
      (sequence rest : List ℕ) (h : TestHost W)
      → Inline sequence
      → Answered h (inform sequence rest h)
  unfolding inform
  inform-Answered sequence rest h s =
      if_cases (Answered h) (is_some (strtok rest).text)
        (λ e. complain-Answered (some sequence) (codes "extra") h s (omega arith))
        (λ e. printed-Answered (information_text sequence) h (
          ok_text-IsReply sequence (codes "PMBusTestHost/1 MAXW=32 MAXR=32 RS=1 I2C_HZ=100000") s
            (omega arith)))

  with_words-Answered :
      (sequence : List ℕ) (address mode read_length write : Option (List ℕ)) (extra : Bool)
      (h : TestHost W)
      → Inline sequence
      → Answered h (with_words sequence address mode read_length write extra h)
  unfolding with_words
  with_words-Answered sequence (some address) (some mode) (some read_length) (some write) false h
        s =
      transaction-Answered sequence address mode read_length write h s
  with_words-Answered sequence _ _ _ _ _ h s =
      complain-Answered (some sequence) (codes "arguments") h s (omega arith)

  execute-Answered :
      (sequence rest : List ℕ) (h : TestHost W)
      → Inline sequence
      → Answered h (execute sequence rest h)
  unfolding execute
  execute-Answered sequence rest h s = with_words-Answered sequence _ _ _ _ _ h s

  dispatch-Answered :
      (command sequence rest : List ℕ) (h : TestHost W)
      → Inline sequence
      → Answered h (dispatch command sequence rest h)
  dispatch-Answered command sequence rest h s =
      if_cases (Answered h) (same_text command (codes "I")) (λ e. inform-Answered sequence rest h s)
        (λ e.
          if_cases (Answered h) (not (same_text command (codes "X")))
            (λ k. complain-Answered (some sequence) (codes "unknown_command") h s (omega arith))
            (λ k. execute-Answered sequence rest h s))

  with_command-Answered :
      (command sequence : Option (List ℕ)) (rest : List ℕ) (h : TestHost W)
      → Said sequence
      → Answered h (with_command command sequence rest h)
  with_command-Answered (some command) (some sequence) rest h s =
      dispatch-Answered command sequence rest h s
  with_command-Answered none sequence rest h s =
      complain-Answered sequence (codes "command") h s (omega arith)
  with_command-Answered (some command) none rest h s =
      complain-Answered none (codes "command") h s (omega arith)

  -- Every line is answered.
  pub process_line-Answered :
      (input : List ℕ) (h : TestHost W) → Inline input → Answered h (process_line input h)
  unfolding process_line
  process_line-Answered input h all =
      let command = strtok input in
      let sequence = strtok command.rest in
      with_command-Answered command.text sequence.text sequence.rest h
        (strtok-Inline command.rest (strtok-Inline input all).1).0
