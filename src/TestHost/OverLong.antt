-- ===== src/TestHost/OverLong.antt =====
-- A line that is too long for tools/PMBusTestHost/PMBusTestHost.ino.
use psu_usb_to_pmbus.Base.{
  codes, All, Bool, List, [], ap, arith, drop, length, length-append, length-drop, refl, some, ℕ,
  ◌++◌, ◌+◌, ◌<◌, ◌^◌, ◌∙◌, ◌∷◌, ◌≡◌, ◌≤◌,
}
use psu_usb_to_pmbus.TestHost.{TestHost, Wire, print}
use psu_usb_to_pmbus.TestHost.Request.{error_text}
use psu_usb_to_pmbus.TestHost.Words.{Plain}
use psu_usb_to_pmbus.TestHost.Transaction.{transact}
use psu_usb_to_pmbus.TestHost.Line.{receive, loop}
use psu_usb_to_pmbus.TestHost.RoundTrip.{InLine, request_text, loop-line, loop-append}
use psu_usb_to_pmbus.TestHost.Requests.{line_with, request-transact, transact-line}

abbrev pub too_long : List ℕ
too_long = error_text (some (codes "0")) (codes "RANGE") (codes "line_too_long")

module _ {W : Type 0} ⦃bus : Wire W⦄ where
  receive-full :
      (c : ℕ) (h : TestHost W)
      → b' ' ≤ c
      → h.line_length ≡ 159
      → receive c h ≡ print too_long (record h { line_length = 0 })
  unfolding receive
  receive-full c h printed full = ground (arith, printed, full)

  loop-full :
      (text rest : List ℕ) (c : ℕ) (h : TestHost W)
      → InLine text
      → b' ' ≤ c
      → length text ≡ 159
      → length h.line ≡ 160
      → h.line_length ≡ 0
      → loop (text ++ c ∷ rest) h
        ≡ loop rest (print too_long (record h { line = text ++ drop 159 h.line; line_length = 0 }))
  unfolding loop
  loop-full text rest c h all printed full whole start =
      let filled = record h {
        line = text ++ drop (length text) h.line;
        line_length = 0 + length text;
      } in
      loop-append text (c ∷ rest) h
      ∙ ap (loop (c ∷ rest)) (
          loop-line text [] h.line h all refl start (omega (arith, full, whole))
            (omega (arith, whole)))
      ∙ ap (loop rest) (receive-full c filled printed (omega (arith, full)))
      ∙ ap
          (λ (n : ℕ).
            loop rest (print too_long (record h { line = text ++ drop n h.line; line_length = 0 })))
          full

  -- When 159 bytes have been received of a line, the next byte that does not end it prints
  -- `line_too_long`, and the rest of the same line is taken for a line of its own: if it reads as a
  -- request, the transaction that it asks for is carried out.
  pub over_long-transact :
      (text : List ℕ) (c : ℕ) (sequence : List ℕ) (address : ℕ) (stops : Bool) (read_length : ℕ)
      (bytes : List ℕ) (h : TestHost W)
      → InLine text
      → b' ' ≤ c
      → length text ≡ 159
      → 0 < length sequence
      → length sequence ≤ 79
      → Plain sequence
      → address < 128
      → read_length ≤ 32
      → All (λ v. v < 2 ^ 8) bytes
      → length bytes ≤ 32
      → length h.line ≡ 160
      → h.line_length ≡ 0
      → let request = request_text sequence address stops read_length bytes in
        loop (text ++ c ∷ (request ++ b'\n' ∷ [])) h
        ≡ record (transact sequence address stops read_length bytes (print too_long h)) {
          line = line_with request (text ++ drop 159 h.line);
          line_length = 0;
        }
  over_long-transact text c sequence address stops read_length bytes h all printed full some_byte
        short s seven few small fits whole start =
      let request = request_text sequence address stops read_length bytes in
      let reset = record h { line = text ++ drop 159 h.line; line_length = 0 } in
      loop-full text (request ++ b'\n' ∷ []) c h all printed full whole start
      ∙ request-transact sequence address stops read_length bytes (print too_long reset) some_byte
          short s seven few small fits
          (omega (arith, length-append text (drop 159 h.line), length-drop 159 h.line, full, whole))
          refl
      ∙ ap
          (λ (g : TestHost W). record g {
            line = line_with request (text ++ drop 159 h.line);
            line_length = 0;
          })
          (transact-line sequence address stops read_length bytes (print too_long h)
            (text ++ drop 159 h.line) 0)
