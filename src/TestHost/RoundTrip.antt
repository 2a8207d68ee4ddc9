-- ===== src/TestHost/RoundTrip.antt =====
-- A request as the host programs of tools/pmbus_test write it, through the line buffer and the parser
-- of tools/PMBusTestHost/PMBusTestHost.ino.
use psu_usb_to_pmbus.Base.{
  codes, refl, [], ◌∷◌, some, true, false, arith, Bool, ℕ, List, ◌++◌, ◌<◌, ◌≤◌, length, All, ◌^◌,
  ◌≢◌, ◌≡◌, ◌+◌, ◌==◌, ap, drop, set, set-append, ◌∙◌, length-append, sym, append_assoc, All-append,
}
use psu_usb_to_pmbus.TestHost.{TestHost, Wire}
use psu_usb_to_pmbus.TestHost.Text.{c_string, decimal, same_text}
use psu_usb_to_pmbus.TestHost.Words.{
  IsWord, Plain, address_text, write_text, length_read, address_read, write_read, strtok-append,
  strtok_last, strtok_end,
}
use psu_usb_to_pmbus.TestHost.Transaction.{in_range, transaction, transact, range_of, is_mode}
use psu_usb_to_pmbus.TestHost.Line.{receive, loop, process_line, execute, with_words}

abbrev pub mode_text : Bool → List ℕ
mode_text true = codes "STOP"
mode_text false = codes "RS"

-- The arguments of a request, and the request.
abbrev pub arguments_text : ℕ → Bool → ℕ → List ℕ → List ℕ
arguments_text address stops read_length bytes =
    address_text address
    ++ b' ' ∷ (mode_text stops ++ b' ' ∷ (decimal read_length ++ b' ' ∷ write_text bytes))

abbrev pub request_text : List ℕ → ℕ → Bool → ℕ → List ℕ → List ℕ
request_text sequence address stops read_length bytes =
    codes "X" ++ b' ' ∷ (sequence ++ b' ' ∷ arguments_text address stops read_length bytes)

pub Plain-IsWord : (w : List ℕ) → 0 < length w → Plain w → IsWord w
Plain-IsWord w some_byte plain = record { some_byte = some_byte; solid = solid_of w plain }
  where
    solid_of : (v : List ℕ) → Plain v → All (λ c. c ≢ b' ') v
    solid_of [] p = tt
    solid_of (c ∷ v) p = (omega (arith, p.0), solid_of v p.1)

mode-IsWord : (stops : Bool) → IsWord (mode_text stops)
mode-IsWord true = record { some_byte = omega arith; solid = omega arith }
mode-IsWord false = record { some_byte = omega arith; solid = omega arith }

mode_read :
    (stops : Bool)
    → (is_mode (mode_text stops) ≡ true) × (same_text (mode_text stops) (codes "STOP") ≡ stops)
mode_read true = (refl, refl)
mode_read false = (refl, refl)

-- A line holds what has been received of it, up to the place of the next byte.
abbrev pub InLine : List ℕ → Type 0
InLine = All (λ c. b' ' ≤ c)

pub c_string-append : (text rest : List ℕ) → InLine text → c_string (text ++ 0 ∷ rest) ≡ text
c_string-append [] rest h = refl
c_string-append (c ∷ text) rest h =
    let more : (c == 0) ≡ false = ground (arith, h.0) in
    rw more (ap (◌∷◌ c) (c_string-append text rest h.1))

pub InLine-append : (xs ys : List ℕ) → InLine xs → InLine ys → InLine (xs ++ ys)
InLine-append = All-append (λ c. b' ' ≤ c)

pub Plain-InLine : (w : List ℕ) → Plain w → InLine w
Plain-InLine [] h = tt
Plain-InLine (c ∷ w) h = (omega (arith, h.0), Plain-InLine w h.1)

module _ {W : Type 0} ⦃bus : Wire W⦄ where
  transaction-text :
      (sequence : List ℕ) (address : ℕ) (stops : Bool) (read_length : ℕ) (bytes : List ℕ)
      (h : TestHost W)
      → address < 128
      → read_length ≤ 32
      → All (λ v. v < 2 ^ 8) bytes
      → length bytes ≤ 32
      → transaction sequence
          (address_text address)
          (mode_text stops)
          (decimal read_length)
          (write_text bytes)
          h
        ≡ transact sequence address stops read_length bytes h
  unfolding transaction range_of
  transaction-text sequence address stops read_length bytes h seven few all small =
      let a = (address_read address seven).0 in
      let n = (length_read read_length few).0 in
      let range : in_range (mode_text stops) address read_length
          ≡ some record { address = address; read_length = read_length } =
        ground (arith, mode_read stops, seven, few) in
      rw (transaction, range_of, a, n, range, (write_read bytes all small).0, (mode_read stops).1)
        refl

  execute-text :
      (sequence : List ℕ) (address : ℕ) (stops : Bool) (read_length : ℕ) (bytes : List ℕ)
      (h : TestHost W)
      → address < 128
      → read_length ≤ 32
      → All (λ v. v < 2 ^ 8) bytes
      → length bytes ≤ 32
      → execute sequence (arguments_text address stops read_length bytes) h
        ≡ transact sequence address stops read_length bytes h
  unfolding execute with_words
  execute-text sequence address stops read_length bytes h seven few all small =
      let behind_mode = decimal read_length ++ b' ' ∷ write_text bytes in
      let behind_address = mode_text stops ++ b' ' ∷ behind_mode in
      let (read, plain, few_digits, digit) = length_read read_length few in
      let a = Plain-IsWord (address_text address) (omega arith) (address_read address seven).1 in
      let n = Plain-IsWord (decimal read_length) digit plain in
      let (parsed, solid, fits, some_digit) = write_read bytes all small in
      let w = Plain-IsWord (write_text bytes) some_digit solid in
      rw
        (
          strtok-append (address_text address) behind_address a,
          strtok-append (mode_text stops) behind_mode (mode-IsWord stops),
          strtok-append (decimal read_length) (write_text bytes) n,
          strtok_last (write_text bytes) w,
          strtok_end,
        )
        (transaction-text sequence address stops read_length bytes h seven few all small)

  pub process_line-text :
      (sequence : List ℕ) (address : ℕ) (stops : Bool) (read_length : ℕ) (bytes : List ℕ)
      (h : TestHost W)
      → IsWord sequence
      → address < 128
      → read_length ≤ 32
      → All (λ v. v < 2 ^ 8) bytes
      → length bytes ≤ 32
      → process_line (request_text sequence address stops read_length bytes) h
        ≡ transact sequence address stops read_length bytes h
  unfolding process_line
  process_line-text sequence address stops read_length bytes h word seven few all small =
      let arguments = arguments_text address stops read_length bytes in
      let x : IsWord (codes "X") = record { some_byte = omega arith; solid = omega arith } in
      rw
        (
          strtok-append (codes "X") (sequence ++ b' ' ∷ arguments) x,
          strtok-append sequence arguments word,
        )
        (execute-text sequence address stops read_length bytes h seven few all small)

  pub loop-append : (xs ys : List ℕ) (h : TestHost W) → loop (xs ++ ys) h ≡ loop ys (loop xs h)
  unfolding loop
  loop-append [] ys h = refl
  loop-append (x ∷ xs) ys h = loop-append xs ys (receive x h)

  receive-byte :
      (c : ℕ) (h : TestHost W)
      → b' ' ≤ c
      → h.line_length + 1 < 160
      → receive c h
        ≡ record h { line = set h.line h.line_length c; line_length = h.line_length + 1 }
  unfolding receive
  receive-byte c h printed room = ground (arith, printed, room)

  -- Bytes of a line that has room for them.
  pub loop-line :
      (text before rest : List ℕ) (h : TestHost W)
      → InLine text
      → h.line ≡ before ++ rest
      → h.line_length ≡ length before
      → length text < length rest
      → length before + length rest ≡ 160
      → loop text h ≡ record h {
        line = before ++ (text ++ drop (length text) rest);
        line_length = length before + length text;
      }
  unfolding loop
  loop-line [] before rest h all line count room whole = ground (arith, line, count)
  loop-line (c ∷ text) before [] h all line count room whole = absurd (omega (arith, room))
  loop-line (c ∷ text) before (r ∷ rest) h all line count room whole =
      let next : TestHost W = record h {
        line = before ++ c ∷ rest;
        line_length = h.line_length + 1;
      } in
      let put : set h.line h.line_length c ≡ before ++ c ∷ rest =
        rw (line, count) (set-append before rest r c) in
      let taken : receive c h ≡ next =
        receive-byte c h (all.0) (omega (arith, count, room, whole))
        ∙ ap (λ (l : List ℕ). record h { line = l; line_length = h.line_length + 1 }) put in
      let longer = length-append before (c ∷ []) in
      let onward =
        loop-line text (before ++ c ∷ []) rest next (all.1)
          (sym (append_assoc before (c ∷ []) rest)) (omega (arith, count, longer))
          (omega (arith, room)) (omega (arith, whole, longer)) in
      ap (loop text) taken
      ∙ onward
      ∙ ap
          (λ (l : List ℕ). record h {
            line = l;
            line_length = length (before ++ c ∷ []) + length text;
          })
          (append_assoc before (c ∷ []) (text ++ drop (length text) rest))
      ∙ ap
          (λ (n : ℕ). record h {
            line = before ++ c ∷ (text ++ drop (length text) rest);
            line_length = n;
          })
          (omega (arith, longer))
