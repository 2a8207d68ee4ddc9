-- ===== src/Examples/Bench.antt =====
-- The test host on a bus whose target acknowledges all and answers with 7 and 8.
use psu_usb_to_pmbus.Base.{
  codes, zero, suc, refl, some, ◌≡◌, ℕ, replicate, ◌-◌, length, arith, ◌++◌, false, suc, ◌∷◌, [],
  true,
}
use psu_usb_to_pmbus.TestHost.{TestHost, Wire, started, print}
use psu_usb_to_pmbus.TestHost.Text.{strtoul, strtok}
use psu_usb_to_pmbus.TestHost.Request.{
  parse_unsigned, parse_hex, parse_pairs, parse_pair, hex_text, error_text,
}
use psu_usb_to_pmbus.TestHost.Transaction.{
  range_of, write_phase, collect, read_phase, transact, transaction, ok_text,
}
use psu_usb_to_pmbus.TestHost.Requests.{request-transact, line_with}
use psu_usb_to_pmbus.TestHost.Answers.{request-Delivers}
use psu_usb_to_pmbus.TestHost.Sound.{loop-IsSound, IsSound}
use psu_usb_to_pmbus.TestHost.Replies.{Inline, silent}
use psu_usb_to_pmbus.TestHost.OverLong.{over_long-transact}
use psu_usb_to_pmbus.TestHost.RoundTrip.{request_text, InLine}
use psu_usb_to_pmbus.TestHost.Line.{loop, receive, process_line, execute, with_words}

abbrev fallen : ℕ → ℕ
fallen n = n - 1

falls : (n : ℕ) → fallen n ≡ n - 1
falls n = refl

-- The state is the count of bytes that are left to read.
instance abbrev bench_wire : Wire ℕ
bench_wire = record {
  begin_transmission = λ _ w. w;
  write = λ bytes w. record { result = length bytes; wire = w };
  end_transmission = λ _ w. record { result = 0; wire = w };
  request_from = λ _ n _ w. record { result = n; wire = n };
  available = λ w. w;
  read = λ w. record { result = some (9 - w); wire = fallen w };
  read_takes = falls;
}

bench : TestHost ℕ
bench = loop (codes "X 12 0x58 RS 2 88\n") (started 0 (replicate 32 0))

bench_answers : bench.output ≡ codes "OK 12 0708\r\n"
unfolding bench loop receive strtok process_line execute with_words transaction range_of
    parse_unsigned strtoul parse_hex parse_pairs parse_pair transact write_phase read_phase collect
bench_answers = refl

abbrev silent_bench : TestHost ℕ
silent_bench = started 0 (replicate 32 0)

request-transact_example :
    loop (request_text (codes "12") 88 false 2 (136 ∷ []) ++ b'\n' ∷ []) silent_bench
    ≡ record (transact (codes "12") 88 false 2 (136 ∷ []) silent_bench) {
      line = line_with (request_text (codes "12") 88 false 2 (136 ∷ [])) (replicate 160 0);
      line_length = 0;
    }
request-transact_example =
    request-transact (codes "12") 88 false 2 (136 ∷ []) silent_bench (omega arith) (omega arith)
      (omega arith) (omega arith) (omega arith) (omega arith) (omega arith) refl refl

request-Delivers_example :
    let answered =
      loop (request_text (codes "12") 88 false 2 (136 ∷ []) ++ b'\n' ∷ []) silent_bench in
    (answered.output ≡ ok_text (codes "12") (hex_text (7 ∷ 8 ∷ [])))
    × (parse_hex (hex_text (7 ∷ 8 ∷ [])) ≡ some (7 ∷ 8 ∷ []))
    × (answered.wire ≡ 0)
    × (answered.line_length ≡ 0)
request-Delivers_example =
    request-Delivers (codes "12") 88 false (136 ∷ []) (7 ∷ 8 ∷ []) silent_bench (omega arith)
      (omega arith) (omega arith) (omega arith) (omega arith) (omega arith) (omega arith)
      (omega arith) (omega arith) refl refl refl (refl, refl) refl (refl, refl, (refl, refl, refl))

blank-Inline : (n : ℕ) → Inline (replicate n 0)
blank-Inline zero = tt
blank-Inline (suc n) = (omega arith, blank-Inline n)

silent_bench-IsSound : IsSound 0 silent_bench
silent_bench-IsSound = record {
  whole = refl;
  room = omega arith;
  inline = blank-Inline 160;
  replies = silent;
}

loop-IsSound_example : IsSound 2 (loop (codes "\nI 1\r\nX 2 0x58 RS 2 88\nY") silent_bench)
loop-IsSound_example =
    loop-IsSound (codes "\nI 1\r\nX 2 0x58 RS 2 88\nY") 0 silent_bench silent_bench-IsSound

letters-InLine : (n : ℕ) → InLine (replicate n b'Y')
letters-InLine zero = tt
letters-InLine (suc n) = (omega arith, letters-InLine n)

over_long-transact_example :
    loop
      (replicate 159 b'Y' ++ b' ' ∷ (request_text (codes "12") 88 true 0 (1 ∷ []) ++ b'\n' ∷ []))
      silent_bench
    ≡ record (transact (codes "12") 88 true 0 (1 ∷ []) (
        print
          (error_text (some (codes "0")) (codes "RANGE") (codes "line_too_long"))
          silent_bench)) {
            line =
                line_with
                  (request_text (codes "12") 88 true 0 (1 ∷ []))
                  (replicate 159 b'Y' ++ 0 ∷ []);
            line_length = 0;
          }
over_long-transact_example =
    over_long-transact (replicate 159 b'Y') b' ' (codes "12") 88 true 0 (1 ∷ []) silent_bench
      (letters-InLine 159) (omega arith) refl (omega arith) (omega arith) (omega arith)
      (omega arith) (omega arith) (omega arith) (omega arith) refl refl
