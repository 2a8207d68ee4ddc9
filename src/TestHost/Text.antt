-- ===== src/TestHost/Text.antt =====
-- What tools/PMBusTestHost/PMBusTestHost.ino uses of the C library. A C string is the list of its
-- bytes before the terminator; `unsigned long` has 32 bits, as on the boards of the sketch.
use psu_usb_to_pmbus.Base.{
  codes, refl, [], ◌∷◌, some, none, zero, suc, true, false, ◌≡◌, List, Option, Bool, ℕ, ◌==◌, ◌*◌,
  if◌then◌else◌, ◌+◌, get_or, leb, ltb, ◌&&◌, ◌||◌, ◌%◌, ◌/◌, ◌-◌, drop, ◌^◌, not,
}

-- `strcmp` with zero.
abbrev pub same_text : List ℕ → List ℕ → Bool
same_text [] [] = true
same_text (x ∷ xs) (y ∷ ys) = x == y && same_text xs ys
same_text _ _ = false

-- The string that an array holds.
abbrev pub c_string : List ℕ → List ℕ
c_string [] = []
c_string (c ∷ cs) = if c == 0 then [] else c ∷ c_string cs

-- `strtok_r` with a space as the delimiter: the next word, and what is left behind it.
abbrev pub word : List ℕ → List ℕ
word [] = []
word (c ∷ cs) = if c == b' ' then [] else c ∷ word cs

abbrev pub after_word : List ℕ → List ℕ
after_word [] = []
after_word (c ∷ cs) = if c == b' ' then cs else after_word cs

abbrev pub skip_blanks : List ℕ → List ℕ
skip_blanks [] = []
skip_blanks (c ∷ cs) = if c == b' ' then skip_blanks cs else c ∷ cs

pub record Token : Type 0 where
  pub text : Option (List ℕ)
  pub rest : List ℕ

abbrev pub token_of : List ℕ → Token
token_of [] = record { text = none; rest = [] }
token_of (c ∷ cs) = record { text = some (word (c ∷ cs)); rest = after_word (c ∷ cs) }

unfoldable pub strtok : List ℕ → Token
strtok s = token_of (skip_blanks s)

-- `strtoul`: the value, and how far the number goes; nothing is read if there is no digit.
pub record Number : Type 0 where
  pub value : ℕ
  pub consumed : ℕ

abbrev is_space : ℕ → Bool
is_space c = c == b' ' || (leb 9 c && leb c 13)

abbrev count_spaces : List ℕ → ℕ
count_spaces [] = 0
count_spaces (c ∷ cs) = if is_space c then suc (count_spaces cs) else 0

-- A byte that is no digit in any base has the value 36.
abbrev pub digit_value : ℕ → ℕ
digit_value c =
    if leb b'0' c && leb c b'9'
    then c - b'0'
    else if leb b'a' c && leb c b'z'
    then c - b'a' + 10
    else if leb b'A' c && leb c b'Z'
    then c - b'A' + 10
    else 36

-- The digits in front, added to what has been read.
abbrev pub read_digits : ℕ → ℕ → List ℕ → Number
read_digits base value [] = record { value = value; consumed = 0 }
read_digits base value (c ∷ cs) =
    let further = read_digits base (value * base + digit_value c) cs in
    if ltb (digit_value c) base
    then record { value = further.value; consumed = suc further.consumed }
    else record { value = value; consumed = 0 }

-- `0x`, if a digit follows it.
abbrev has_hex_prefix : List ℕ → Bool
has_hex_prefix text =
    get_or text 0 0 == b'0'
    && (get_or text 1 0 == b'x' || get_or text 1 0 == b'X')
    && ltb (digit_value (get_or text 2 0)) 16

abbrev unsigned_value : Bool → ℕ → ℕ
unsigned_value negative value =
    if leb (2 ^ 32) value then 2 ^ 32 - 1 else if negative then (2 ^ 32 - value) % 2 ^ 32 else value

unfoldable pub strtoul : ℕ → List ℕ → Number
strtoul asked text =
    let blanks = count_spaces text in
    let sign = get_or text blanks 0 in
    let signed = if sign == b'-' || sign == b'+' then 1 else 0 in
    let number = drop (blanks + signed) text in
    let hex = has_hex_prefix number && (asked == 0 || asked == 16) in
    let base =
      if not (asked == 0)
      then asked
      else if hex
      then 16
      else if get_or number 0 0 == b'0'
      then 8
      else 10 in
    let prefix = if hex then 2 else 0 in
    let result = read_digits base 0 (drop prefix number) in
    if result.consumed == 0 then record { value = 0; consumed = 0 } else record {
      value = unsigned_value (sign == b'-') result.value;
      consumed = blanks + signed + prefix + result.consumed;
    }

address_read : strtoul 0 (codes "0x5a") ≡ record { value = 90; consumed = 4 }
unfolding strtoul
address_read = refl

octal_read : strtoul 0 (codes "08") ≡ record { value = 0; consumed = 1 }
unfolding strtoul
octal_read = refl

-- The decimal digits of a number, for `%u` and `%lu`; a number below 10 has one. The fuel is the
-- number itself.
abbrev pub decimal_digits : ℕ → ℕ → List ℕ → List ℕ
decimal_digits zero n text = (b'0' + n % 10) ∷ text
decimal_digits (suc fuel) n text =
    let more = decimal_digits fuel (n / 10) ((b'0' + n % 10) ∷ text) in
    if ltb n 10 then (b'0' + n) ∷ text else more

unfoldable pub decimal : ℕ → List ℕ
decimal n = decimal_digits n n []

decimal_written : decimal 205 ≡ codes "205"
unfolding decimal
decimal_written = refl
