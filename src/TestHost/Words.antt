-- ===== src/TestHost/Words.antt =====
-- The words of a line and the numbers of a request in tools/PMBusTestHost/PMBusTestHost.ino, as the
-- host programs write them and as the sketch reads them.
use psu_usb_to_pmbus.TestHost.{i2c_capacity}
use psu_usb_to_pmbus.Base.{
  codes, refl, [], ◌∷◌, some, none, true, false, arith, all_below, List, ℕ, Option, ◌≡◌, All, ◌&&◌,
  Bool, ◌++◌, ◌<◌, get_or, ltb, leb, ◌/◌, length, ap, ◌==◌, ◌≢◌, ==_false, ◌^◌, ==_iff, ◌%◌,
  all_below_sound, ◌*◌, ◌≤◌, not, ◌||◌,
}
use psu_usb_to_pmbus.TestHost.Text.{strtok, word, after_word, strtoul, decimal, same_text}
use psu_usb_to_pmbus.TestHost.Request.{
  parse_unsigned, parse_pair, hex_text, hex_digit, parse_hex, parse_pairs,
}

-- A word has bytes, none of them a space.
pub record IsWord (w : List ℕ) : Type 0 where
  pub some_byte : 0 < length w
  pub solid : All (λ c. c ≢ b' ') w

word-append : (w rest : List ℕ) → All (λ c. c ≢ b' ') w → word (w ++ b' ' ∷ rest) ≡ w
word-append [] rest h = refl
word-append (c ∷ w) rest h =
    let solid : (c == b' ') ≡ false = ==_false c b' ' h.0 in
    rw solid (ap (◌∷◌ c) (word-append w rest h.1))

after_word-append : (w rest : List ℕ) → All (λ c. c ≢ b' ') w → after_word (w ++ b' ' ∷ rest) ≡ rest
after_word-append [] rest h = refl
after_word-append (c ∷ w) rest h =
    let solid : (c == b' ') ≡ false = ==_false c b' ' h.0 in rw solid (after_word-append w rest h.1)

word_whole : (w : List ℕ) → All (λ c. c ≢ b' ') w → word w ≡ w
word_whole [] h = refl
word_whole (c ∷ w) h =
    let solid : (c == b' ') ≡ false = ==_false c b' ' h.0 in
    rw solid (ap (◌∷◌ c) (word_whole w h.1))

after_word_whole : (w : List ℕ) → All (λ c. c ≢ b' ') w → after_word w ≡ []
after_word_whole [] h = refl
after_word_whole (c ∷ w) h =
    let solid : (c == b' ') ≡ false = ==_false c b' ' h.0 in rw solid (after_word_whole w h.1)

-- The first word of a line, with another behind it.
pub strtok-append :
    (w rest : List ℕ) → IsWord w → strtok (w ++ b' ' ∷ rest) ≡ record { text = some w; rest = rest }
unfolding strtok
strtok-append [] rest h = absurd (omega (arith, h.some_byte))
strtok-append (c ∷ w) rest h =
    let solid : (c == b' ') ≡ false = ==_false c b' ' (h.solid).0 in
    rw (solid, solid, word-append w rest (h.solid).1, after_word-append w rest (h.solid).1) refl

-- The last one.
pub strtok_last : (w : List ℕ) → IsWord w → strtok w ≡ record { text = some w; rest = [] }
unfolding strtok
strtok_last [] h = absurd (omega (arith, h.some_byte))
strtok_last (c ∷ w) h =
    let solid : (c == b' ') ≡ false = ==_false c b' ' (h.solid).0 in
    rw (solid, solid, word_whole w (h.solid).1, after_word_whole w (h.solid).1) refl

pub strtok_end : strtok [] ≡ record { text = none; rest = [] }
unfolding strtok
strtok_end = refl

-- `%#04x`, as the host programs write an address.
abbrev pub address_text : ℕ → List ℕ
address_text a =
    let digit = λ (n : ℕ). get_or (codes "0123456789abcdef") n 0 in
    b'0' ∷ b'x' ∷ digit (a / 2 ^ 4) ∷ digit (a % 2 ^ 4) ∷ []

abbrev pub write_text : List ℕ → List ℕ
write_text [] = codes "-"
write_text (byte ∷ bytes) = hex_text (byte ∷ bytes)

abbrev is_value : Option ℕ → ℕ → Bool
is_value none n = false
is_value (some m) n = m == n

is_value_of : (o : Option ℕ) (n : ℕ) → is_value o n ≡ true → o ≡ some n
is_value_of none n e = ground (arith, e)
is_value_of (some m) n e = ap some ((==_iff m n).0 e)

-- A text that may stand in a line as a word.
abbrev is_plain : List ℕ → Bool
is_plain [] = true
is_plain (c ∷ cs) = ltb b' ' c && is_plain cs

abbrev pub Plain : List ℕ → Type 0
Plain = All (λ c. b' ' < c)

above_space : (w : List ℕ) → is_plain w ≡ true → Plain w
above_space [] e = tt
above_space (c ∷ w) e = (ground (arith, e), above_space w (ground (arith, e)))

abbrev address_test : ℕ → Bool
address_test a = is_value (parse_unsigned (address_text a)) a && is_plain (address_text a)

abbrev length_test : ℕ → Bool
length_test n =
    is_value (parse_unsigned (decimal n)) n
    && is_plain (decimal n)
    && leb (length (decimal n)) 2
    && ltb 0 (length (decimal n))

abbrev pair_text : ℕ → List ℕ
pair_text v = hex_digit (v / 2 ^ 4) ∷ hex_digit (v % 2 ^ 4) ∷ []

abbrev byte_test : ℕ → Bool
byte_test v =
    is_value (parse_pair (hex_digit (v / 2 ^ 4)) (hex_digit (v % 2 ^ 4))) v
    && is_plain (pair_text v)

all_addresses : all_below 128 address_test ≡ true
unfolding all_below parse_unsigned strtoul
all_addresses = refl

all_lengths : all_below 33 length_test ≡ true
unfolding all_below parse_unsigned strtoul decimal
all_lengths = refl

all_bytes : all_below 256 byte_test ≡ true
unfolding all_below parse_pair strtoul
all_bytes = refl

and_both : (a b : Bool) → (a && b) ≡ true → (a ≡ true) × (b ≡ true)
and_both a b e = ground (arith, e)

-- An address of seven bits.
pub address_read :
    (a : ℕ) → a < 128 → (parse_unsigned (address_text a) ≡ some a) × Plain (address_text a)
address_read a h =
    let (value, plain) =
      and_both (is_value (parse_unsigned (address_text a)) a) (is_plain (address_text a))
        (all_below_sound 128 address_test a all_addresses h) in
    (is_value_of (parse_unsigned (address_text a)) a value, above_space (address_text a) plain)

-- A length of at most 32.
pub length_read :
    (n : ℕ)
    → n ≤ 32
    → (parse_unsigned (decimal n) ≡ some n)
      × Plain (decimal n)
      × (length (decimal n) ≤ 2)
      × (0 < length (decimal n))
length_read n h =
    let tested = all_below_sound 33 length_test n all_lengths (omega (arith, h)) in
    let (front, some_digit) =
      and_both
        (is_value (parse_unsigned (decimal n)) n
          && is_plain (decimal n)
          && leb (length (decimal n)) 2)
        (ltb 0 (length (decimal n))) tested in
    let (both, few) =
      and_both (is_value (parse_unsigned (decimal n)) n && is_plain (decimal n))
        (leb (length (decimal n)) 2) front in
    let (value, plain) =
      and_both (is_value (parse_unsigned (decimal n)) n) (is_plain (decimal n)) both in
    (
      is_value_of (parse_unsigned (decimal n)) n value,
      above_space (decimal n) plain,
      ground (arith, few),
      ground (arith, some_digit),
    )

byte_read :
    (v : ℕ)
    → v < 2 ^ 8
    → (parse_pair (hex_digit (v / 2 ^ 4)) (hex_digit (v % 2 ^ 4)) ≡ some v) × Plain (pair_text v)
byte_read v h =
    let o = parse_pair (hex_digit (v / 2 ^ 4)) (hex_digit (v % 2 ^ 4)) in
    let (value, plain) =
      and_both (is_value o v) (is_plain (pair_text v))
        (all_below_sound 256 byte_test v all_bytes h) in
    (is_value_of o v value, above_space (pair_text v) plain)

pub length-hex_text : (bytes : List ℕ) → length (hex_text bytes) ≡ length bytes * 2
length-hex_text [] = refl
length-hex_text (v ∷ bytes) = omega (arith, length-hex_text bytes)

hex_text-Plain : (bytes : List ℕ) → All (λ v. v < 2 ^ 8) bytes → Plain (hex_text bytes)
hex_text-Plain [] h = tt
hex_text-Plain (v ∷ bytes) h =
    let both = (byte_read v h.0).1 in (both.0, (both.1.0, hex_text-Plain bytes h.1))

parse_pairs-hex_text :
    (bytes : List ℕ) → All (λ v. v < 2 ^ 8) bytes → parse_pairs (hex_text bytes) ≡ some bytes
unfolding parse_pairs
parse_pairs-hex_text [] h = refl
parse_pairs-hex_text (v ∷ bytes) h =
    rw (parse_pairs, (byte_read v h.0).0, parse_pairs-hex_text bytes h.1) refl

-- At most 32 bytes to write, as two digits each.
pub write_read :
    (bytes : List ℕ)
    → All (λ v. v < 2 ^ 8) bytes
    → length bytes ≤ 32
    → (parse_hex (write_text bytes) ≡ some bytes)
      × Plain (write_text bytes)
      × (length (write_text bytes) ≤ 64)
      × (0 < length (write_text bytes))
unfolding parse_hex
write_read [] h few = (refl, (omega arith, tt), omega arith, omega arith)
write_read (v ∷ bytes) h few =
    let text = hex_text (v ∷ bytes) in
    let count = length-hex_text (v ∷ bytes) in
    let other : same_text text (codes "-") ≡ false = ground arith in
    let fits : (not (length text % 2 == 0) || ltb i2c_capacity (length text / 2)) ≡ false =
      ground (arith, count, few) in
    (
      rw (parse_hex, other, fits) (parse_pairs-hex_text (v ∷ bytes) h),
      hex_text-Plain (v ∷ bytes) h,
      omega (arith, count, few),
      omega (arith, count, few),
    )
