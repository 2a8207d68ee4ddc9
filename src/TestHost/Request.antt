-- ===== src/TestHost/Request.antt =====
-- The arguments of a request and the texts of the replies, in
-- tools/PMBusTestHost/PMBusTestHost.ino.
use psu_usb_to_pmbus.Base.{
  codes, refl, [], ◌∷◌, some, none, List, ◌≡◌, Option, ℕ, ◌++◌, if◌then◌else◌, get_or, ◌/◌, ◌^◌,
  length, ◌==◌, not, ◌%◌, ◌||◌, ◌&&◌, ltb,
}
use psu_usb_to_pmbus.TestHost.{i2c_capacity}
use psu_usb_to_pmbus.TestHost.Text.{strtoul, same_text}

abbrev pub new_line : List ℕ
new_line = 13 ∷ 10 ∷ []

abbrev pub sequence_or_zero : Option (List ℕ) → List ℕ
sequence_or_zero none = codes "0"
sequence_or_zero (some sequence) = sequence

abbrev pub error_text : Option (List ℕ) → List ℕ → List ℕ → List ℕ
error_text sequence error_code detail =
    codes "ERR "
    ++ (sequence_or_zero sequence ++ (b' ' ∷ (error_code ++ (b' ' ∷ (detail ++ new_line)))))

unfoldable pub parse_unsigned : List ℕ → Option ℕ
parse_unsigned text =
    let number = strtoul 0 text in
    if length text == 0
    then none
    else if not (number.consumed == 0) && number.consumed == length text
    then some number.value
    else none

-- One byte of two characters.
unfoldable pub parse_pair : ℕ → ℕ → Option ℕ
parse_pair high low =
    let number = strtoul 16 (high ∷ low ∷ []) in
    if not (number.consumed == 2) || ltb 0xff number.value then none else some number.value

abbrev pub cons_to : ℕ → Option (List ℕ) → Option (List ℕ)
cons_to x none = none
cons_to x (some xs) = some (x ∷ xs)

-- The loop over the pairs of a text of even length.
unfoldable pub parse_pairs : List ℕ → Option (List ℕ)
parse_pairs [] = some []
parse_pairs (high ∷ []) = none
parse_pairs (high ∷ low ∷ text) = elim (parse_pair high low) [
  | none ↦ none
  | some byte ↦ cons_to byte (parse_pairs text)
]

unfoldable pub parse_hex : List ℕ → Option (List ℕ)
parse_hex text =
    if same_text text (codes "-")
    then some []
    else if not (length text % 2 == 0) || ltb i2c_capacity (length text / 2)
    then none
    else parse_pairs text

abbrev pub wire_error : ℕ → List ℕ
wire_error status =
    if status == 2
    then codes "NACK_ADDR"
    else if status == 3
    then codes "NACK_DATA"
    else codes "I2C"

abbrev pub information_text : List ℕ → List ℕ
information_text sequence =
    codes "OK "
    ++ (sequence ++ (codes " PMBusTestHost/1 MAXW=32 MAXR=32 RS=1 I2C_HZ=100000" ++ new_line))

-- The two digits of each byte.
abbrev pub hex_digit : ℕ → ℕ
hex_digit n = get_or (codes "0123456789ABCDEF") n 0

abbrev pub hex_text : List ℕ → List ℕ
hex_text [] = []
hex_text (byte ∷ bytes) = hex_digit (byte / 2 ^ 4) ∷ hex_digit (byte % 2 ^ 4) ∷ hex_text bytes

pair_read : parse_hex (codes "00fF7a") ≡ some (0 ∷ 255 ∷ 122 ∷ [])
unfolding parse_hex parse_pairs parse_pair strtoul
pair_read = refl
