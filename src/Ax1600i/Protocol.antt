-- ===== src/Ax1600i/Protocol.antt =====
-- src/psu/corsair_ax1600i/protocol.cpp: the symbol code of the USB bridge, with its framing.
-- A span that is written is a list that comes back changed.
pub mod Encode
pub mod RoundTrip
pub mod Bounds
use psu_usb_to_pmbus.Base.{
  ==_iff, All, Bool, Bool-cases, List, Option, [], add-one, all_below, all_below_sound, ap, arith,
  bit_and, bit_or, bit_or_fields, bit_or_step, bit_xor, bit_xor-lt, bit_xor_comm, bit_xor_self,
  bit_xor_step, bit_xor_undo, drop, drop-set_self, false, get_or, get_or-append, get_or-set_ne,
  get_or-set_self, if_cases, if◌then◌else◌, inl, inr, leb, length, length-append, length-drop,
  length-set, length-take, ltb, ltb→lt, lt→ltb, map, min, none, not, refl, replicate, set,
  set-append, some, subst, suc, sym, take, take-append, take-set_le, take-take-append, take_snoc,
  true, zero, ℕ, ℕ_discrete, ◌%◌, ◌&&◌, ◌*◌, ◌++◌, ◌+◌, ◌-◌, ◌/◌, ◌<◌, ◌==◌, ◌^◌, ◌||◌, ◌↔◌, ◌∙◌,
  ◌∷◌, ◌≡◌, ◌≢◌, ◌≤◌, ◌⊎◌,
}

abbrev pub encode_table : List ℕ
encode_table =
    0x55 ∷ 0x56 ∷ 0x59 ∷ 0x5a ∷ 0x65 ∷ 0x66 ∷ 0x69 ∷ 0x6a ∷ 0x95 ∷ 0x96 ∷ 0x99 ∷ 0x9a ∷ 0xa5 ∷ 0xa6
    ∷ 0xa9 ∷ 0xaa ∷ []

-- The place of the first entry that passes the test; `none` is the -1 of the source.
unfoldable pub find_entry : (ℕ → Bool) → List ℕ → ℕ → Option ℕ
find_entry test [] i = none
find_entry test (x ∷ xs) i = if test x then some i else find_entry test xs (i + 1)

unfoldable pub decode_nibble : ℕ → Option ℕ
unfolding find_entry
decode_nibble value = find_entry (λ x. x == value) encode_table 0

unfoldable pub decode_header : ℕ → Option ℕ
unfolding find_entry
decode_header value = find_entry (λ x. bit_and x 0xfc == value) encode_table 0

abbrev pub encoded_size : ℕ → ℕ
encoded_size payload_size = payload_size * 2 + 2

-- The two symbols of each byte from `output[cursor]` on, low nibble first, and the terminator.
unfoldable pub encode_bytes : List ℕ → ℕ → List ℕ → List ℕ
encode_bytes [] cursor output = set output cursor 0
encode_bytes (value ∷ payload) cursor output =
    let low = set output cursor (get_or encode_table (value % 2 ^ 4) 0) in
    let high = set low (cursor + 1) (get_or encode_table (value / 2 ^ 4 % 2 ^ 4) 0) in
    encode_bytes payload (cursor + 2) high

pub record Encoded : Type 0 where
  pub size : ℕ
  pub output : List ℕ

unfoldable pub encode : ℕ → List ℕ → List ℕ → Encoded
encode command payload output =
    let required = encoded_size (length payload) in
    if ltb (length output) required || ltb 7 command
    then record { size = 0; output = output }
    else (let header = bit_and (get_or encode_table (command * 2 % 2 ^ 4) 0) 0xfc in
        record { size = required; output = encode_bytes payload 1 (set output 0 header) })

pub data DecodeError : Type 0 where
  success too_short missing_terminator invalid_header invalid_symbol output_too_small : DecodeError

pub record Decoded : Type 0 where
  pub error : DecodeError
  pub size : ℕ
  pub output : List ℕ

abbrev fail : DecodeError → List ℕ → Decoded
fail e output = record { error = e; size = 0; output = output }

-- `encoded.back()`.
abbrev pub last : List ℕ → ℕ
last xs = get_or xs (length xs - 1) 0

-- The byte of a low and a high nibble, if both symbols are known.
unfoldable pub join_nibbles : Option ℕ → Option ℕ → Option ℕ
join_nibbles (some low) (some high) = some (bit_or low (high * 2 ^ 4) % 2 ^ 8)
join_nibbles (some low) none = none
join_nibbles none high = none

-- The loop on the symbol pairs, with `left` pairs to go; `false` where a symbol is unknown.
unfoldable pub decode_pairs : ℕ → ℕ → List ℕ → List ℕ → Bool × List ℕ
decode_pairs zero i encoded output = (true, output)
decode_pairs (suc left) i encoded output =
    let low = decode_nibble (get_or encoded (1 + i * 2) 0) in
    let high = decode_nibble (get_or encoded (2 + i * 2) 0) in
    elim (join_nibbles low high) [
      | none ↦ (false, output)
      | some value ↦ decode_pairs left (i + 1) encoded (set output i value)
    ]

unfoldable pub is_reply_header : Option ℕ → Bool
is_reply_header none = false
is_reply_header (some header) = header % 2 ^ 4 / 2 == 7

-- The symbols of a frame whose length and header have been checked.
unfoldable pub decode_body : List ℕ → List ℕ → Decoded
decode_body encoded output =
    let required = length encoded / 2 in
    if ltb (length output) required
    then fail output_too_small output
    else (let (known, filled) = decode_pairs (required - 1) 0 encoded output in
        if known
        then record { error = success; size = required; output = set filled (required - 1) 0 }
        else fail invalid_symbol filled)

unfoldable pub decode : List ℕ → List ℕ → Decoded
decode encoded output =
    if length encoded == 0
    then fail too_short output
    else if not (last encoded == 0)
    then fail missing_terminator output
    else if length encoded == 1
    then record { error = success; size = 0; output = output }
    else if not (is_reply_header (decode_header (get_or encoded 0 0)))
    then fail invalid_header output
    else if not (length encoded % 2 == 0)
    then fail invalid_symbol output
    else decode_body encoded output

unfoldable pub is_zero_reply : List ℕ → Bool
is_zero_reply response = length response == 1 && get_or response 0 0 == 0

unfoldable pub is_ok_reply : List ℕ → Bool
is_ok_reply response = length response == 2 && get_or response 0 0 == 0
