-- ===== src/UsbDescriptors.antt =====
-- src/platform/rp2040/usb_descriptors.c: the strings of the USB device that carries the diagnostics.
-- The processor is little-endian; a string descriptor has the type 3 of the USB standard.
use psu_usb_to_pmbus.Base.{
  Bool, List, [], ap, append_assoc, arith, bit_or, codes, drop, false, get_or, get_or-append,
  if◌then◌else◌, leb, length, length-append, ltb, refl, set, set-append, suc, sym, true, zero, ℕ,
  ◌%◌, ◌*◌, ◌++◌, ◌+◌, ◌==◌, ◌^◌, ◌∷◌, ◌≡◌, ◌≤◌,
}

abbrev pub string_capacity : ℕ
string_capacity = 33

-- The strings behind the first entry, which is the language.
abbrev pub string_descriptors : List (List ℕ)
string_descriptors =
    (0x09 ∷ 0x04 ∷ [])
    ∷ codes "psu-usb-to-pmbus"
    ∷ codes "psu-usb-to-pmbus Debug"
    ∷ codes "RP2040-AX1600I"
    ∷ codes "Debug CDC"
    ∷ []

-- The buffer after a call, and whether it is handed over.
pub record StringAnswer : Type 0 where
  pub given : Bool
  pub buffer : List ℕ

-- The loop that copies `left` characters, from `i` on.
unfoldable pub copy_string : ℕ → ℕ → List ℕ → List ℕ → List ℕ
copy_string zero i text buffer = buffer
copy_string (suc left) i text buffer =
    copy_string left (i + 1) text (set buffer (1 + i) (get_or text i 0))

abbrev pub string_header : ℕ → ℕ
string_header n = bit_or (3 * 2 ^ 8) (2 * n + 2) % 2 ^ 16

abbrev pub string_length : List ℕ → ℕ
string_length text = let n = length text % 2 ^ 8 in if ltb 32 n then 32 else n

unfoldable pub tud_descriptor_string : ℕ → List ℕ → StringAnswer
tud_descriptor_string index buffer =
    let text = get_or string_descriptors index [] in
    let n = string_length text in
    let language = set buffer 1 (get_or text 0 0 + get_or text 1 0 * 2 ^ 8) in
    if index == 0
    then record { given = true; buffer = set language 0 (string_header 1) }
    else if leb (length string_descriptors) index
    then record { given = false; buffer = buffer }
    else record { given = true; buffer = set (copy_string n 0 text buffer) 0 (string_header n) }

-- The characters of a descriptor.
abbrev pub characters : ℕ → List ℕ
characters zero = 0x0409 ∷ []
characters (suc index) = get_or string_descriptors (suc index) []

copy_string-append :
    (head : ℕ) (front rest tail : List ℕ)
    → length rest ≤ length tail
    → copy_string (length rest) (length front) (front ++ rest) (head ∷ (front ++ tail))
      ≡ head ∷ (front ++ (rest ++ drop (length rest) tail))
unfolding copy_string
copy_string-append head front [] tail room = refl
copy_string-append head front (c ∷ rest) [] room = absurd (omega (arith, room))
copy_string-append head front (c ∷ rest) (t ∷ tail) room =
    let next : 1 + length front ≡ suc (length front) = omega arith in
    let longer : length front + 1 ≡ length (front ++ c ∷ []) =
      omega (arith, length-append front (c ∷ [])) in
    let there = append_assoc front (c ∷ []) in
    let further = copy_string-append head (front ++ c ∷ []) rest tail (omega (arith, room)) in
    rw
      (
        copy_string,
        next,
        get_or-append front rest c 0,
        set-append front tail t c,
        longer,
        sym (there rest),
        sym (there tail),
        sym (there (rest ++ drop (length rest) tail)),
      )
      further

copied :
    (text buffer : List ℕ) (header : ℕ)
    → length text ≤ 32
    → length buffer ≡ 33
    → set (copy_string (length text) 0 text buffer) 0 header
      ≡ header ∷ (text ++ drop (length text + 1) buffer)
copied text [] header few whole = absurd (omega (arith, whole))
copied text (b ∷ buffer) header few whole =
    let behind : length text + 1 ≡ suc (length text) = omega arith in
    rw (behind, copy_string-append b [] text buffer (omega (arith, few, whole))) refl

abbrev handed : List ℕ → StringAnswer
handed buffer = record { given = true; buffer = buffer }

-- A request for a string hands over the buffer of 33 words with a descriptor of the type 3, whose
-- first byte counts the bytes of the header and of the characters, and with the characters of that
-- string behind it; the words behind these stay. For an index without a string nothing changes and
-- nothing is handed over.
pub tud_descriptor_string_lem :
    (index : ℕ) (buffer : List ℕ)
    → length buffer ≡ 33
    → tud_descriptor_string index buffer ≡ (
        if ltb index 5
        then record {
          given = true;
          buffer =
              (3 * 2 ^ 8 + 2 * (length (characters index) + 1))
              ∷ (characters index ++ drop (length (characters index) + 1) buffer);
        }
        else record { given = false; buffer = buffer })
unfolding tud_descriptor_string
tud_descriptor_string_lem zero [] h = absurd (omega (arith, h))
tud_descriptor_string_lem zero (b ∷ []) h = absurd (omega (arith, h))
tud_descriptor_string_lem zero (b ∷ c ∷ buffer) h = refl
tud_descriptor_string_lem (suc zero) buffer h =
    ap handed (copied (characters 1) buffer (string_header (length (characters 1))) (omega arith) h)
tud_descriptor_string_lem (suc (suc zero)) buffer h =
    ap handed (copied (characters 2) buffer (string_header (length (characters 2))) (omega arith) h)
tud_descriptor_string_lem (suc (suc (suc zero))) buffer h =
    ap handed (copied (characters 3) buffer (string_header (length (characters 3))) (omega arith) h)
tud_descriptor_string_lem (suc (suc (suc (suc zero)))) buffer h =
    ap handed (copied (characters 4) buffer (string_header (length (characters 4))) (omega arith) h)
tud_descriptor_string_lem (suc (suc (suc (suc (suc index))))) buffer h = ground arith
