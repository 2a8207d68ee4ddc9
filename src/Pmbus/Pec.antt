-- ===== src/Pmbus/Pec.antt =====
-- src/pmbus/pec.cpp: the packet error code, a CRC-8 with the polynomial x^8 + x^2 + x + 1.
pub mod Laws
use psu_usb_to_pmbus.Base.{
  ==_iff, All, Bool, Bool-cases, List, Option, [], add-one, all_below, all_below_sound, ap, arith,
  bit_and, bit_or, bit_or_fields, bit_or_step, bit_xor, bit_xor-lt, bit_xor_step, bit_xor_undo,
  drop, drop-set_self, false, get_or, get_or-set_ne, get_or-set_self, if_cases, if◌then◌else◌, inl,
  inr, leb, length, length-append, length-drop, length-set, length-take, ltb, ltb→lt, lt→ltb, map,
  min, none, not, refl, replicate, set, some, subst, suc, sym, take, take-append, take-set_le,
  take-take-append, take_snoc, true, zero, ℕ, ℕ_discrete, ◌%◌, ◌&&◌, ◌*◌, ◌++◌, ◌+◌, ◌-◌, ◌/◌, ◌<◌,
  ◌==◌, ◌^◌, ◌||◌, ◌↔◌, ◌∙◌, ◌∷◌, ◌≡◌, ◌≢◌, ◌≤◌, ◌⊎◌,
}

-- One round of the loop: `crc & 0x80` is the digit 2^7 of a byte.
unfoldable pub shift_round : ℕ → ℕ
shift_round crc = if crc / 2 ^ 7 % 2 == 0 then crc * 2 % 2 ^ 8 else bit_xor (crc * 2) 0x07 % 2 ^ 8

unfoldable pub rounds : ℕ → ℕ → ℕ
unfolding shift_round
rounds zero crc = crc
rounds (suc left) crc = rounds left (shift_round crc)

unfoldable pub pec_update : ℕ → ℕ → ℕ
unfolding rounds
pec_update crc value = rounds 8 (bit_xor crc value)

unfoldable pub pec : List ℕ → ℕ → ℕ
pec [] initial = initial
pec (value ∷ bytes) initial = pec bytes (pec_update initial value)
