-- ===== src/Pmbus/Pec/Laws.antt =====
-- What the packet error code of src/pmbus/pec.cpp detects.
use psu_usb_to_pmbus.Pmbus.Pec.{rounds, pec, pec_update}
use psu_usb_to_pmbus.Base.{
  All, List, [], all_below, all_below_sound, ap, arith, bit_xor, bit_xor-lt, bit_xor_undo,
  if◌then◌else◌, ltb, refl, suc, sym, true, zero, ℕ, ◌%◌, ◌&&◌, ◌++◌, ◌+◌, ◌/◌, ◌<◌, ◌==◌, ◌^◌, ◌↔◌,
  ◌∙◌, ◌∷◌, ◌≡◌, ◌≢◌, bit_xor_comm, bit_xor_self,
}

abbrev IsByte : ℕ → Type 0
IsByte x = x < 2 ^ 8

-- Each round halves back: the shifted-out bit shows in the lowest one.
round_back : ℕ → ℕ
round_back y = if y % 2 == 0 then y / 2 else bit_xor y 0x07 / 2 + 128

rounds_back : ℕ → ℕ → ℕ
unfolding round_back
rounds_back zero y = y
rounds_back (suc left) y = round_back (rounds_back left y)

rounds_table : all_below 256 (λ x. rounds_back 8 (rounds 8 x) == x && ltb (rounds 8 x) 256) ≡ true
unfolding all_below rounds_back rounds
rounds_table = refl

rounds_lem : (x : ℕ) → IsByte x → (rounds_back 8 (rounds 8 x) ≡ x) × IsByte (rounds 8 x)
rounds_lem x h =
    let row =
      all_below_sound 256 (λ y. rounds_back 8 (rounds 8 y) == y && ltb (rounds 8 y) 256) x
        rounds_table h in
    ground arith

pub pec_update-lt : (crc v : ℕ) → IsByte crc → IsByte v → IsByte (pec_update crc v)
unfolding pec_update
pec_update-lt crc v hc hv = (rounds_lem (bit_xor crc v) (bit_xor-lt 8 crc v hc hv)).1

rounds-injective : (x y : ℕ) → IsByte x → IsByte y → rounds 8 x ≡ rounds 8 y → x ≡ y
rounds-injective x y hx hy e = sym (rounds_lem x hx).0 ∙ ap (rounds_back 8) e ∙ (rounds_lem y hy).0

bit_xor_undo_left : (a b : ℕ) → bit_xor a (bit_xor a b) ≡ b
bit_xor_undo_left a b =
    ap (bit_xor a) (bit_xor_comm a b) ∙ bit_xor_comm a (bit_xor b a) ∙ bit_xor_undo b a

pub pec_update_self : (c : ℕ) → pec_update c c ≡ 0
unfolding pec_update
pec_update_self c = rw (bit_xor_self c) (unfold rounds in refl)

-- Two bytes that differ leave different codes, and so do two codes that differ before one byte.
pec_update-injective :
    (c v w : ℕ) → IsByte c → IsByte v → IsByte w → pec_update c v ≡ pec_update c w → v ≡ w
unfolding pec_update
pec_update-injective c v w hc hv hw e =
    let same =
      rounds-injective (bit_xor c v) (bit_xor c w) (bit_xor-lt 8 c v hc hv) (bit_xor-lt 8 c w hc hw)
        e in
    sym (bit_xor_undo_left c v) ∙ ap (bit_xor c) same ∙ bit_xor_undo_left c w

pec_update-injective_crc :
    (c d v : ℕ) → IsByte c → IsByte d → IsByte v → pec_update c v ≡ pec_update d v → c ≡ d
unfolding pec_update
pec_update-injective_crc c d v hc hd hv e =
    let same =
      rounds-injective (bit_xor c v) (bit_xor d v) (bit_xor-lt 8 c v hc hv) (bit_xor-lt 8 d v hd hv)
        e in
    sym (bit_xor_undo c v) ∙ ap (λ (x : ℕ). bit_xor x v) same ∙ bit_xor_undo d v

-- The code of a message is a byte.
pub pec-lt : (xs : List ℕ) (c : ℕ) → All (λ x. x < 2 ^ 8) xs → c < 2 ^ 8 → pec xs c < 2 ^ 8
unfolding pec
pec-lt [] c hs hc = hc
pec-lt (x ∷ xs) c hs hc = pec-lt xs (pec_update c x) hs.1 (pec_update-lt c x hc hs.0)

pec-injective :
    (ys : List ℕ) (c d : ℕ)
    → All (λ x. x < 2 ^ 8) ys
    → IsByte c
    → IsByte d
    → pec ys c ≡ pec ys d
    → c ≡ d
unfolding pec
pec-injective [] c d hs hc hd e = e
pec-injective (y ∷ ys) c d hs hc hd e = pec_update-injective_crc c d y hc hd hs.0 (
    pec-injective ys (pec_update c y) (pec_update d y) hs.1 (pec_update-lt c y hc hs.0)
      (pec_update-lt d y hd hs.0) e)

pub pec-append : (xs ys : List ℕ) (c : ℕ) → pec (xs ++ ys) c ≡ pec ys (pec xs c)
unfolding pec
pec-append [] ys c = refl
pec-append (x ∷ xs) ys c = pec-append xs ys (pec_update c x)

-- Any error in a single byte of a message, of any number of its bits, changes the code.
pub pec_detects :
    (xs ys : List ℕ) (v w c : ℕ)
    → All (λ x. x < 2 ^ 8) xs
    → All (λ x. x < 2 ^ 8) ys
    → v < 2 ^ 8
    → w < 2 ^ 8
    → c < 2 ^ 8
    → v ≢ w
    → pec (xs ++ v ∷ ys) c ≢ pec (xs ++ w ∷ ys) c
unfolding pec
pec_detects xs ys v w c hxs hys hv hw hc ne e =
    let before = pec xs c in
    let hb = pec-lt xs c hxs hc in
    ne (
      pec_update-injective before v w hb hv hw (
        pec-injective ys (pec_update before v) (pec_update before w) hys
          (pec_update-lt before v hb hv) (pec_update-lt before w hb hw)
          (sym (pec-append xs (v ∷ ys) c) ∙ e ∙ pec-append xs (w ∷ ys) c)))

-- A message followed by its own code has the code zero, and no other byte in the place of the code
-- gives zero: checking for a zero remainder is the same as comparing the codes.
pub pec_residue_iff :
    (xs : List ℕ) (b c : ℕ)
    → All (λ x. x < 2 ^ 8) xs
    → b < 2 ^ 8
    → c < 2 ^ 8
    → (pec (xs ++ b ∷ []) c ≡ 0) ↔ (b ≡ pec xs c)
unfolding pec
pec_residue_iff xs b c hxs hb hc = (
  (λ e.
      pec_update-injective (pec xs c) b (pec xs c) (pec-lt xs c hxs hc) hb (pec-lt xs c hxs hc)
        (sym (pec-append xs (b ∷ []) c) ∙ e ∙ sym (pec_update_self (pec xs c)))),
  (λ e. pec-append xs (b ∷ []) c ∙ ap (pec_update (pec xs c)) e ∙ pec_update_self (pec xs c)),
)
