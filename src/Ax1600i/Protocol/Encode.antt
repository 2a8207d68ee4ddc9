-- ===== src/Ax1600i/Protocol/Encode.antt =====
-- The frames that `encode` of src/psu/corsair_ax1600i/protocol.cpp writes, as plain lists.
use psu_usb_to_pmbus.Ax1600i.Protocol.{encode_bytes, encode_table, encode, encoded_size}
use psu_usb_to_pmbus.Base.{
  List, [], add-one, ap, arith, bit_and, drop, false, get_or, length, length-append, ltb, refl,
  set-append, suc, sym, ℕ, ◌%◌, ◌*◌, ◌++◌, ◌+◌, ◌/◌, ◌<◌, ◌^◌, ◌∙◌, ◌∷◌, ◌≡◌, ◌≤◌, ◌⊎◌,
  set-set-append, append_assoc,
}

-- The symbol of a nibble.
abbrev pub symbol : ℕ → ℕ
symbol n = get_or encode_table (n % 2 ^ 4) 0

-- The symbols of a payload.
abbrev pub symbols : List ℕ → List ℕ
symbols [] = []
symbols (v ∷ vs) = symbol v ∷ symbol (v / 2 ^ 4) ∷ symbols vs

pub length-symbols : (vs : List ℕ) → length (symbols vs) ≡ length vs * 2
length-symbols [] = refl
length-symbols (v ∷ vs) = omega (arith, length-symbols vs)

-- The loop fills the output from the cursor on and keeps what stands before and behind.
encode_bytes_lem :
    (vs before rest : List ℕ) (cursor : ℕ)
    → cursor ≡ length before
    → length vs * 2 + 1 ≤ length rest
    → encode_bytes vs cursor (before ++ rest)
      ≡ before ++ (symbols vs ++ 0 ∷ drop (length vs * 2 + 1) rest)
unfolding encode_bytes
encode_bytes_lem [] before [] cursor e h = absurd (omega arith)
encode_bytes_lem [] before (x ∷ rest) cursor e h = rw e (set-append before rest x 0)
encode_bytes_lem (v ∷ vs) before [] cursor e h = absurd (omega arith)
encode_bytes_lem (v ∷ vs) before (x ∷ []) cursor e h = absurd (omega arith)
encode_bytes_lem (v ∷ vs) before (x ∷ y ∷ rest) cursor e h =
    let a = symbol v in
    let b = symbol (v / 2 ^ 4) in
    let behind : suc (length vs) * 2 + 1 ≡ suc (suc (length vs * 2 + 1)) = omega arith in
    rw (e, behind, add-one, set-set-append before rest x y a b)
      (ap (encode_bytes vs (length before + 2)) (sym (append_assoc before (a ∷ b ∷ []) rest))
        ∙ encode_bytes_lem vs (before ++ a ∷ b ∷ []) rest (length before + 2)
            (omega (arith, length-append before (a ∷ b ∷ []))) (omega arith)
        ∙ append_assoc before (a ∷ b ∷ []) (symbols vs ++ 0 ∷ drop (length vs * 2 + 1) rest))

-- The first byte of a frame.
abbrev pub header : ℕ → ℕ
header command = bit_and (get_or encode_table (command * 2 % 2 ^ 4) 0) 0xfc

-- A frame as a list: the header, two symbols for each byte, and the terminator.
abbrev pub frame : ℕ → List ℕ → List ℕ
frame command payload = header command ∷ (symbols payload ++ 0 ∷ [])

pub length-frame : (command : ℕ) (vs : List ℕ) → length (frame command vs) ≡ length vs * 2 + 2
length-frame command vs = omega (arith, length-symbols vs, length-append (symbols vs) (0 ∷ []))

encode-frame_cons :
    (command : ℕ) (vs : List ℕ) (x : ℕ) (rest : List ℕ)
    → command ≤ 7
    → length vs * 2 + 1 ≤ length rest
    → encode command vs (x ∷ rest) ≡ record {
      size = encoded_size (length vs);
      output = header command ∷ (symbols vs ++ 0 ∷ drop (length vs * 2 + 1) rest);
    }
unfolding encode
encode-frame_cons command vs x rest hc hr =
    let fits : ltb (length {A = ℕ} (x ∷ rest)) (encoded_size (length vs)) ≡ false = ground arith in
    let small : ltb 7 command ≡ false = ground arith in
    rw (fits, small)
      (ap (λ (o : List ℕ). record { size = encoded_size (length vs); output = o })
        (encode_bytes_lem vs (header command ∷ []) rest 1 refl hr))

-- A command of at most 7 and a payload that the output has room for are encoded as one frame at the
-- front of the output; the returned size is that of the frame, and the rest of the output stays.
pub encode-frame :
    (command : ℕ) (vs output : List ℕ)
    → command ≤ 7
    → encoded_size (length vs) ≤ length output
    → let r = encode command vs output in
      (r.size ≡ length (frame command vs))
      × (r.output ≡ frame command vs ++ drop (length (frame command vs)) output)
encode-frame command vs [] hc ho = absurd (omega arith)
encode-frame command vs (x ∷ rest) hc ho =
    let tail : length (symbols vs ++ 0 ∷ []) ≡ length vs * 2 + 1 =
      omega (arith, length-symbols vs, length-append (symbols vs) (0 ∷ [])) in
    rw (encode-frame_cons command vs x rest hc (omega arith), tail)
      (
        omega arith,
        ap (◌∷◌ (header command))
            (sym (append_assoc (symbols vs) (0 ∷ []) (drop (length vs * 2 + 1) rest))),
      )

-- A call of `encode` with a command above 7, or with an output that is too short for the frame,
-- returns zero and leaves the output alone.
encode-refused :
    (command : ℕ) (vs output : List ℕ)
    → (7 < command) ⊎ (length output < encoded_size (length vs))
    → encode command vs output ≡ record { size = 0; output = output }
unfolding encode
encode-refused command vs output h = ground arith
