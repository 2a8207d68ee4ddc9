-- ===== src/Ax1600i/Protocol/RoundTrip.antt =====
-- `decode` of src/psu/corsair_ax1600i/protocol.cpp on the frames that `encode` writes.
use psu_usb_to_pmbus.Ax1600i.Protocol.Encode.{
  symbol, symbols, length-symbols, frame, header, encode-frame,
}
use psu_usb_to_pmbus.Ax1600i.Protocol.{
  decode_pairs, decode_nibble, encode_table, decode_body, last, success, join_nibbles,
  is_reply_header, decode, decode_header, invalid_header, encoded_size, encode,
}
use psu_usb_to_pmbus.Base.{
  ==_iff, All, Bool, List, Option, [], add-one, all_below, all_below_sound, ap, append_assoc, arith,
  bit_or, drop, false, get_or, get_or-append, length, length-append, ltb, none, not, refl, set,
  set-append, some, suc, sym, take, take-append, true, ℕ, ◌%◌, ◌*◌, ◌++◌, ◌+◌, ◌-◌, ◌/◌, ◌<◌, ◌==◌,
  ◌^◌, ◌∙◌, ◌∷◌, ◌≡◌, ◌≢◌, ◌≤◌, get_or-append_suc, drop-cons, store, store_lem,
}

abbrev IsByte : ℕ → Type 0
IsByte x = x < 2 ^ 8

pub decode_nibble-symbol : (v : ℕ) → decode_nibble (symbol v) ≡ some (v % 2 ^ 4)
decode_nibble-symbol v = table (v % 2 ^ 4) (omega arith)
  where
    row : ℕ → Bool
    row n = elim (decode_nibble (get_or encode_table n 0)) [ none ↦ false | some m ↦ m == n ]

    rows : all_below 16 row ≡ true
    rows = unfold all_below decode_nibble in refl

    table : (n : ℕ) → n < 2 ^ 4 → decode_nibble (get_or encode_table n 0) ≡ some n
    table n h = let r = all_below_sound 16 row n rows h in ground arith

-- The two nibbles of a byte, put together again.
bytes_table :
    all_below 256 (λ v. bit_or (v % 2 ^ 4) (v / 2 ^ 4 % 2 ^ 4 * 2 ^ 4) % 2 ^ 8 == v) ≡ true
unfolding all_below
bytes_table = refl

nibbles_join : (v : ℕ) → IsByte v → bit_or (v % 2 ^ 4) (v / 2 ^ 4 % 2 ^ 4 * 2 ^ 4) % 2 ^ 8 ≡ v
nibbles_join v h = (==_iff _ v).0 (all_below_sound 256 _ v bytes_table h)

byte_read :
    (v : ℕ) (low high : Option ℕ)
    → low ≡ some (v % 2 ^ 4)
    → high ≡ some (v / 2 ^ 4 % 2 ^ 4)
    → IsByte v
    → join_nibbles low high ≡ some v
unfolding join_nibbles
byte_read v low high l e h = rw (l, e, nibbles_join v h) refl

decode_pairs_step :
    (left i v : ℕ) (encoded output : List ℕ)
    → get_or encoded (1 + i * 2) 0 ≡ symbol v
    → get_or encoded (2 + i * 2) 0 ≡ symbol (v / 2 ^ 4)
    → IsByte v
    → decode_pairs (suc left) i encoded output ≡ decode_pairs left (i + 1) encoded (set output i v)
unfolding decode_pairs
decode_pairs_step left i v encoded output a b h =
    let low : decode_nibble (get_or encoded (1 + i * 2) 0) ≡ some (v % 2 ^ 4) =
      rw a (decode_nibble-symbol v) in
    let high : decode_nibble (get_or encoded (2 + i * 2) 0) ≡ some (v / 2 ^ 4 % 2 ^ 4) =
      rw b (decode_nibble-symbol (v / 2 ^ 4)) in
    rw (byte_read v _ _ low high h, decode_pairs) refl

decode_pairs_lem :
    (vs before tail output : List ℕ) (i : ℕ)
    → length before ≡ 1 + i * 2
    → All IsByte vs
    → decode_pairs (length vs) i (before ++ (symbols vs ++ tail)) output ≡ (true, store i vs output)
unfolding decode_pairs
decode_pairs_lem [] before tail output i e h = refl
decode_pairs_lem (v ∷ vs) before tail output i e h =
    let rest = symbols vs ++ tail in
    let lo = symbol v in
    let hi = symbol (v / 2 ^ 4) in
    let first : 1 + i * 2 ≡ length before = omega arith in
    let second : 2 + i * 2 ≡ suc (length before) = omega arith in
    decode_pairs_step (length vs) i v (before ++ lo ∷ hi ∷ rest) output
      (rw first (get_or-append before (hi ∷ rest) lo 0))
      (rw second (get_or-append_suc before rest lo hi 0)) h.0
    ∙ ap (λ (l : List ℕ). decode_pairs (length vs) (i + 1) l (set output i v))
        (sym (append_assoc before (lo ∷ hi ∷ []) rest))
    ∙ decode_pairs_lem vs (before ++ lo ∷ hi ∷ []) tail (set output i v) (i + 1)
        (omega (arith, length-append before (lo ∷ hi ∷ []))) h.1

pub last-append : (xs : List ℕ) (x : ℕ) → last (xs ++ x ∷ []) ≡ x
last-append xs x =
    let end : length (xs ++ x ∷ []) - 1 ≡ length xs = omega (arith, length-append xs (x ∷ [])) in
    rw end (get_or-append xs [] x 0)

stored_end :
    (vs output : List ℕ)
    → length vs + 1 ≤ length output
    → set (store 0 vs output) (length vs) 0 ≡ vs ++ 0 ∷ drop (length vs + 1) output
stored_end vs output room =
    rw
      (
        store_lem vs [] output 0 refl (omega arith),
        drop-cons (length vs) output 0 (omega arith),
        add-one,
      )
      (set-append vs (drop (suc (length vs)) output) (get_or output (length vs) 0) 0)

decode_body_lem :
    (first : ℕ) (vs output : List ℕ)
    → All IsByte vs
    → length vs + 1 ≤ length output
    → decode_body (first ∷ (symbols vs ++ 0 ∷ [])) output ≡ record {
      error = success;
      size = length vs + 1;
      output = vs ++ 0 ∷ drop (length vs + 1) output;
    }
unfolding decode_body
decode_body_lem first vs output h room =
    let inner = length (symbols vs ++ 0 ∷ []) in
    let half : suc inner / 2 ≡ length vs + 1 =
      omega (arith, length-symbols vs, length-append (symbols vs) (0 ∷ [])) in
    let pairs : length vs + 1 - 1 ≡ length vs = omega arith in
    let fits : ltb (length output) (length vs + 1) ≡ false = ground arith in
    rw (half, fits, pairs, decode_pairs_lem vs (first ∷ []) (0 ∷ []) output 0 refl h)
      (ap (λ (o : List ℕ). record { error = success; size = length vs + 1; output = o })
        (stored_end vs output room))

header_reply : is_reply_header (decode_header (header 7)) ≡ true
unfolding is_reply_header decode_header
header_reply = refl

-- The PSU's reply to a request of the host, in the form of `encode` with command 7: the decoder
-- gives the payload back and, as the last byte, the zero that the terminator stands for. The bytes
-- of the output behind these stay.
pub decode-frame :
    (vs output : List ℕ)
    → All (λ v. v < 2 ^ 8) vs
    → length vs + 1 ≤ length output
    → decode (frame 7 vs) output ≡ record {
      error = success;
      size = length vs + 1;
      output = vs ++ 0 ∷ drop (length vs + 1) output;
    }
unfolding decode
decode-frame vs output h room =
    let inner = length (symbols vs ++ 0 ∷ []) in
    let size : inner ≡ length vs * 2 + 1 =
      omega (arith, length-symbols vs, length-append (symbols vs) (0 ∷ [])) in
    let last : last (frame 7 vs) ≡ 0 = last-append (header 7 ∷ symbols vs) 0 in
    let some_length : (suc inner == 0) ≡ false = ground arith in
    let longer : (suc inner == 1) ≡ false = ground arith in
    let even : (suc inner % 2 == 0) ≡ true = ground arith in
    rw (some_length, last, longer, header_reply, even) (decode_body_lem (header 7) vs output h room)

not_reply : all_below 7 (λ c. not (is_reply_header (decode_header (header c)))) ≡ true
unfolding all_below is_reply_header decode_header
not_reply = refl

-- A frame of a command below 7, such as the host's own request with command 0, is no reply:
-- `decode` finds its header invalid and leaves the output alone.
decode-frame_other :
    (c : ℕ) (vs output : List ℕ)
    → c < 7
    → decode (frame c vs) output ≡ record { error = invalid_header; size = 0; output = output }
unfolding decode
decode-frame_other c vs output h =
    let inner = length (symbols vs ++ 0 ∷ []) in
    let last : last (frame c vs) ≡ 0 = last-append (header c ∷ symbols vs) 0 in
    let size : inner ≡ length vs * 2 + 1 =
      omega (arith, length-symbols vs, length-append (symbols vs) (0 ∷ [])) in
    let some_length : (suc inner == 0) ≡ false = ground arith in
    let longer : (suc inner == 1) ≡ false = ground arith in
    let other : is_reply_header (decode_header (header c)) ≡ false = ground (
      arith,
      all_below_sound 7 (λ (k : ℕ). not (is_reply_header (decode_header (header k)))) c not_reply,
    ) in
    rw (some_length, last, longer, other) refl

symbol_nonzero : (v : ℕ) → symbol v ≢ 0
symbol_nonzero v = table (v % 2 ^ 4) (omega arith)
  where
    rows : all_below 16 (λ n. ltb 0 (get_or encode_table n 0)) ≡ true
    rows = unfold all_below in refl

    table : (n : ℕ) → n < 2 ^ 4 → get_or encode_table n 0 ≢ 0
    table n h e =
        let r = all_below_sound 16 (λ (k : ℕ). ltb 0 (get_or encode_table k 0)) n rows h in
        ground arith

-- No symbol is zero, so the zero that ends a frame is the first zero in it: a reader that collects
-- bytes until a zero has exactly one frame.
pub symbols-nonzero : (vs : List ℕ) → All (λ x. x ≢ 0) (symbols vs)
symbols-nonzero [] = tt
symbols-nonzero (v ∷ vs) = (symbol_nonzero v, (symbol_nonzero (v / 2 ^ 4), symbols-nonzero vs))

-- What `encode` writes with command 7, cut off at the size that it returns, is decoded to the
-- payload and a final zero, for every payload of bytes that both buffers have room for.
pub encode-decode :
    (vs output received : List ℕ)
    → All (λ v. v < 2 ^ 8) vs
    → encoded_size (length vs) ≤ length output
    → length vs + 1 ≤ length received
    → let r = encode 7 vs output in
      decode (take r.size r.output) received ≡ record {
        error = success;
        size = length vs + 1;
        output = vs ++ 0 ∷ drop (length vs + 1) received;
      }
encode-decode vs output received h room space =
    let r = encode-frame 7 vs output (omega arith) room in
    rw (r.0, r.1, take-append (frame 7 vs) (drop (length (frame 7 vs)) output))
      (decode-frame vs received h space)
