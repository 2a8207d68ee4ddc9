-- ===== src/Ax1600i/Protocol/Bounds.antt =====
-- The sizes of what `encode` and `decode` of src/psu/corsair_ax1600i/protocol.cpp return.
use psu_usb_to_pmbus.Ax1600i.Protocol.{
  encode_bytes, encode, decode, decode_body, decode_pairs, decode_nibble, encode_table,
  join_nibbles,
}
use psu_usb_to_pmbus.Base.{
  ℕ, List, zero, suc, ◌∷◌, [], refl, arith, length, ◌≡◌, length-set, ◌≤◌, ◌+◌, ◌/◌, bit_and, get_or,
  ◌-◌, ◌*◌, ◌∙◌, set, ◌%◌, ◌^◌, Option-cases, inl, inr,
}

length-encode_bytes :
    (vs : List ℕ) (cursor : ℕ) (output : List ℕ)
    → length (encode_bytes vs cursor output) ≡ length output
unfolding encode_bytes
length-encode_bytes [] cursor output = length-set output cursor 0
length-encode_bytes (v ∷ vs) cursor output =
    length-encode_bytes vs (cursor + 2) _
    ∙ length-set (set output cursor _) (cursor + 1) _
    ∙ length-set output cursor _

pub encode-sizes :
    (command : ℕ) (vs output : List ℕ)
    → let r = encode command vs output in
      (length r.output ≡ length output) × (r.size ≤ length output)
unfolding encode
encode-sizes command vs output =
    let header = bit_and (get_or encode_table (command * 2 % 2 ^ 4) 0) 0xfc in
    ground (arith, length-encode_bytes vs 1 (set output 0 header), length-set output 0 header)

length-decode_pairs :
    (left i : ℕ) (encoded output : List ℕ)
    → length (decode_pairs left i encoded output).1 ≡ length output
unfolding decode_pairs
length-decode_pairs zero i encoded output = refl
length-decode_pairs (suc left) i encoded output =
    let low = decode_nibble (get_or encoded (1 + i * 2) 0) in
    let high = decode_nibble (get_or encoded (2 + i * 2) 0) in
    elim (Option-cases (join_nibbles low high)) [
      | inl e ↦ rw (e, length, decode_pairs) refl
      | inr (v, e) ↦
          rw (e, length, decode_pairs)
            (length-decode_pairs left (i + 1) encoded (set output i v) ∙ length-set output i v)
    ]

decode_body-sizes :
    (encoded output : List ℕ)
    → let r = decode_body encoded output in
      (length r.output ≡ length output) × (r.size ≤ length output)
unfolding decode_body
decode_body-sizes encoded output =
    let filled = (decode_pairs (length encoded / 2 - 1) 0 encoded output).1 in
    ground (
      arith,
      length-decode_pairs (length encoded / 2 - 1) 0 encoded output,
      length-set filled (length encoded / 2 - 1) 0,
    )

pub decode-sizes :
    (encoded output : List ℕ)
    → let r = decode encoded output in (length r.output ≡ length output) × (r.size ≤ length output)
unfolding decode
decode-sizes encoded output = ground (arith, decode_body-sizes encoded output)
