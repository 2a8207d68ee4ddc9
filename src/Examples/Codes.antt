-- ===== src/Examples/Codes.antt =====
-- The packet error code and the symbol code of the USB bridge, at the inputs of
-- tests/cpp/core_tests.cpp where there are such.
use psu_usb_to_pmbus.Ax1600i.Protocol.RoundTrip.{encode-decode}
use psu_usb_to_pmbus.Pmbus.Pec.Laws.{pec_detects, pec_residue_iff}
use psu_usb_to_pmbus.Ax1600i.Protocol.{encode, decode, success, encode_bytes}
use psu_usb_to_pmbus.Pmbus.Pec.{pec, pec_update}
use psu_usb_to_pmbus.Base.{List, [], arith, refl, replicate, take, ℕ, ◌++◌, ◌↔◌, ◌∷◌, ◌≡◌, ◌≢◌}

-- CRC-8/SMBus of "123456789".
known_vector : pec (0x31 ∷ 0x32 ∷ 0x33 ∷ 0x34 ∷ 0x35 ∷ 0x36 ∷ 0x37 ∷ 0x38 ∷ 0x39 ∷ []) 0 ≡ 0xf4
unfolding pec pec_update
known_vector = refl

alert_mask_code : pec (0xb0 ∷ 0x1b ∷ 0x81 ∷ 0xff ∷ []) 0 ≡ 0x86
unfolding pec pec_update
alert_mask_code = refl

pec_detects_example :
    pec (0xb0 ∷ 0x1b ∷ 0x81 ∷ 0xff ∷ []) 0 ≢ pec (0xb0 ∷ 0x1b ∷ 0x80 ∷ 0xff ∷ []) 0
pec_detects_example =
    pec_detects (0xb0 ∷ 0x1b ∷ []) (0xff ∷ []) 0x81 0x80 0 (omega arith) (omega arith) (omega arith)
      (omega arith) (omega arith) (omega arith)

pec_residue_iff_example :
    (pec (0xb0 ∷ 0xd0 ∷ 0x00 ∷ 0x50 ∷ []) 0 ≡ 0) ↔ (0x50 ≡ pec (0xb0 ∷ 0xd0 ∷ 0x00 ∷ []) 0)
pec_residue_iff_example =
    pec_residue_iff (0xb0 ∷ 0xd0 ∷ 0x00 ∷ []) 0x50 0 (omega arith) (omega arith) (omega arith)

abbrev request_bytes : List ℕ
request_bytes = 0x13 ∷ 0x03 ∷ 0x06 ∷ 0x01 ∷ 0x07 ∷ 0x02 ∷ 0x88 ∷ []

request_frame : (encode 0 request_bytes (replicate 32 0)).size ≡ 16
unfolding encode encode_bytes
request_frame = refl

encode-decode_example :
    decode
      (take
        (encode 7 request_bytes (replicate 32 0)).size
        (encode 7 request_bytes (replicate 32 0)).output)
      (replicate 16 0)
    ≡ record { error = success; size = 8; output = request_bytes ++ 0 ∷ replicate 8 0 }
encode-decode_example =
    encode-decode request_bytes (replicate 32 0) (replicate 16 0) (omega arith) (omega arith)
      (omega arith)
