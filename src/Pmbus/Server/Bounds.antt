-- ===== src/Pmbus/Server/Bounds.antt =====
-- The replies of src/pmbus/server.cpp in their array of 40 bytes.
use psu_usb_to_pmbus.Base.{
  not, ◌||◌, ◌&&◌, ◌==◌, if_cases, Bool, get_or, ℕ, zero, suc, ◌+◌, ◌≤◌, ◌≡◌, refl, ◌∙◌, ◌⊎◌, inl,
  Bool, true, List, length, length-set, arith, min, ◌<◌, ◌%◌, set, ◌^◌,
}
use psu_usb_to_pmbus.Float.{Libm}
use psu_usb_to_pmbus.Telemetry.Snapshot.{TelemetrySnapshot}
use psu_usb_to_pmbus.Pmbus.Commands.{Command, code, of_byte, is_valid_page}
use psu_usb_to_pmbus.Pmbus.Server.{
  PmbusServer, ReadResult, put_at_lem, text_length, no_response, put_block, copy_block,
  response_capacity,
}
use psu_usb_to_pmbus.Pmbus.Server.OnPage.{response_of, read_on_page, Reply}
use psu_usb_to_pmbus.Pmbus.Server.Read.{
  nest, shift_up, read_query, read, read_mask, read_coefficients, read_page_plus, is_stale,
  is_empty, nested_reply,
}

-- The array has its 40 bytes, so no write went behind its end; at most `n` of them are sent, and none
-- without an answer.
pub record Fits (n : ℕ) (r : ReadResult) : Type 0 where
  pub whole : length r.bytes ≡ response_capacity
  pub bounded : r.size ≤ n
  pub silent : (r.supported ≡ true) ⊎ (r.size ≡ 0)

length-copy_block :
    (left i : ℕ) (value bytes : List ℕ)
    → i + left < length bytes
    → length (copy_block left i value bytes) ≡ length bytes
unfolding copy_block
length-copy_block zero i value bytes room = refl
length-copy_block (suc left) i value bytes room =
    let v = get_or value i 0 % 2 ^ 8 in
    let same = put_at_lem bytes (i + 1) v (omega (arith, room)) in
    let kept = length-set bytes (i + 1) v in
    rw same (
      length-copy_block left (i + 1) value (set bytes (i + 1) v) (omega (arith, room, kept)) ∙ kept)

put_block-Fits : (value : List ℕ) → Fits 33 (put_block value)
unfolding put_block
put_block-Fits value = record {
  whole =
      let n = min (text_length value) 32 in
      length-copy_block n 0 value (set no_response.bytes 0 (n % 2 ^ 8)) (omega arith);
  bounded = omega arith;
  silent = inl refl;
}

module _ ⦃libm : Libm⦄ (t : TelemetrySnapshot) (stale : Bool) (s : PmbusServer) (p : ℕ) where
  pub response_of-Fits : (c : Command) → Fits 33 (response_of t stale s p c)
  unfolding response_of
  response_of-Fits Command.mfr_id = put_block-Fits t.manufacturer
  response_of-Fits Command.mfr_model = put_block-Fits t.model
  response_of-Fits Command.mfr_revision = put_block-Fits t.revision
  response_of-Fits Command.mfr_serial = put_block-Fits t.serial
  response_of-Fits _ = ground arith

length-shift_up :
    (i : ℕ) (bytes : List ℕ) → i < length bytes → length (shift_up i bytes) ≡ length bytes
unfolding shift_up
length-shift_up zero bytes room = refl
length-shift_up (suc i) bytes room =
    let v = get_or bytes i 0 in
    let same = put_at_lem bytes (suc i) v room in
    let kept = length-set bytes (suc i) v in
    rw same (length-shift_up i (set bytes (suc i) v) (omega (arith, room, kept)) ∙ kept)

nest-Fits : (r : ReadResult) → r.supported ≡ true → Fits 33 r → Fits 34 (nest r)
unfolding nest
nest-Fits r h f = record {
  whole =
      length-set (shift_up r.size r.bytes) 0 _
      ∙ length-shift_up r.size r.bytes (omega (arith, f.bounded, f.whole))
      ∙ f.whole;
  bounded = omega (arith, f.bounded);
  silent = inl h;
}

nested_reply-Fits : (n : Reply) → Fits 33 n.response → Fits 34 (nested_reply n).response
unfolding nested_reply
nested_reply-Fits n f = ground (arith, nest-Fits n.response)

abbrev Bounded : Reply → Type 0
Bounded r = Fits 34 r.response

module _ ⦃libm : Libm⦄ (t : TelemetrySnapshot) (now_ms : ℕ) (s : PmbusServer) where
  weaken : {r : ReadResult} → Fits 33 r → Fits 34 r
  weaken f = ground arith

  read_mask-Fits : (request : List ℕ) → Fits 34 (read_mask s request).response
  unfolding read_mask
  read_mask-Fits request = ground arith

  read_coefficients-Fits : (request : List ℕ) → Fits 34 (read_coefficients s request).response
  unfolding read_coefficients
  read_coefficients-Fits request = ground arith

  read_query-Fits : (request : List ℕ) → Fits 34 (read_query t now_ms s request).response
  unfolding read_query
  read_query-Fits request = ground arith

  pub on_page-Fits : (p c : ℕ) (stale : Bool) → Fits 33 (read_on_page s p c t stale).response
  unfolding read_on_page
  on_page-Fits p c stale = response_of-Fits t stale s p (of_byte c)

  read_page_plus-Fits : (request : List ℕ) → Fits 34 (read_page_plus t now_ms s request).response
  unfolding read_page_plus
  read_page_plus-Fits request =
      let nested = read_on_page s (get_or request 1 0) (get_or request 2 0) t (is_stale t now_ms) in
      if_cases Bounded
        (not (length request == 3)
          || not (get_or request 0 0 == 2)
          || not (is_valid_page (get_or request 1 0)))
        (λ _. ground arith)
        λ _.
          nested_reply-Fits nested
            (on_page-Fits (get_or request 1 0) (get_or request 2 0) (is_stale t now_ms))

  -- A read of any command with any request fills its array of 40 bytes without a write behind its
  -- end, however long the texts of the snapshot are: at most 34 of the bytes are sent, and none if the
  -- command is not supported.
  pub read-Fits :
      (command : ℕ) (request : List ℕ) → Fits 34 (read t now_ms s command request).response
  unfolding read
  read-Fits command request =
      if_cases Bounded (command == code Command.smalert_mask && not (is_empty request))
        (λ _. read_mask-Fits request)
        λ _.
          if_cases Bounded (command == code Command.query) (λ _. read_query-Fits request)
            λ _.
              if_cases Bounded (command == code Command.coefficients && not (is_empty request))
                (λ _. read_coefficients-Fits request)
                λ _.
                  if_cases Bounded (command == code Command.page_plus_read)
                    (λ _. read_page_plus-Fits request)
                    λ _. weaken (on_page-Fits s.page command (is_stale t now_ms))
