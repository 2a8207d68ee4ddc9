-- ===== src/Pmbus/Server/Faults.antt =====
-- The pending communication fault of src/pmbus/server.cpp: what latches it, what clears it, and
-- what a refused write leaves alone.
use psu_usb_to_pmbus.Pmbus.Server.Query.{digit}
use psu_usb_to_pmbus.Pmbus.Server.OnPage.{status_of, read_on_page, response_of, after_read}
use psu_usb_to_pmbus.Pmbus.Server.Read.{read, is_stale}
use psu_usb_to_pmbus.Telemetry.Snapshot.{TelemetrySnapshot}
use psu_usb_to_pmbus.Float.{Libm}
use psu_usb_to_pmbus.Pmbus.Commands.{Command, is_valid_page, of_byte, code, code-of_byte}
use psu_usb_to_pmbus.Pmbus.Server.Write.{
  write, write_page, write_local, write_mask, is_page_plus, Outcome, well_formed,
  write_payload_is_well_formed,
}
use psu_usb_to_pmbus.Pmbus.Server.{
  WriteResult, accepted, invalid_data, read_only, unsupported, PmbusServer, latch, cml_invalid_data,
  clear_cml, put_word, put_byte,
}
use psu_usb_to_pmbus.Base.{
  List, arith, if_cases, length, not, refl, true, ℕ, ◌+◌, ◌==◌, ◌||◌, ◌∷◌, ◌≡◌, ◌⊎◌, false,
  Bool-cases, inl, Bool, inr, ◌*◌, [], sym, ◌∙◌, ◌%◌, ap, ◌^◌,
}

-- What a write does to the target, by its result: an accepted write may clear the fault but sets
-- none, a refused payload only latches it, and a read-only or unknown command does nothing.
abbrev pub Effect : WriteResult → PmbusServer → PmbusServer → Type 0
Effect accepted s s' =
    (s'.address ≡ s.address) × ((s'.pending_cml ≡ s.pending_cml) ⊎ (s'.pending_cml ≡ 0))
Effect invalid_data s s' = s' ≡ latch cml_invalid_data s
Effect read_only s s' = s' ≡ s
Effect unsupported s s' = s' ≡ s

abbrev Effects : PmbusServer → Outcome → Type 0
Effects s r = Effect r.result s r.server

write_page-Effect : (s : PmbusServer) (payload : List ℕ) → Effects s (write_page s payload)
unfolding write_page
write_page-Effect s payload = ground arith

write_mask-Effect : (s : PmbusServer) (payload : List ℕ) → Effects s (write_mask s payload)
unfolding write_mask
write_mask-Effect s payload = ground arith

write_local-Effect :
    (k : Command) (s : PmbusServer) (b : ℕ) (payload : List ℕ)
    → Effects s (write_local s b k payload)
unfolding write_local
write_local-Effect Command.page s b payload = write_page-Effect s payload
write_local-Effect Command.smalert_mask s b payload = write_mask-Effect s payload
write_local-Effect k s b payload = ground arith

-- Every write, nested ones included: an accepted write keeps the address and sets no fault; a write
-- with invalid data changes nothing but that it latches the invalid-data fault; one that is
-- read-only or unsupported changes nothing at all.
pub write-Effect :
    (s : PmbusServer) (c : ℕ) (payload : List ℕ)
    → Effect (write s c payload).result s (write s c payload).server
unfolding write
write-Effect s c (count ∷ p ∷ nested ∷ rest) =
    if_cases (Effects s) (is_page_plus c)
      (λ _.
        if_cases (Effects s) (not (count == length rest + 2) || not (is_valid_page p)) (λ _. refl)
          (λ _. write-Effect s nested rest))
      (λ _. write_local-Effect (of_byte c) s c (count ∷ p ∷ nested ∷ rest))
write-Effect s c payload =
    if_cases (Effects s) (is_page_plus c) (λ _. refl)
      (λ _. write_local-Effect (of_byte c) s c payload)

write_local-well_formed :
    (k : Command) (s : PmbusServer) (b : ℕ) (payload : List ℕ)
    → (write_local s b k payload).result ≡ accepted
    → (k ≡ Command.page_plus_write) ⊎ (well_formed b k payload ≡ true)
unfolding write_local well_formed write_page write_mask
write_local-well_formed k s b payload ok = ground arith

page_plus-well_formed :
    (c : ℕ) (count p nested : ℕ) (rest : List ℕ)
    → is_page_plus c ≡ true
    → count ≡ length rest + 2
    → write_payload_is_well_formed c (count ∷ p ∷ nested ∷ rest) ≡ true
unfolding write_payload_is_well_formed well_formed of_byte
page_plus-well_formed c count p nested rest e n =
    let same : c ≡ code Command.page_plus_write = ground arith in rw same (ground arith)

local-well_formed :
    (s : PmbusServer) (c : ℕ) (payload : List ℕ)
    → is_page_plus c ≡ false
    → (write_local s c (of_byte c) payload).result ≡ accepted
    → write_payload_is_well_formed c payload ≡ true
unfolding write_payload_is_well_formed
local-well_formed s c payload n ok = elim (write_local-well_formed (of_byte c) s c payload ok) [
  | inl e ↦
      let same : c ≡ code Command.page_plus_write = sym (code-of_byte c) ∙ ap code e in ground arith
  | inr w ↦ w
]

-- A payload that a write accepts has the shape that the check before an unprotected write asks for,
-- so that check never turns away a write that would have been accepted.
pub write-well_formed :
    (s : PmbusServer) (c : ℕ) (payload : List ℕ)
    → (write s c payload).result ≡ accepted
    → write_payload_is_well_formed c payload ≡ true
unfolding write
write-well_formed s c (count ∷ p ∷ nested ∷ rest) ok = elim (Bool-cases (is_page_plus c)) [
  | inl e ↦ page_plus-well_formed c count p nested rest e (ground arith)
  | inr n ↦ local-well_formed s c (count ∷ p ∷ nested ∷ rest) n (rw n at ok)
]
write-well_formed s c payload ok = elim (Bool-cases (is_page_plus c)) [
  | inl e ↦ ground arith
  | inr n ↦ local-well_formed s c payload n (rw n at ok)
]

-- The digits of the word that STATUS_WORD and STATUS_BYTE report.
status_word_digits :
    (cml : ℕ) (stale : Bool) → status_of cml stale ≡ 2 * digit (not (cml == 0)) + 64 * digit stale
status_word_digits cml stale = ground arith

status_byte_digits :
    (cml : ℕ) (stale : Bool)
    → status_of cml stale % 2 ^ 8 ≡ 2 * digit (not (cml == 0)) + 64 * digit stale
status_byte_digits cml stale = ground arith

module _ ⦃libm : Libm⦄ (t : TelemetrySnapshot) (now_ms : ℕ) where
  -- STATUS_WORD reports OFF exactly if the telemetry is stale and a communication fault exactly if
  -- one is pending; STATUS_BYTE is its low byte, and STATUS_CML says which faults. Each of the three
  -- clears the fault, so that the next read of STATUS_CML is zero, and leaves the rest of the target.
  pub read_status_reports :
      (s : PmbusServer)
      → let word = read t now_ms s (code Command.status_word) [] in
        let byte = read t now_ms s (code Command.status_byte) [] in
        let cml = read t now_ms s (code Command.status_cml) [] in
        let bits = 2 * digit (not (s.pending_cml == 0)) + 64 * digit (is_stale t now_ms) in
        (word ≡ record { server = clear_cml s; response = put_word bits })
        × (byte ≡ record { server = clear_cml s; response = put_byte bits })
        × (cml ≡ record { server = clear_cml s; response = put_byte s.pending_cml })
        × (read t now_ms (clear_cml s) (code Command.status_cml) []
            ≡ record { server = clear_cml s; response = put_byte 0 })
  unfolding read read_on_page response_of after_read of_byte
  read_status_reports s = (rw status_word_digits refl, rw status_byte_digits refl, refl, refl)
