-- ===== src/Pmbus/Server/Invariant.antt =====
-- The well-formed states of the PMBus target of src/pmbus/server.cpp.
use psu_usb_to_pmbus.Base.{
  ℕ, ◌+◌, not, ◌||◌, ◌&&◌, ◌==◌, if◌then◌else◌, ◌≡◌, refl, if_cases, ◌⊎◌, inl, Bool, true, ◌==◌,
  get_or, bit_or, List, ◌∷◌, length, length-set, arith,
}
use psu_usb_to_pmbus.Float.{Libm}
use psu_usb_to_pmbus.Telemetry.Snapshot.{TelemetrySnapshot}
use psu_usb_to_pmbus.Pmbus.Commands.{Command, code, of_byte, is_valid_page}
use psu_usb_to_pmbus.Pmbus.Server.{
  PmbusServer, power_on, latch, cml_invalid_data, cml_packet_error, note_bad_pec,
  smalert_mask_index,
}
use psu_usb_to_pmbus.Pmbus.Server.OnPage.{Reply, after_read, read_on_page}
use psu_usb_to_pmbus.Pmbus.Server.Read.{
  is_stale, is_empty, read, read_mask, read_query, read_coefficients, read_page_plus, nested_reply,
}
use psu_usb_to_pmbus.Pmbus.Server.Write.{
  Outcome, write, write_local, write_page, write_mask, is_page_plus,
}

-- Only the two documented bits of STATUS_CML are ever pending.
abbrev pub IsCml : ℕ → Type 0
IsCml n = (n ≡ 0) ⊎ (n ≡ 0x20) ⊎ (n ≡ 0x40) ⊎ (n ≡ 0x60)

pub record IsValid (s : PmbusServer) : Type 0 where
  pub on_page : is_valid_page s.page ≡ true
  pub cml : IsCml s.pending_cml
  pub masks : length s.smalert_masks ≡ 6

abbrev Keeps : Reply → Type 0
Keeps r = IsValid r.server

abbrev KeepsWrite : Outcome → Type 0
KeepsWrite r = IsValid r.server

latch_invalid-IsCml : (n : ℕ) → IsCml n → IsCml (bit_or n cml_invalid_data)
latch_invalid-IsCml n h = ground arith

latch_packet-IsCml : (n : ℕ) → IsCml n → IsCml (bit_or n cml_packet_error)
latch_packet-IsCml n h = ground arith

after_read-IsValid : (c : Command) {s : PmbusServer} → IsValid s → IsValid (after_read c s)
unfolding after_read
after_read-IsValid c v = ground arith

latch_invalid-IsValid : {s : PmbusServer} → IsValid s → IsValid (latch cml_invalid_data s)
latch_invalid-IsValid {s} v = record {
  on_page = v.on_page;
  cml = latch_invalid-IsCml s.pending_cml v.cml;
  masks = v.masks;
}

-- An ordinary read changes nothing but the pending fault.
pub after_read_keeps :
    (c : Command) (s : PmbusServer)
    → ((after_read c s).address ≡ s.address)
      × ((after_read c s).page ≡ s.page)
      × ((after_read c s).smalert_masks ≡ s.smalert_masks)
unfolding after_read
after_read_keeps c s = ground arith

-- QUERY puts the pending fault back after its probe, and nothing else had changed.
pub restore_lem :
    (c : Command) (s : PmbusServer) → record (after_read c s) { pending_cml = s.pending_cml } ≡ s
unfolding after_read
restore_lem c s = ground arith

module _ ⦃libm : Libm⦄ (t : TelemetrySnapshot) (now_ms : ℕ) {s : PmbusServer} (v : IsValid s) where
  read_mask-IsValid : (request : List ℕ) → IsValid (read_mask s request).server
  unfolding read_mask
  read_mask-IsValid request = ground (arith, latch_invalid-IsValid v)

  read_coefficients-IsValid : (request : List ℕ) → IsValid (read_coefficients s request).server
  unfolding read_coefficients
  read_coefficients-IsValid request = ground (arith, latch_invalid-IsValid v)

  on_page-IsValid : (p c : ℕ) (stale : Bool) → IsValid (read_on_page s p c t stale).server
  unfolding read_on_page
  on_page-IsValid p c stale = after_read-IsValid (of_byte c) v

  read_page_plus-IsValid : (request : List ℕ) → IsValid (read_page_plus t now_ms s request).server
  unfolding read_page_plus nested_reply read_on_page
  read_page_plus-IsValid request =
      ground (arith, latch_invalid-IsValid v, after_read-IsValid (of_byte (get_or request 2 0)) v)

  read_query-IsValid : (request : List ℕ) → IsValid (read_query t now_ms s request).server
  unfolding read_query read_on_page
  read_query-IsValid request =
      let counted = length request == 2 && get_or request 0 0 == 1 in
      let queried = if counted then get_or request 1 0 else get_or request 0 0 in
      ground (arith, latch_invalid-IsValid v, restore_lem (of_byte queried) s)

  -- A read of any command with any request keeps the target well formed.
  pub read-IsValid :
      (command : ℕ) (request : List ℕ) → IsValid (read t now_ms s command request).server
  unfolding read
  read-IsValid command request =
      if_cases Keeps (command == code Command.smalert_mask && not (is_empty request))
        (λ _. read_mask-IsValid request)
        λ _.
          if_cases Keeps (command == code Command.query) (λ _. read_query-IsValid request)
            λ _.
              if_cases Keeps (command == code Command.coefficients && not (is_empty request))
                (λ _. read_coefficients-IsValid request)
                λ _.
                  if_cases Keeps (command == code Command.page_plus_read)
                    (λ _. read_page_plus-IsValid request)
                    λ _. on_page-IsValid s.page command (is_stale t now_ms)

write_page-IsValid :
    (payload : List ℕ) {s : PmbusServer} → IsValid s → IsValid (write_page s payload).server
unfolding write_page
write_page-IsValid payload v = ground (arith, latch_invalid-IsValid v)

write_mask-IsValid :
    (payload : List ℕ) {s : PmbusServer} → IsValid s → IsValid (write_mask s payload).server
unfolding write_mask
write_mask-IsValid payload {s} v = ground (
  arith,
  latch_invalid-IsValid v,
  length-set s.smalert_masks (smalert_mask_index (get_or payload 0 0)) (get_or payload 1 0),
)

write_local-IsValid :
    (b : ℕ) (c : Command) (payload : List ℕ) {s : PmbusServer}
    → IsValid s
    → IsValid (write_local s b c payload).server
unfolding write_local
write_local-IsValid b c payload v =
    ground
      (arith, latch_invalid-IsValid v, write_page-IsValid payload v, write_mask-IsValid payload v)

-- A write of any command with any payload keeps the target well formed, whatever its result.
pub write-IsValid :
    (command : ℕ) (payload : List ℕ) {s : PmbusServer}
    → IsValid s
    → IsValid (write s command payload).server
unfolding write
write-IsValid command (count ∷ p ∷ nested ∷ rest) v =
    if_cases KeepsWrite (is_page_plus command)
      (λ _.
        if_cases KeepsWrite (not (count == length rest + 2) || not (is_valid_page p))
          (λ _. latch_invalid-IsValid v) (λ _. write-IsValid nested rest v))
      (λ _. write_local-IsValid command (of_byte command) _ v)
write-IsValid command payload v =
    if_cases KeepsWrite (is_page_plus command) (λ _. latch_invalid-IsValid v)
      (λ _. write_local-IsValid command (of_byte command) payload v)

pub note_bad_pec-IsValid : {s : PmbusServer} → IsValid s → IsValid (note_bad_pec s)
unfolding note_bad_pec
note_bad_pec-IsValid {s} v = record {
  on_page = v.on_page;
  cml = latch_packet-IsCml s.pending_cml v.cml;
  masks = v.masks;
}

pub power_on-IsValid : (address : ℕ) → IsValid (power_on address)
unfolding is_valid_page
power_on-IsValid address = record { on_page = refl; cml = inl refl; masks = refl }
