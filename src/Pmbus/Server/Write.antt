-- ===== src/Pmbus/Server/Write.antt =====
-- `PmbusServer::write` and `write_payload_is_well_formed` of src/pmbus/server.cpp.
use psu_usb_to_pmbus.Base.{
  ℕ, ◌+◌, ◌-◌, Bool, not, ◌&&◌, ◌||◌, leb, ◌==◌, if◌then◌else◌, List, ◌∷◌, set, get_or, length,
}
use psu_usb_to_pmbus.Pmbus.Commands.{Command, code, of_byte, is_valid_page}
use psu_usb_to_pmbus.Pmbus.Server.{
  PmbusServer, WriteResult, accepted, invalid_data, read_only, unsupported, latch, clear_cml,
  cml_invalid_data, smalert_mask_index,
}

-- The result together with the target after it.
pub record Outcome : Type 0 where
  pub server : PmbusServer
  pub result : WriteResult

abbrev pub reject : PmbusServer → Outcome
reject s = record { server = latch cml_invalid_data s; result = invalid_data }

abbrev pub accept : PmbusServer → Outcome
accept s = record { server = s; result = accepted }

abbrev pub is_local_range : ℕ → Bool
is_local_range command = leb 0xc4 command && leb command 0xfd

unfoldable pub write_page : PmbusServer → List ℕ → Outcome
write_page s payload =
    let value = get_or payload 0 0 in
    if not (length payload == 1) || (not (is_valid_page value) && not (value == 0xff))
    then reject s
    else if not (value == 0xff)
    then accept (record s { page = value })
    else accept s

unfoldable pub write_mask : PmbusServer → List ℕ → Outcome
write_mask s payload =
    if not (length payload == 2)
    then reject s
    else (let index = smalert_mask_index (get_or payload 0 0) in
        if leb (length s.smalert_masks) index
        then reject s
        else accept (record s { smalert_masks = set s.smalert_masks index (get_or payload 1 0) }))

-- A write that clears the pending fault if its payload has the given length.
abbrev pub write_clear : ℕ → PmbusServer → List ℕ → Outcome
write_clear n s payload = if not (length payload == n) then reject s else accept (clear_cml s)

-- Every case of the switch but PAGE_PLUS_WRITE.
unfoldable pub write_local : PmbusServer → ℕ → Command → List ℕ → Outcome
write_local s b Command.page payload = write_page s payload
write_local s b Command.clear_faults payload = write_clear 0 s payload
write_local s b Command.smalert_mask payload = write_mask s payload
write_local s b Command.status_byte payload = write_clear 1 s payload
write_local s b Command.status_iout payload = write_clear 1 s payload
write_local s b Command.status_input payload = write_clear 1 s payload
write_local s b Command.status_temperature payload = write_clear 1 s payload
write_local s b Command.status_cml payload = write_clear 1 s payload
write_local s b Command.status_fans12 payload = write_clear 1 s payload
write_local s b Command.status_word payload = write_clear 2 s payload
write_local s b Command.fan_command1 payload = record { server = s; result = read_only }
write_local s b _ payload =
    if is_local_range b then accept s else record { server = s; result = unsupported }

abbrev pub is_page_plus : ℕ → Bool
is_page_plus command = command == code Command.page_plus_write

-- The call in PAGE_PLUS_WRITE is on the payload without its first three bytes.
unfoldable pub write : PmbusServer → ℕ → List ℕ → Outcome
write s command (count ∷ page ∷ nested ∷ rest) =
    let inner = write s nested rest in
    if is_page_plus command
    then if not (count == length rest + 2) || not (is_valid_page page) then reject s else inner
    else write_local s command (of_byte command) (count ∷ page ∷ nested ∷ rest)
write s command payload =
    if is_page_plus command then reject s else write_local s command (of_byte command) payload

unfoldable pub well_formed : ℕ → Command → List ℕ → Bool
well_formed b Command.page payload = length payload == 1
well_formed b Command.page_plus_write payload =
    leb 3 (length payload) && get_or payload 0 0 == length payload - 1
well_formed b Command.clear_faults payload = length payload == 0
well_formed b Command.smalert_mask payload = length payload == 2
well_formed b Command.status_word payload = length payload == 2
well_formed b Command.fan_command1 payload = length payload == 2
well_formed b Command.status_byte payload = length payload == 1
well_formed b Command.status_iout payload = length payload == 1
well_formed b Command.status_input payload = length payload == 1
well_formed b Command.status_temperature payload = length payload == 1
well_formed b Command.status_cml payload = length payload == 1
well_formed b Command.status_fans12 payload = length payload == 1
well_formed b _ payload = is_local_range b

unfoldable pub write_payload_is_well_formed : ℕ → List ℕ → Bool
unfolding well_formed of_byte
write_payload_is_well_formed command payload = well_formed command (of_byte command) payload
