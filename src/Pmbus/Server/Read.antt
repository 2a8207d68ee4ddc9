-- ===== src/Pmbus/Server/Read.antt =====
-- `PmbusServer::read` of src/pmbus/server.cpp: process calls, QUERY, and nested page reads.
use psu_usb_to_pmbus.Base.{
  ℕ, zero, suc, ◌+◌, ◌-◌, ◌%◌, ◌^◌, Bool, true, false, not, ◌&&◌, ◌||◌, ltb, leb, ◌==◌,
  if◌then◌else◌, bit_or, List, [], ◌∷◌, set, get_or, length,
}
use psu_usb_to_pmbus.Float.{Libm}
use psu_usb_to_pmbus.Telemetry.Snapshot.{TelemetrySnapshot}
use psu_usb_to_pmbus.Pmbus.Commands.{Command, code, is_valid_page}
use psu_usb_to_pmbus.Pmbus.Server.{
  PmbusServer, ReadResult, put_at, no_response, response_capacity, latch, cml_invalid_data,
  smalert_mask_index, query_data_format, query_is_special_read, query_is_locally_writable,
}
use psu_usb_to_pmbus.Pmbus.Server.OnPage.{Reply, read_on_page, put_coefficients}

abbrev pub usb_telemetry_grace_ms : ℕ
usb_telemetry_grace_ms = 10000

abbrev pub is_stale : TelemetrySnapshot → ℕ → Bool
is_stale t now_ms =
    ltb now_ms t.core_updated_ms || ltb usb_telemetry_grace_ms (now_ms - t.core_updated_ms)

abbrev pub is_empty : List ℕ → Bool
is_empty [] = true
is_empty (x ∷ xs) = false

-- A malformed request latches the fault and gets no answer.
abbrev pub refuse : PmbusServer → Reply
refuse s = record { server = latch cml_invalid_data s; response = no_response }

-- A block of one byte: its count and the byte.
abbrev pub counted_byte : ℕ → ReadResult
counted_byte v = record { bytes = set (set no_response.bytes 0 1) 1 v; size = 2; supported = true }

abbrev pub plain_byte : ℕ → ReadResult
plain_byte v = record { bytes = set no_response.bytes 0 v; size = 1; supported = true }

-- SMBALERT_MASK as a process call: the request is [1, STATUS_x].
unfoldable pub read_mask : PmbusServer → List ℕ → Reply
read_mask s request =
    if not (length request == 2) || not (get_or request 0 0 == 1)
    then refuse s
    else (let index = smalert_mask_index (get_or request 1 0) in
        if leb (length s.smalert_masks) index
        then refuse s
        else record { server = s; response = counted_byte (get_or s.smalert_masks index 0) })

-- The byte that QUERY answers with, from what an ordinary read of the command would do.
unfoldable pub query_byte : ℕ → Bool → ℕ
query_byte queried probe_supported =
    let readable = probe_supported || query_is_special_read queried in
    let writable = query_is_locally_writable queried in
    if readable || writable
    then bit_or (bit_or (bit_or 0x80 (if writable then 0x40 else 0)) (if readable then 0x20 else 0))
        (query_data_format queried)
      % 2 ^ 8
    else 0

-- Each byte moves one place up, from place `i` down, and place 0 stays.
unfoldable pub shift_up : ℕ → List ℕ → List ℕ
shift_up zero bytes = bytes
shift_up (suc i) bytes = shift_up i (put_at bytes (suc i) (get_or bytes i 0))

-- A nested reply behind its count.
unfoldable pub nest : ReadResult → ReadResult
nest r = record {
  bytes = set (shift_up r.size r.bytes) 0 (r.size % 2 ^ 8);
  size = r.size + 1;
  supported = r.supported;
}

-- An unsupported nested command, and a reply that would not fit, get no answer.
unfoldable pub nested_reply : Reply → Reply
nested_reply n =
    if not n.response.supported || leb response_capacity n.response.size
    then record { server = n.server; response = no_response }
    else record { server = n.server; response = nest n.response }

unfoldable pub read_coefficients : PmbusServer → List ℕ → Reply
unfolding put_coefficients
read_coefficients s request =
    let counted = length request == 3 && get_or request 0 0 == 2 in
    let legacy = length request == 2 in
    let offset : ℕ = if counted then 1 else 0 in
    if (not counted && not legacy)
      || not (get_or request offset 0 == code Command.read_ein)
      || not (get_or request (offset + 1) 0 == 1)
    then refuse s
    else record {
      server = s;
      response =
          if counted
          then record { bytes = set (set no_response.bytes 0 5) 1 1; size = 6; supported = true }
          else put_coefficients;
    }

module _ ⦃libm : Libm⦄ (t : TelemetrySnapshot) (now_ms : ℕ) (s : PmbusServer) where
  unfoldable pub read_query : List ℕ → Reply
  read_query request =
      let counted = length request == 2 && get_or request 0 0 == 1 in
      if not counted && not (length request == 1)
      then refuse s
      else (let queried = if counted then get_or request 1 0 else get_or request 0 0 in
          let saved_cml = s.pending_cml in
          let probe = read_on_page s s.page queried t (is_stale t now_ms) in
          let query = query_byte queried probe.response.supported in
          record {
            server = record (probe.server) { pending_cml = saved_cml };
            response = if counted then counted_byte query else plain_byte query;
          })

  -- PAGE_PLUS_READ: the request is [2, page, command].
  unfoldable pub read_page_plus : List ℕ → Reply
  read_page_plus request =
      if not (length request == 3)
        || not (get_or request 0 0 == 2)
        || not (is_valid_page (get_or request 1 0))
      then refuse s
      else nested_reply
          (read_on_page s (get_or request 1 0) (get_or request 2 0) t (is_stale t now_ms))

  unfoldable pub read : ℕ → List ℕ → Reply
  read command request =
      if command == code Command.smalert_mask && not (is_empty request)
      then read_mask s request
      else if command == code Command.query
      then read_query request
      else if command == code Command.coefficients && not (is_empty request)
      then read_coefficients s request
      else if command == code Command.page_plus_read
      then read_page_plus request
      else read_on_page s s.page command t (is_stale t now_ms)
