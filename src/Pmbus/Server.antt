-- ===== src/Pmbus/Server.antt =====
-- include/psu_usb_to_pmbus/pmbus/server.hpp and the helpers of src/pmbus/server.cpp: the state of
-- the PMBus target and the buffer of a reply.
pub mod OnPage
pub mod Read
pub mod Write
pub mod Invariant
pub mod Bounds
pub mod Nested
pub mod Query
pub mod Faults
pub mod Stale
pub mod Masks
pub mod History
pub mod Energy
use psu_usb_to_pmbus.Base.{
  ◌++◌, ◌<◌, ◌≡◌, refl, lt→ltb, ℕ, zero, suc, ◌+◌, ◌-◌, ◌/◌, ◌%◌, ◌^◌, Bool, true, false, ◌&&◌,
  ◌||◌, ltb, leb, ◌==◌, if◌then◌else◌, min, bit_or, List, [], ◌∷◌, set, get_or, replicate, length,
  Option, none, some,
}
use psu_usb_to_pmbus.Telemetry.Snapshot.{RailTelemetry, TelemetrySnapshot, rail_default}
use psu_usb_to_pmbus.Pmbus.Commands.{Command, of_byte, code}

pub data WriteResult : Type 0 where
  accepted invalid_data read_only unsupported : WriteResult

-- A reply: an array of 40 bytes, of which the first `size` are sent.
pub record ReadResult : Type 0 where
  pub bytes : List ℕ
  pub size : ℕ
  pub supported : Bool

abbrev pub response_capacity : ℕ
response_capacity = 40

abbrev pub no_response : ReadResult
no_response = record { bytes = replicate response_capacity 0; size = 0; supported = false }

-- The store that the target reads from is an argument of `read`.
pub record PmbusServer : Type 0 where
  pub address : ℕ
  pub page : ℕ
  pub pending_cml : ℕ
  pub smalert_masks : List ℕ

abbrev pub power_on : ℕ → PmbusServer
power_on address = record {
  address = address;
  page = 0;
  pending_cml = 0;
  smalert_masks = replicate 6 0xff;
}

abbrev pub status_off : ℕ
status_off = 0x40

abbrev pub status_cml : ℕ
status_cml = 0x02

abbrev pub cml_invalid_data : ℕ
cml_invalid_data = 0x40

abbrev pub cml_packet_error : ℕ
cml_packet_error = 0x20

-- `pending_cml_ |= bit`.
abbrev pub latch : ℕ → PmbusServer → PmbusServer
latch bit s = record s { pending_cml = bit_or s.pending_cml bit }

abbrev pub clear_cml : PmbusServer → PmbusServer
clear_cml s = record s { pending_cml = 0 }

unfoldable pub note_bad_pec : PmbusServer → PmbusServer
note_bad_pec s = latch cml_packet_error s

abbrev pub smalert_status_commands : List ℕ
smalert_status_commands = 0x78 ∷ 0x7b ∷ 0x7c ∷ 0x7d ∷ 0x7e ∷ 0x81 ∷ []

-- `std::find`, as an index; the length where there is none.
abbrev pub find_index : List ℕ → ℕ → ℕ
find_index [] a = 0
find_index (x ∷ xs) a = if x == a then 0 else suc (find_index xs a)

abbrev pub smalert_mask_index : ℕ → ℕ
smalert_mask_index status_command = find_index smalert_status_commands status_command

-- The bytes before the first zero.
abbrev pub text_length : List ℕ → ℕ
text_length [] = 0
text_length (c ∷ cs) = if c == 0 then 0 else suc (text_length cs)

unfoldable pub put_byte : ℕ → ReadResult
put_byte v = record no_response { bytes = set no_response.bytes 0 v; size = 1; supported = true }

unfoldable pub put_word : ℕ → ReadResult
put_word v =
    let low = set no_response.bytes 0 (v % 2 ^ 8) in
    record { bytes = set low 1 (v / 2 ^ 8 % 2 ^ 8); size = 2; supported = true }

-- `bytes[i] = v`, at an index that the code computes. What such a write does behind the end of the
-- array is undefined; here it leaves a longer list, so that the length tells of it.
unfoldable pub put_at : List ℕ → ℕ → ℕ → List ℕ
put_at bytes i v = if ltb i (length bytes) then set bytes i v else bytes ++ v ∷ []

pub put_at_lem : (bytes : List ℕ) (i v : ℕ) → i < length bytes → put_at bytes i v ≡ set bytes i v
unfolding put_at
put_at_lem bytes i v h = rw (lt→ltb i (length bytes) h) refl

-- The loop that copies `left` bytes, from `value[i]` to `bytes[i + 1]`.
unfoldable pub copy_block : ℕ → ℕ → List ℕ → List ℕ → List ℕ
copy_block zero i value bytes = bytes
copy_block (suc left) i value bytes =
    copy_block left (i + 1) value (put_at bytes (i + 1) (get_or value i 0 % 2 ^ 8))

unfoldable pub put_block : List ℕ → ReadResult
unfolding copy_block put_at
put_block value =
    let n = min (text_length value) 32 in
    record {
      bytes = copy_block n 0 value (set no_response.bytes 0 (n % 2 ^ 8));
      size = n + 1;
      supported = true;
    }

-- `nullptr` where the page has no rail.
unfoldable pub rail_for_page : TelemetrySnapshot → ℕ → Option RailTelemetry
rail_for_page snapshot page =
    if leb page 2
    then some (get_or snapshot.rails page rail_default)
    else if leb 0x10 page && leb page 0x1b
    then some (get_or snapshot.branches (page - 0x10) rail_default)
    else none

-- The format bits of a QUERY reply.
unfoldable pub data_format : Command → ℕ
data_format Command.read_ein = 0x0c
data_format Command.page = 0x10
data_format Command.read_vin = 0x00
data_format Command.read_iin = 0x00
data_format Command.read_vout = 0x00
data_format Command.read_iout = 0x00
data_format Command.read_temperature1 = 0x00
data_format Command.read_temperature2 = 0x00
data_format Command.read_fan_speed1 = 0x00
data_format Command.read_pout = 0x00
data_format Command.read_pin = 0x00
data_format Command.mfr_iout_max = 0x00
data_format Command.mfr_pout_max = 0x00
data_format Command.mfr_branch_ocp = 0x00
data_format Command.mfr_max_temp1 = 0x00
data_format Command.mfr_max_temp2 = 0x00
data_format _ = 0x1c

unfoldable pub query_data_format : ℕ → ℕ
query_data_format command = data_format (of_byte command)

unfoldable pub query_is_special_read : ℕ → Bool
query_is_special_read command =
    command == code Command.query || command == code Command.page_plus_read

unfoldable pub is_locally_writable : Command → Bool
is_locally_writable Command.page = true
is_locally_writable Command.clear_faults = true
is_locally_writable Command.page_plus_write = true
is_locally_writable Command.smalert_mask = true
is_locally_writable Command.status_byte = true
is_locally_writable Command.status_word = true
is_locally_writable Command.status_iout = true
is_locally_writable Command.status_input = true
is_locally_writable Command.status_temperature = true
is_locally_writable Command.status_cml = true
is_locally_writable Command.status_fans12 = true
is_locally_writable _ = false

unfoldable pub query_is_locally_writable : ℕ → Bool
query_is_locally_writable command = is_locally_writable (of_byte command)
