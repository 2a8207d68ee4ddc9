-- ===== src/TestHost/Transaction.antt =====
-- `transaction` of tools/PMBusTestHost/PMBusTestHost.ino: a write, a read, or a write and a read.
use psu_usb_to_pmbus.Base.{
  codes, ◌∷◌, some, none, zero, suc, true, false, List, ℕ, Bool, if◌then◌else◌, ◌+◌, Option, ◌||◌,
  ◌==◌, ◌++◌, leb, ◌^◌, length, ltb, take, ◌&&◌, ◌-◌, set, not, ◌%◌,
}
use psu_usb_to_pmbus.TestHost.{TestHost, Wire, Called, print, on_wire, i2c_capacity}
use psu_usb_to_pmbus.TestHost.Text.{same_text, decimal}
use psu_usb_to_pmbus.TestHost.Request.{
  error_text, parse_unsigned, parse_hex, wire_error, hex_text, new_line,
}

pub record Written (W : Type 0) : Type 0 where
  pub failed : Bool
  pub host : TestHost W

-- The address and the length of the read, where these and the mode are in range.
pub record Range : Type 0 where
  pub address : ℕ
  pub read_length : ℕ

abbrev pub is_mode : List ℕ → Bool
is_mode mode = same_text mode (codes "RS") || same_text mode (codes "STOP")

abbrev pub in_range : List ℕ → ℕ → ℕ → Option Range
in_range mode address read_length =
    if leb address 0x7f && leb read_length i2c_capacity && is_mode mode
    then some (record { address = address; read_length = read_length })
    else none

unfoldable pub range_of : List ℕ → List ℕ → List ℕ → Option Range
range_of address mode read_length = elim (parse_unsigned address) [
  | none ↦ none
  | some a ↦ elim (parse_unsigned read_length) [ none ↦ none | some n ↦ in_range mode a n ]
]

abbrev pub ok_text : List ℕ → List ℕ → List ℕ
ok_text sequence text = codes "OK " ++ (sequence ++ (b' ' ∷ (text ++ new_line)))

abbrev pub keep_byte : ℕ → Option ℕ → List ℕ → List ℕ
keep_byte stored none bytes = bytes
keep_byte stored (some value) bytes =
    if ltb stored i2c_capacity then set bytes stored (value % 2 ^ 8) else bytes

module _ {W : Type 0} ⦃bus : Wire W⦄ where
  abbrev pub fail : List ℕ → List ℕ → List ℕ → TestHost W → TestHost W
  fail sequence error_code detail h = print (error_text (some sequence) error_code detail) h

  unfoldable pub write_phase : List ℕ → ℕ → Bool → ℕ → List ℕ → TestHost W → Written W
  write_phase sequence address stops read_length bytes h =
      let buffered = bus.write bytes (bus.begin_transmission address h.wire) in
      let ended = bus.end_transmission (read_length == 0 || stops) buffered.wire in
      if length bytes == 0
      then record { failed = false; host = h }
      else if not (buffered.result == length bytes)
      then record {
        failed = true;
        host = fail sequence (codes "I2C") (codes "tx_buffer") (on_wire buffered.wire h);
      }
      else if not (ended.result == 0)
      then record {
        failed = true;
        host =
            fail sequence (wire_error ended.result) (codes "endTransmission")
              (on_wire ended.wire h);
      }
      else record { failed = false; host = on_wire ended.wire h }

  -- The loop over what is available, with as many rounds. The place of a byte is a difference in
  -- `size_t`.
  unfoldable pub collect : ℕ → ℕ → W → List ℕ → Called (List ℕ) W
  collect zero read_length w bytes = record { result = bytes; wire = w }
  collect (suc rounds) read_length w bytes =
      let taken = bus.read w in
      let behind = bus.available taken.wire + 1 in
      let stored = (read_length + 2 ^ 32 - behind % 2 ^ 32) % 2 ^ 32 in
      let further = collect rounds read_length taken.wire (keep_byte stored taken.result bytes) in
      if bus.available w == 0 then record { result = bytes; wire = w } else further

  unfoldable pub read_phase : List ℕ → ℕ → ℕ → TestHost W → TestHost W
  read_phase sequence address read_length h =
      let requested = bus.request_from address read_length true h.wire in
      let rounds = if leb requested.result i2c_capacity then bus.available requested.wire else 0 in
      let collected = collect rounds read_length requested.wire h.scratch in
      let short = take 19 (decimal requested.result ++ (b'/' ∷ decimal read_length)) in
      let handed = on_wire collected.wire h in
      if read_length == 0
      then print (ok_text sequence (codes "-")) h
      else if not (requested.result == read_length)
      then fail sequence (codes "SHORT_READ") short handed
      else print (ok_text sequence (hex_text (take read_length collected.result))) handed

  unfoldable pub transact : List ℕ → ℕ → Bool → ℕ → List ℕ → TestHost W → TestHost W
  transact sequence address stops read_length bytes h =
      let written = write_phase sequence address stops read_length bytes h in
      if written.failed then written.host else read_phase sequence address read_length written.host

  unfoldable pub transaction : List ℕ → List ℕ → List ℕ → List ℕ → List ℕ → TestHost W → TestHost W
  transaction sequence address mode read_length write h = elim (range_of address mode read_length) [
    | none ↦ fail sequence (codes "RANGE") (codes "address/mode/length") h
    | some range ↦ elim (parse_hex write) [
      | none ↦ fail sequence (codes "PARSE") (codes "write_hex") h
      | some bytes ↦
          transact sequence range.address (same_text mode (codes "STOP")) range.read_length bytes h
    ]
  ]
