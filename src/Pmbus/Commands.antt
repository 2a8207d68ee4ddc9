-- ===== src/Pmbus/Commands.antt =====
-- include/psu_usb_to_pmbus/pmbus/commands.hpp: the command codes and the pages.
use psu_usb_to_pmbus.Base.{
  ℕ, ◌≡◌, refl, Bool, ◌&&◌, ◌||◌, leb, ◌==◌, if◌then◌else◌, List, [], ◌∷◌, arith,
}

-- `other b` is the cast of a byte that has no enumerator.
pub data Command : Type 0 where
  page : Command
  clear_faults : Command
  page_plus_write : Command
  page_plus_read : Command
  capability : Command
  query : Command
  smalert_mask : Command
  vout_mode : Command
  coefficients : Command
  fan_config12 : Command
  fan_command1 : Command
  status_byte : Command
  status_word : Command
  status_iout : Command
  status_input : Command
  status_temperature : Command
  status_cml : Command
  status_fans12 : Command
  read_ein : Command
  read_vin : Command
  read_iin : Command
  read_vout : Command
  read_iout : Command
  read_temperature1 : Command
  read_temperature2 : Command
  read_fan_speed1 : Command
  read_pout : Command
  read_pin : Command
  pmbus_revision : Command
  mfr_id : Command
  mfr_model : Command
  mfr_revision : Command
  mfr_serial : Command
  app_profile_support : Command
  mfr_iout_max : Command
  mfr_pout_max : Command
  mfr_bridge_status : Command
  mfr_uptime : Command
  mfr_branch_ocp : Command
  mfr_max_temp1 : Command
  mfr_max_temp2 : Command
  other : ℕ → Command

-- The underlying byte of an enumerator.
abbrev pub code : Command → ℕ
code page = 0x00
code clear_faults = 0x03
code page_plus_write = 0x05
code page_plus_read = 0x06
code capability = 0x19
code query = 0x1A
code smalert_mask = 0x1B
code vout_mode = 0x20
code coefficients = 0x30
code fan_config12 = 0x3A
code fan_command1 = 0x3B
code status_byte = 0x78
code status_word = 0x79
code status_iout = 0x7B
code status_input = 0x7C
code status_temperature = 0x7D
code status_cml = 0x7E
code status_fans12 = 0x81
code read_ein = 0x86
code read_vin = 0x88
code read_iin = 0x89
code read_vout = 0x8B
code read_iout = 0x8C
code read_temperature1 = 0x8D
code read_temperature2 = 0x8E
code read_fan_speed1 = 0x90
code read_pout = 0x96
code read_pin = 0x97
code pmbus_revision = 0x98
code mfr_id = 0x99
code mfr_model = 0x9A
code mfr_revision = 0x9B
code mfr_serial = 0x9E
code app_profile_support = 0x9F
code mfr_iout_max = 0xA6
code mfr_pout_max = 0xA7
code mfr_bridge_status = 0xD0
code mfr_uptime = 0xD2
code mfr_branch_ocp = 0xEA
code mfr_max_temp1 = 0xC0
code mfr_max_temp2 = 0xC1
code (other b) = b

abbrev enumerators : List Command
enumerators =
    page ∷ clear_faults ∷ page_plus_write ∷ page_plus_read ∷ capability ∷ query ∷ smalert_mask
    ∷ vout_mode ∷ coefficients ∷ fan_config12 ∷ fan_command1 ∷ status_byte ∷ status_word
    ∷ status_iout ∷ status_input ∷ status_temperature ∷ status_cml ∷ status_fans12 ∷ read_ein
    ∷ read_vin ∷ read_iin ∷ read_vout ∷ read_iout ∷ read_temperature1 ∷ read_temperature2
    ∷ read_fan_speed1 ∷ read_pout ∷ read_pin ∷ pmbus_revision ∷ mfr_id ∷ mfr_model ∷ mfr_revision
    ∷ mfr_serial ∷ app_profile_support ∷ mfr_iout_max ∷ mfr_pout_max ∷ mfr_bridge_status
    ∷ mfr_uptime ∷ mfr_branch_ocp ∷ mfr_max_temp1 ∷ mfr_max_temp2 ∷ []

find_code : List Command → ℕ → Command
find_code [] b = other b
find_code (c ∷ cs) b = if code c == b then c else find_code cs b

-- `static_cast<Command>(b)`.
unfoldable pub of_byte : ℕ → Command
unfolding find_code
of_byte b = find_code enumerators b

find_code_lem : (cs : List Command) (b : ℕ) → code (find_code cs b) ≡ b
unfolding find_code
find_code_lem [] b = refl
find_code_lem (c ∷ cs) b = ground (arith, find_code_lem cs b)

-- The cast keeps the byte.
pub code-of_byte : (b : ℕ) → code (of_byte b) ≡ b
unfolding of_byte
code-of_byte b = find_code_lem enumerators b

unfoldable pub is_valid_page : ℕ → Bool
is_valid_page p = leb p 0x02 || (leb 0x10 p && leb p 0x1b)
