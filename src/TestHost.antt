-- ===== src/TestHost.antt =====
-- tools/PMBusTestHost/PMBusTestHost.ino: a bridge from lines on a serial port to transactions on an
-- I2C bus, for tests of PMBus targets. The bus controller of the Arduino core is the parameter
-- `Wire`, with a state of its own; what is printed on the serial port is a list of bytes.
pub mod Text
pub mod Request
pub mod Transaction
pub mod Line
pub mod Words
pub mod RoundTrip
pub mod Requests
pub mod Answers
pub mod Replies
pub mod Answered
pub mod Received
pub mod Sound
pub mod OverLong
use psu_usb_to_pmbus.Base.{ℕ, List, Option, Bool, ◌++◌, ◌∷◌, [], none, some, ◌≡◌, ◌-◌, replicate}

abbrev pub line_capacity : ℕ
line_capacity = 160

abbrev pub i2c_capacity : ℕ
i2c_capacity = 32

-- A call with a result and the state after it.
pub record Called (A : Type 0) (W : Type 0) : Type 0 where
  pub result : A
  pub wire : W

-- `TwoWire`. A read takes one of the bytes that are available.
pub record Wire (W : Type 0) : Type 0 where
  pub begin_transmission : ℕ → W → W
  pub write : List ℕ → W → Called ℕ W
  pub end_transmission : Bool → W → Called ℕ W
  pub request_from : ℕ → ℕ → Bool → W → Called ℕ W
  pub available : W → ℕ
  pub read : W → Called (Option ℕ) W
  pub read_takes : (w : W) → available (read w).wire ≡ available w - 1

-- The globals of the sketch, the bus, what the array of a reply holds before it is used, and the
-- output so far.
pub record TestHost (W : Type 0) : Type 0 where
  pub wire : W
  pub line : List ℕ
  pub line_length : ℕ
  pub scratch : List ℕ
  pub output : List ℕ

module _ {W : Type 0} where
  abbrev pub on_wire : W → TestHost W → TestHost W
  on_wire w h = record h { wire = w }

  abbrev pub print : List ℕ → TestHost W → TestHost W
  print text h = record h { output = h.output ++ text }

  -- The globals at the start, once `setup` has started the port and the bus.
  abbrev pub started : W → List ℕ → TestHost W
  started w scratch = record {
    wire = w;
    line = replicate line_capacity 0;
    line_length = 0;
    scratch = scratch;
    output = [];
  }
