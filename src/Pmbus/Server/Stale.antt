-- ===== src/Pmbus/Server/Stale.antt =====
-- What `read` of src/pmbus/server.cpp makes of telemetry that is no longer refreshed.
use psu_usb_to_pmbus.Pmbus.Server.Nested.{read-plain}
use psu_usb_to_pmbus.Base.Int.{negsuc}
use psu_usb_to_pmbus.Pmbus.Server.Read.{read, is_stale}
use psu_usb_to_pmbus.Pmbus.Server.{rail_for_page, PmbusServer, put_word, ReadResult}
use psu_usb_to_pmbus.Telemetry.Snapshot.{TelemetrySnapshot, RailTelemetry, rail_default}
use psu_usb_to_pmbus.Float.{Float, Libm, of_ℕ}
use psu_usb_to_pmbus.Pmbus.Server.OnPage.{
  rail_value, response_of, after_read, vout_exponent, read_on_page,
}
use psu_usb_to_pmbus.Pmbus.Commands.{Command, of_byte, code}
use psu_usb_to_pmbus.Pmbus.Linear.{encode_linear11, encode_linear16}
use psu_usb_to_pmbus.Base.{
  Bool, [], arith, false, refl, true, ℕ, ◌+◌, ◌≡◌, ◌≢◌, if◌then◌else◌, leb, ◌&&◌, if_cases, ltb,
  get_or, ◌-◌,
}

-- The commands that report a live measurement.
abbrev pub is_live : Command → Bool
is_live Command.read_vin = true
is_live Command.read_iin = true
is_live Command.read_pin = true
is_live Command.read_vout = true
is_live Command.read_iout = true
is_live Command.read_pout = true
is_live Command.read_temperature1 = true
is_live Command.read_temperature2 = true
is_live Command.read_fan_speed1 = true
is_live _ = false

-- The commands that report that the telemetry is stale.
abbrev pub is_availability : Command → Bool
is_availability Command.status_byte = true
is_availability Command.status_word = true
is_availability Command.mfr_bridge_status = true
is_availability _ = false

-- The rail or the branch that a page stands for, as the documents number them; other pages have none.
abbrev pub paged : TelemetrySnapshot → ℕ → (RailTelemetry → Float) → Float
paged t p f =
    if ltb p 3
    then f (get_or t.rails p rail_default)
    else if ltb 15 p && ltb p 28
    then f (get_or t.branches (p - 16) rail_default)
    else of_ℕ 0

-- The word of each measurement, on a page.
abbrev pub measured : ⦃libm : Libm⦄ → TelemetrySnapshot → ℕ → Command → ℕ
measured t p Command.read_vin = encode_linear11 t.input_voltage
measured t p Command.read_iin = encode_linear11 t.input_current
measured t p Command.read_pin = encode_linear11 t.input_power
measured t p Command.read_vout = encode_linear16 (paged t p λ r. r.voltage) (negsuc 11)
measured t p Command.read_iout = encode_linear11 (paged t p λ r. r.current)
measured t p Command.read_pout = encode_linear11 (paged t p λ r. r.power)
measured t p Command.read_temperature1 = encode_linear11 t.temperature_1
measured t p Command.read_temperature2 = encode_linear11 t.temperature_2
measured t p Command.read_fan_speed1 = encode_linear11 t.fan_rpm
measured t p _ = 0

rail_value-paged :
    (t : TelemetrySnapshot) (p : ℕ) (f : RailTelemetry → Float)
    → rail_value (rail_for_page t p) f ≡ paged t p f
unfolding rail_for_page
rail_value-paged t p f = ground arith

response_of-measured :
    ⦃libm : Libm⦄ (t : TelemetrySnapshot) (s : PmbusServer) (p : ℕ) (k : Command)
    → is_live k ≡ true
    → response_of t false s p k ≡ put_word (measured t p k)
unfolding response_of
response_of-measured t s p k h = ground (
  arith,
  rail_value-paged t p (λ r. r.voltage),
  rail_value-paged t p (λ r. r.current),
  rail_value-paged t p (λ r. r.power),
)

encode_linear11-zero : ⦃libm : Libm⦄ → encode_linear11 (of_ℕ 0) ≡ 0
unfolding encode_linear11
encode_linear11-zero = refl

encode_linear16-zero : ⦃libm : Libm⦄ → encode_linear16 (of_ℕ 0) vout_exponent ≡ 0
unfolding encode_linear16
encode_linear16-zero = refl

live-not_process :
    (k : Command)
    → is_live k ≡ true
    → (code k ≢ code Command.query)
      × (code k ≢ code Command.page_plus_read)
      × (of_byte (code k) ≡ k)
      × ((s : PmbusServer) → after_read k s ≡ s)
unfolding of_byte after_read
live-not_process k h = ground arith

response_of-live :
    ⦃libm : Libm⦄ (t : TelemetrySnapshot) (s : PmbusServer) (p : ℕ) (k : Command)
    → is_live k ≡ true
    → response_of t true s p k ≡ put_word 0
unfolding response_of
response_of-live ⦃libm⦄ t s p k h =
    ground (arith, encode_linear11-zero ⦃libm = libm⦄, encode_linear16-zero ⦃libm = libm⦄)

response_of-retained :
    ⦃libm : Libm⦄ (t : TelemetrySnapshot) (s : PmbusServer) (p : ℕ) (k : Command)
    → is_live k ≡ false
    → is_availability k ≡ false
    → response_of t true s p k ≡ response_of t false s p k
unfolding response_of
response_of-retained t s p k h a = ground arith

module _ ⦃libm : Libm⦄ (t : TelemetrySnapshot) (now_ms : ℕ) (s : PmbusServer) where
  read_stale :
      (k : Command)
      → is_live k ≡ true
      → is_stale t now_ms ≡ true
      → read t now_ms s (code k) [] ≡ record { server = s; response = put_word 0 }
  unfolding read_on_page
  read_stale k h stale =
      let plain = live-not_process k h in
      rw
        (
          read-plain t now_ms s (code k) plain.0 plain.1,
          plain.2,
          plain.3 s,
          stale,
          response_of-live t s s.page k h,
        )
        refl

  read_fresh :
      (k : Command)
      → is_live k ≡ true
      → is_stale t now_ms ≡ false
      → read t now_ms s (code k) []
        ≡ record { server = s; response = put_word (measured t s.page k) }
  unfolding read_on_page
  read_fresh k h fresh =
      let plain = live-not_process k h in
      rw
        (
          read-plain t now_ms s (code k) plain.0 plain.1,
          plain.2,
          plain.3 s,
          fresh,
          response_of-measured t s s.page k h,
        )
        refl

  -- A command that reports a live measurement leaves the target as it was. While the last complete
  -- measurement is at most ten seconds old, it answers with the word of that quantity in the snapshot:
  -- of the input, a temperature or the fan on every page, and of the rail or the branch of the selected
  -- page for the output. It answers with a zero word once the measurement is older or dated later than
  -- now.
  pub read_live :
      (k : Command)
      → is_live k ≡ true
      → read t now_ms s (code k) [] ≡ record {
        server = s;
        response =
            if leb t.core_updated_ms now_ms && leb now_ms (t.core_updated_ms + 10000)
            then put_word (measured t s.page k)
            else put_word 0;
      }
  read_live k h =
      if_cases
        (λ (r : ReadResult). read t now_ms s (code k) [] ≡ record { server = s; response = r })
        (leb t.core_updated_ms now_ms && leb now_ms (t.core_updated_ms + 10000))
        (λ e. read_fresh k h (ground arith)) (λ e. read_stale k h (ground arith))

  -- A command that is neither live nor reports availability answers alike whether stale or fresh.
  on_page_retained :
      (p c : ℕ) (a b : Bool)
      → is_live (of_byte c) ≡ false
      → is_availability (of_byte c) ≡ false
      → read_on_page s p c t a ≡ read_on_page s p c t b
  unfolding read_on_page
  on_page_retained p c true true h k = refl
  on_page_retained p c true false h k = rw (response_of-retained t s p (of_byte c) h k) refl
  on_page_retained p c false true h k = rw (response_of-retained t s p (of_byte c) h k) refl
  on_page_retained p c false false h k = refl
