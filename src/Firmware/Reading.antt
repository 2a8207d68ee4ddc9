-- ===== src/Firmware/Reading.antt =====
-- A measurement on its way through the parts that src/main.cpp joins: from the reply of the supply in
-- src/psu/corsair_ax1600i/backend.cpp to the answer on the bus in src/pmbus/server.cpp.
use psu_usb_to_pmbus.Pmbus.Linear.Words.{decode-encode_linear11}
use psu_usb_to_pmbus.Pmbus.Server.Read.{read}
use psu_usb_to_pmbus.Telemetry.Snapshot.{TelemetrySnapshot}
use psu_usb_to_pmbus.Base.{
  arith, false, leb, ltb, refl, true, ℕ, ◌∷◌, ◌≡◌, ◌≤◌, ◌+◌, [], ◌<◌, ◌^◌, sym, ap, ◌∙◌, ◌&&◌,
}
use psu_usb_to_pmbus.Ax1600i.Backend.{Backend, Destination, publish}
use psu_usb_to_pmbus.Ax1600i.Backend.Read.{
  complete_read, store_value, show_read, reply_word, is_probe, is_model, Completed,
}
use psu_usb_to_pmbus.Pmbus.Commands.{Command, code}
use psu_usb_to_pmbus.Pmbus.Linear.{decode_linear11, encode_linear11}
use psu_usb_to_pmbus.Pmbus.Server.{PmbusServer, put_word}
use psu_usb_to_pmbus.Pmbus.Server.Stale.{measured, is_live, read_live}
use psu_usb_to_pmbus.Telemetry.Power.{accumulate_input_power_sample}
use psu_usb_to_pmbus.Float.{Float, Libm}

-- The command that reports the value of a register.
pub data Measures : Destination → Command → Type 0 where
  input_voltage : Measures Destination.vin Command.read_vin
  input_current : Measures Destination.iin Command.read_iin
  input_power : Measures Destination.pin Command.read_pin
  first_temperature : Measures Destination.temperature_1 Command.read_temperature1
  second_temperature : Measures Destination.temperature_2 Command.read_temperature2
  fan_speed : Measures Destination.fan Command.read_fan_speed1

Measures-is_live : {d : Destination} {k : Command} → Measures d k → is_live k ≡ true
Measures-is_live input_voltage = refl
Measures-is_live input_current = refl
Measures-is_live input_power = refl
Measures-is_live first_temperature = refl
Measures-is_live second_temperature = refl
Measures-is_live fan_speed = refl

Measures-kind :
    {d : Destination} {k : Command} → Measures d k → (is_probe d ≡ false) × (is_model d ≡ false)
Measures-kind input_voltage = (refl, refl)
Measures-kind input_current = (refl, refl)
Measures-kind input_power = (refl, refl)
Measures-kind first_temperature = (refl, refl)
Measures-kind second_temperature = (refl, refl)
Measures-kind fan_speed = (refl, refl)

module _ {T : Type 0} where
  shown_value :
      ⦃libm : Libm⦄ {d : Destination} {k : Command} (m : Measures d k) (raw : ℕ) (v : Float)
      (now_ms : ℕ) (b : Backend T) (p : ℕ)
      → measured (show_read now_ms (store_value d raw v b)).working p k ≡ encode_linear11 v
  unfolding show_read store_value publish accumulate_input_power_sample
  shown_value input_voltage raw v now_ms b p = refl
  shown_value input_current raw v now_ms b p = refl
  shown_value input_power raw v now_ms b p = ground arith
  shown_value first_temperature raw v now_ms b p = refl
  shown_value second_temperature raw v now_ms b p = refl
  shown_value fan_speed raw v now_ms b p = refl

  store_value-published :
      {d : Destination} {k : Command} (m : Measures d k) (raw : ℕ) (v : Float) (b : Backend T)
      → (store_value d raw v b).published ≡ b.published
  unfolding store_value accumulate_input_power_sample
  store_value-published input_voltage raw v b = refl
  store_value-published input_current raw v b = refl
  store_value-published input_power raw v b = refl
  store_value-published first_temperature raw v b = refl
  store_value-published second_temperature raw v b = refl
  store_value-published fan_speed raw v b = refl

  complete_read_value :
      {d : Destination} {k : Command} (now_ms : ℕ) (b : Backend T)
      → Measures d k
      → b.destination ≡ d
      → 2 ≤ b.register_length
      → b.register_length ≤ b.exchange.response_size
      → complete_read now_ms b ≡ record {
        done = true;
        backend =
            show_read now_ms (store_value d (reply_word b) (decode_linear11 (reply_word b)) b);
      }
  unfolding complete_read
  complete_read_value {d} now_ms b m same long_enough whole =
      let (probe, model) = Measures-kind m in
      let size : ltb b.exchange.response_size b.register_length ≡ false = ground (arith, whole) in
      let word : leb 2 b.register_length ≡ true = ground (arith, long_enough) in
      rw (complete_read, same, probe, model, size, word) refl

  show_read-published :
      (now_ms : ℕ) (b : Backend T)
      → (show_read now_ms b).published ≡ (show_read now_ms b).working ∷ b.published
  unfolding show_read publish
  show_read-published now_ms b = refl

  show_read-core :
      (now_ms : ℕ) (b : Backend T)
      → (show_read now_ms b).working.core_valid ≡ true
      → (show_read now_ms b).working.core_updated_ms ≡ now_ms
  unfolding show_read publish
  show_read-core now_ms b core = rw core refl

  -- When the reply of the supply to the read of a measurement is complete, with at least a word, and
  -- the core values are valid with it, a snapshot is published. For ten seconds from then, the target
  -- answers the command for that measurement from this snapshot, on every page, with a word that
  -- stands for exactly the number that the supply's word stands for.
  pub reading-decode_linear11 :
      ⦃libm : Libm⦄ (d : Destination) (k : Command) (now_ms later_ms : ℕ) (b : Backend T)
      (s : PmbusServer)
      → Measures d k
      → b.destination ≡ d
      → 2 ≤ b.register_length
      → b.register_length ≤ b.exchange.response_size
      → (complete_read now_ms b).backend.working.core_valid ≡ true
      → now_ms ≤ later_ms
      → later_ms ≤ now_ms + 10000
      → (t : TelemetrySnapshot) × (word : ℕ) × ((complete_read now_ms b).backend.published
          ≡ t ∷ b.published)
        × (read t later_ms s (code k) [] ≡ record { server = s; response = put_word word })
        × (word < 2 ^ 16)
        × (decode_linear11 word ≡ decode_linear11 (reply_word b))
  reading-decode_linear11 d k now_ms later_ms b s m same long_enough whole core after soon =
      let value = decode_linear11 (reply_word b) in
      let c = show_read now_ms (store_value d (reply_word b) value b) in
      let completed = complete_read_value now_ms b m same long_enough whole in
      let (fits, stands) = decode-encode_linear11 (reply_word b) (omega arith) in
      let date : c.working.core_updated_ms ≡ now_ms =
        show_read-core now_ms (store_value d (reply_word b) value b)
          (sym (ap (λ (r : Completed T). r.backend.working.core_valid) completed) ∙ core) in
      let fresh : (leb c.working.core_updated_ms later_ms
            && leb later_ms (c.working.core_updated_ms + 10000))
          ≡ true =
        ground (arith, date, after, soon) in
      (
        c.working,
        encode_linear11 value,
        ap (λ (r : Completed T). r.backend.published) completed
            ∙ show_read-published now_ms (store_value d (reply_word b) value b)
            ∙ ap (◌∷◌ c.working) (store_value-published m (reply_word b) value b),
        read_live c.working later_ms s k (Measures-is_live m)
            ∙ rw (fresh, shown_value m (reply_word b) value now_ms b s.page) refl,
        fits,
        stands,
      )
