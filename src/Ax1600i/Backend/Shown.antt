-- ===== src/Ax1600i/Backend/Shown.antt =====
-- Whether what src/psu/corsair_ax1600i/backend.cpp has published agrees with its link: the functions
-- that an operation calls.
pub mod Replies
pub mod Link
pub mod History
use psu_usb_to_pmbus.Float.{Float}
use psu_usb_to_pmbus.Telemetry.Power.{update_derived_output_power, accumulate_input_power_sample}
use psu_usb_to_pmbus.Ax1600i.Backend.Read.{
  Completed, store_model, store_value, complete_read, show_read, pass_branch, is_probe, is_ocp,
  is_model, reply_word,
}
use psu_usb_to_pmbus.Telemetry.Snapshot.{TelemetrySnapshot}
use psu_usb_to_pmbus.Base.{
  refl, [], ◌∷◌, arith, true, false, ◌≡◌, not, ℕ, List, ◌||◌, Bool, ◌&&◌, ◌∙◌, if_cases, ltb, leb,
  ◌==◌, ◌+◌, ◌%◌, ◌^◌,
}
use psu_usb_to_pmbus.Ax1600i.Backend.{
  Backend, publish, complete_probe, reset_link, LinkState, Destination,
}
use psu_usb_to_pmbus.Ax1600i.Backend.Task.{is_ready, is_detached}

-- What the store shows if it began with `stored`.
abbrev pub latest : TelemetrySnapshot → List TelemetrySnapshot → TelemetrySnapshot
latest stored [] = stored
latest stored (snapshot ∷ _) = snapshot

-- Each publication has the number after that of the one before.
abbrev pub is_numbered : TelemetrySnapshot → List TelemetrySnapshot → Bool
is_numbered stored [] = true
is_numbered stored (snapshot ∷ rest) =
    snapshot.generation == ((latest stored rest).generation + 1) % 2 ^ 64 && is_numbered stored rest

-- The store shows the connection and the validity that the backend has; the supply counts as
-- connected on an initialized link; and on a detached link nothing counts.
pub record IsShown {T : Type 0} (stored : TelemetrySnapshot) (b : Backend T) : Type 0 where
  pub connection : (latest stored b.published).connected ≡ b.working.connected
  pub validity : (latest stored b.published).core_valid ≡ b.working.core_valid
  pub newest : (latest stored b.published).generation ≡ b.working.generation
  pub numbered : is_numbered stored b.published ≡ true
  pub ready : (not (is_ready b.link_state) || b.working.connected) ≡ true
  pub nothing :
      (not (is_detached b.link_state) || (not b.working.connected && not b.working.core_valid))
      ≡ true

-- What a publication would tell of these stays.
pub record IsSilent {T : Type 0} (b c : Backend T) : Type 0 where
  pub published : c.published ≡ b.published
  pub connected : c.working.connected ≡ b.working.connected
  pub core_valid : c.working.core_valid ≡ b.working.core_valid
  pub generation : c.working.generation ≡ b.working.generation
  pub link : c.link_state ≡ b.link_state

-- The same of an initialized link.
pub record IsLinked {T : Type 0} (stored : TelemetrySnapshot) (b : Backend T) : Type 0 where
  pub shown : IsShown stored b
  pub linked : b.link_state ≡ LinkState.ready

module _ {T : Type 0} where
  abbrev Answered : TelemetrySnapshot → Completed T → Type 0
  Answered s c = IsLinked s c.backend

  pub silent-IsShown :
      {stored : TelemetrySnapshot} {b c : Backend T}
      → IsSilent b c
      → IsShown stored b
      → IsShown stored c
  silent-IsShown {stored} {b} {c} s h = record {
    connection = rw (s.published, s.connected) h.connection;
    validity = rw (s.published, s.core_valid) h.validity;
    newest = rw (s.published, s.generation) h.newest;
    numbered = rw (s.published) h.numbered;
    ready = rw (s.link, s.connected) h.ready;
    nothing = rw (s.link, s.connected, s.core_valid) h.nothing;
  }

  pub silent-IsLinked :
      {stored : TelemetrySnapshot} {b c : Backend T}
      → IsSilent b c
      → IsLinked stored b
      → IsLinked stored c
  silent-IsLinked s h = record { shown = silent-IsShown s h.shown; linked = s.link ∙ h.linked }

  store_value-IsSilent :
      (d : Destination) (raw : ℕ) (value : Float) (b : Backend T)
      → IsSilent b (store_value d raw value b)
  unfolding store_value update_derived_output_power accumulate_input_power_sample
  store_value-IsSilent d raw value b = ground arith

  store_model-IsSilent : (b : Backend T) → IsSilent b (store_model b)
  unfolding store_model
  store_model-IsSilent b = ground arith

  pass_branch-IsSilent : (b : Backend T) → IsSilent b (pass_branch b)
  pass_branch-IsSilent b = ground arith

module _ {T : Type 0} {stored : TelemetrySnapshot} where
  pub linked-connected : {b : Backend T} → IsLinked stored b → b.working.connected ≡ true
  linked-connected {b} h = ground (arith, h.linked, h.shown.ready)

  pub complete_probe-IsLinked :
      (now_ms : ℕ) (available : Bool) {b : Backend T}
      → IsLinked stored b
      → IsLinked stored (complete_probe now_ms available b)
  unfolding complete_probe publish
  complete_probe-IsLinked now_ms available h = ground (arith, h.shown, h.linked)

  -- A reply may change the validity, and is shown at once.
  show_read-IsLinked :
      (now_ms : ℕ) {b : Backend T} → IsLinked stored b → IsLinked stored (show_read now_ms b)
  unfolding show_read publish
  show_read-IsLinked now_ms h = ground (arith, h.linked, linked-connected h)

  pub complete_read-IsLinked :
      (now_ms : ℕ) {b : Backend T}
      → IsLinked stored b
      → IsLinked stored (complete_read now_ms b).backend
  unfolding complete_read
  complete_read-IsLinked now_ms {b} h =
      if_cases (Answered stored) (is_probe b.destination)
        (λ _. silent-IsLinked (ground arith) (complete_probe-IsLinked now_ms true h))
        λ _.
          if_cases (Answered stored) (ltb b.exchange.response_size b.register_length)
            (λ _.
              if_cases (λ (c : Backend T). IsLinked stored c) (is_ocp b.destination)
                (λ _. silent-IsLinked (pass_branch-IsSilent b) h) (λ _. h))
            λ _. show_read-IsLinked now_ms (
              if_cases (λ (c : Backend T). IsLinked stored c) (is_model b.destination)
                (λ _. silent-IsLinked (store_model-IsSilent b) h)
                λ _.
                  if_cases (λ (c : Backend T). IsLinked stored c) (leb 2 b.register_length)
                    (λ _. silent-IsLinked (store_value-IsSilent b.destination (reply_word b) _ b) h)
                    (λ _. h))
