-- ===== src/Telemetry/Store.antt =====
-- src/telemetry/store.cpp: two slots, of which one is active. One core publishes, and any number of
-- readers read at any time; each atomic operation is one step on sequentially consistent memory. A
-- snapshot is copied in two steps, its lower and its upper part, so that a copy can be torn.
pub mod Untorn
use psu_usb_to_pmbus.Base.{
  Bool, true, false, not, List, [], ◌∷◌, ◌+◌, if◌then◌else◌, ℕ, ◌==◌, ltb, ◌-◌,
}
use psu_usb_to_pmbus.Telemetry.Snapshot.{TelemetrySnapshot, snapshot_default}

-- An array of two; `false` is index 0, and `not` is `^ 1U`.
pub record Both {ℓ} (A : Type ℓ) : Type ℓ where
  pub first : A
  pub second : A

abbrev pub at {ℓ} : {A : Type ℓ} → Bool → Both A → A
at false b = b.first
at true b = b.second

abbrev pub put {ℓ} : {A : Type ℓ} → Bool → A → Both A → Both A
put false x b = record b { first = x }
put true x b = record b { second = x }

-- The snapshots that the two parts of a slot were copied from.
pub record Slot : Type 0 where
  pub lower : TelemetrySnapshot
  pub upper : TelemetrySnapshot

pub record TelemetryStore : Type 0 where
  pub slots : Both Slot
  pub readers : Both ℕ
  pub active : Bool

-- Where `publish` stands: before the load, in the loop, in the copy, before the store.
pub data Writer : Type 0 where
  resting : Writer
  waiting copying halfway : Bool → TelemetrySnapshot → Writer
  copied : Bool → Writer

-- Where a `read` stands: before the first load, before the count, before the second load, before the
-- release of a slot that is no longer active, in the copy, before the release, returned.
pub data Reader : Type 0 where
  starting : Reader
  loaded counted failed checked : Bool → Reader
  begun : Bool → TelemetrySnapshot → Reader
  finished : Bool → TelemetrySnapshot → TelemetrySnapshot → Reader
  returned : TelemetrySnapshot → TelemetrySnapshot → Reader

-- The store, its writer, one reader, and how many other readers count on each slot.
pub record System : Type 0 where
  pub store : TelemetryStore
  pub writer : Writer
  pub reader : Reader
  pub others : Both ℕ

abbrev pub powered_up : System
powered_up = record {
  store = record {
    slots = record {
      first = record { lower = snapshot_default; upper = snapshot_default };
      second = record { lower = snapshot_default; upper = snapshot_default };
    };
    readers = record { first = 0; second = 0 };
    active = false;
  };
  writer = resting;
  reader = starting;
  others = record { first = 0; second = 0 };
}

abbrev set_slot : Bool → Slot → TelemetryStore → TelemetryStore
set_slot k slot s = record s { slots = put k slot s.slots }

abbrev set_readers : Bool → ℕ → TelemetryStore → TelemetryStore
set_readers k n s = record s { readers = put k n s.readers }

-- A call of `publish` begins with the load of the active index.
unfoldable pub begin_publish : TelemetrySnapshot → System → System
begin_publish t x = elim x.writer [
  | resting ↦ record x { writer = waiting (not x.store.active) t }
  | waiting k v ↦ x
  | copying k v ↦ x
  | halfway k v ↦ x
  | copied k ↦ x
]

unfoldable pub publish_step : System → System
publish_step x = elim x.writer [
  | resting ↦ x
  | waiting k t ↦ if at k x.store.readers == 0 then record x { writer = copying k t } else x
  | copying k t ↦ record x {
    store = set_slot k (record (at k x.store.slots) { lower = t }) x.store;
    writer = halfway k t;
  }
  | halfway k t ↦ record x {
    store = set_slot k (record (at k x.store.slots) { upper = t }) x.store;
    writer = copied k;
  }
  | copied k ↦ record x { store = record (x.store) { active = k }; writer = resting }
]

abbrev same : Bool → Bool → Bool
same true b = b
same false b = not b

unfoldable pub read_step : System → System
read_step x = elim x.reader [
  | starting ↦ record x { reader = loaded x.store.active }
  | loaded k ↦ record x {
    store = set_readers k (at k x.store.readers + 1) x.store;
    reader = counted k;
  }
  | counted k ↦ record x { reader = if same k x.store.active then checked k else failed k }
  | failed k ↦ record x {
    store = set_readers k (at k x.store.readers - 1) x.store;
    reader = starting;
  }
  | checked k ↦ record x { reader = begun k (at k x.store.slots).lower }
  | begun k v ↦ record x { reader = finished k v (at k x.store.slots).upper }
  | finished k v w ↦ record x {
    store = set_readers k (at k x.store.readers - 1) x.store;
    reader = returned v w;
  }
  | returned v w ↦ record x { reader = starting }
]

-- Another reader counts on a slot; the count of a slot is a byte, and does not wrap.
unfoldable pub enter : Bool → System → System
enter k x =
    if ltb (at k x.others) 254
    then record x {
      store = set_readers k (at k x.store.readers + 1) x.store;
      others = put k (at k x.others + 1) x.others;
    }
    else x

unfoldable pub leave : Bool → System → System
leave k x =
    if ltb 0 (at k x.others)
    then record x {
      store = set_readers k (at k x.store.readers - 1) x.store;
      others = put k (at k x.others - 1) x.others;
    }
    else x

pub data Action : Type 0 where
  publishes : TelemetrySnapshot → Action
  writes reads : Action
  enters leaves : Bool → Action

abbrev pub act : System → Action → System
act x (publishes t) = begin_publish t x
act x writes = publish_step x
act x reads = read_step x
act x (enters k) = enter k x
act x (leaves k) = leave k x

abbrev pub act_all : System → List Action → System
act_all x [] = x
act_all x (a ∷ rest) = act_all (act x a) rest
