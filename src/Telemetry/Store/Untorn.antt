-- ===== src/Telemetry/Store/Untorn.antt =====
-- What the reads of src/telemetry/store.cpp return.
use psu_usb_to_pmbus.Base.{
  refl, Bool, true, false, not, arith, ◌≡◌, if◌then◌else◌, ℕ, ◌+◌, List, All, ◌∷◌, [],
}
use psu_usb_to_pmbus.Telemetry.Snapshot.{TelemetrySnapshot, snapshot_default}
use psu_usb_to_pmbus.Telemetry.Store.{
  System, TelemetryStore, Both, Slot, Writer, Reader, at, same, publish_step, read_step,
  begin_publish, enter, leave, Action, powered_up, act_all, act,
}

-- How often the reader counts on a slot.
abbrev holds : Bool → Reader → ℕ
holds k (Reader.counted j) = if same k j then 1 else 0
holds k (Reader.failed j) = if same k j then 1 else 0
holds k (Reader.checked j) = if same k j then 1 else 0
holds k (Reader.begun j v) = if same k j then 1 else 0
holds k (Reader.finished j v w) = if same k j then 1 else 0
holds k _ = 0

-- The writer works on the slot that is not active.
abbrev IsAimed : Writer → Bool → Type 0
IsAimed Writer.resting active = Unit
IsAimed (Writer.waiting k t) active = active ≡ not k
IsAimed (Writer.copying k t) active = active ≡ not k
IsAimed (Writer.halfway k t) active = active ≡ not k
IsAimed (Writer.copied k) active = active ≡ not k

abbrev written : Writer → Bool → Bool
written (Writer.copying k t) j = same k j
written (Writer.halfway k t) j = same k j
written _ j = false

-- The reader does not copy from a slot that is written.
abbrev IsApart : Writer → Reader → Type 0
IsApart w (Reader.checked j) = written w j ≡ false
IsApart w (Reader.begun j v) = written w j ≡ false
IsApart w _ = Unit

-- The snapshots that the actions publish.
abbrev pub published_of : List Action → List TelemetrySnapshot
published_of [] = []
published_of (Action.publishes t ∷ rest) = t ∷ published_of rest
published_of (Action.writes ∷ rest) = published_of rest
published_of (Action.reads ∷ rest) = published_of rest
published_of (Action.enters k ∷ rest) = published_of rest
published_of (Action.leaves k ∷ rest) = published_of rest

module _ (P : TelemetrySnapshot → Type 0) where
  -- Both parts are of one snapshot, but between the two steps of the writer on the slot.
  abbrev IsWhole : Writer → Bool → Slot → Type 0
  IsWhole (Writer.halfway k t) j slot =
      P slot.lower × (if same k j then slot.lower ≡ t else slot.upper ≡ slot.lower)
  IsWhole _ j slot = P slot.lower × (slot.upper ≡ slot.lower)

  abbrev IsMeant : Writer → Type 0
  IsMeant (Writer.waiting k t) = P t
  IsMeant (Writer.copying k t) = P t
  IsMeant (Writer.halfway k t) = P t
  IsMeant _ = Unit

  -- What the reader has copied so far.
  abbrev IsCarried : Reader → Both Slot → Type 0
  IsCarried (Reader.begun j v) slots = P v × (v ≡ (at j slots).lower)
  IsCarried (Reader.finished j v w) slots = P v × (w ≡ v)
  IsCarried (Reader.returned v w) slots = P v × (w ≡ v)
  IsCarried _ slots = Unit

  pub record IsSound (x : System) : Type 0 where
    pub counts_first : x.store.readers.first ≡ x.others.first + holds false x.reader
    pub counts_second : x.store.readers.second ≡ x.others.second + holds true x.reader
    pub aimed : IsAimed x.writer x.store.active
    pub apart : IsApart x.writer x.reader
    pub whole_first : IsWhole x.writer false x.store.slots.first
    pub whole_second : IsWhole x.writer true x.store.slots.second
    pub meant : IsMeant x.writer
    pub carried : IsCarried x.reader x.store.slots

  enter-IsSound : (k : Bool) (x : System) → IsSound x → IsSound (enter k x)
  unfolding enter
  enter-IsSound false x h = ground (arith, h)
  enter-IsSound true x h = ground (arith, h)

  leave-IsSound : (k : Bool) (x : System) → IsSound x → IsSound (leave k x)
  unfolding leave
  leave-IsSound false x h = ground (arith, h)
  leave-IsSound true x h = ground (arith, h)

  module _ (s : TelemetryStore) (o : Both ℕ) where
    abbrev system : Writer → Reader → System
    system w r = record { store = s; writer = w; reader = r; others = o }

    begin_publish-IsSound :
        (t : TelemetrySnapshot) (w : Writer) (r : Reader)
        → P t
        → IsSound (system w r)
        → IsSound (begin_publish t (system w r))
    unfolding begin_publish
    begin_publish-IsSound t Writer.resting r p h = ground (arith, h, p)
    begin_publish-IsSound t (Writer.waiting k v) r p h = h
    begin_publish-IsSound t (Writer.copying k v) r p h = h
    begin_publish-IsSound t (Writer.halfway k v) r p h = h
    begin_publish-IsSound t (Writer.copied k) r p h = h

    publish_step-IsSound :
        (w : Writer) (r : Reader) → IsSound (system w r) → IsSound (publish_step (system w r))
    unfolding publish_step
    publish_step-IsSound Writer.resting r h = h
    publish_step-IsSound (Writer.waiting k t) r h = ground (arith, h)
    publish_step-IsSound (Writer.copying k t) r h = ground (arith, h)
    publish_step-IsSound (Writer.halfway k t) r h = ground (arith, h)
    publish_step-IsSound (Writer.copied k) r h = ground (arith, h)

    read_step-IsSound :
        (w : Writer) (r : Reader) → IsSound (system w r) → IsSound (read_step (system w r))
    unfolding read_step
    read_step-IsSound w Reader.starting h = ground (arith, h)
    read_step-IsSound w (Reader.loaded k) h = ground (arith, h)
    read_step-IsSound w (Reader.counted k) h = ground (arith, h)
    read_step-IsSound w (Reader.failed k) h = ground (arith, h)
    read_step-IsSound w (Reader.checked k) h = ground (arith, h)
    read_step-IsSound w (Reader.begun k v) h = ground (arith, h)
    read_step-IsSound w (Reader.finished k v z) h = ground (arith, h)
    read_step-IsSound w (Reader.returned v z) h = ground (arith, h)

  act-IsSound :
      (a : Action) (x : System) → All P (published_of (a ∷ [])) → IsSound x → IsSound (act x a)
  act-IsSound (Action.publishes t) x p h =
      begin_publish-IsSound x.store x.others t x.writer x.reader p.0 h
  act-IsSound Action.writes x p h = publish_step-IsSound x.store x.others x.writer x.reader h
  act-IsSound Action.reads x p h = read_step-IsSound x.store x.others x.writer x.reader h
  act-IsSound (Action.enters k) x p h = enter-IsSound k x h
  act-IsSound (Action.leaves k) x p h = leave-IsSound k x h

  act_all-IsSound :
      (actions : List Action) (x : System)
      → All P (published_of actions)
      → IsSound x
      → IsSound (act_all x actions)
  act_all-IsSound [] x p h = h
  act_all-IsSound (Action.publishes t ∷ rest) x p h =
      act_all-IsSound rest _ p.1 (act-IsSound (Action.publishes t) x (p.0, tt) h)
  act_all-IsSound (Action.writes ∷ rest) x p h =
      act_all-IsSound rest _ p (act-IsSound Action.writes x tt h)
  act_all-IsSound (Action.reads ∷ rest) x p h =
      act_all-IsSound rest _ p (act-IsSound Action.reads x tt h)
  act_all-IsSound (Action.enters k ∷ rest) x p h =
      act_all-IsSound rest _ p (act-IsSound (Action.enters k) x tt h)
  act_all-IsSound (Action.leaves k ∷ rest) x p h =
      act_all-IsSound rest _ p (act-IsSound (Action.leaves k) x tt h)

  powered_up-IsSound : P snapshot_default → IsSound powered_up
  powered_up-IsSound p = record {
    counts_first = refl;
    counts_second = refl;
    aimed = tt;
    apart = tt;
    whole_first = (p, refl);
    whole_second = (p, refl);
    meant = tt;
    carried = tt;
  }

-- In every interleaving of the publishing core, a reader, and fewer than 255 other readers of each
-- slot, from power-on: both parts of what a read returns are of one snapshot, and that is the one at
-- power-on or one that was published: what holds of all of these holds of it.
pub returned_untorn :
    (P : TelemetrySnapshot → Type 0) (actions : List Action) (v w : TelemetrySnapshot)
    → All P (snapshot_default ∷ published_of actions)
    → (act_all powered_up actions).reader ≡ Reader.returned v w
    → (w ≡ v) × P v
returned_untorn P actions v w p e =
    let carried = (act_all-IsSound P actions powered_up p.1 (powered_up-IsSound P p.0)).carried in
    let back = rw e at carried in (back.1, back.0)
