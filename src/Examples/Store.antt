-- ===== src/Examples/Store.antt =====
-- A read whose slot a publication makes inactive before the count, so that it starts again.
use psu_usb_to_pmbus.Telemetry.Store.Untorn.{returned_untorn}
use psu_usb_to_pmbus.Telemetry.Snapshot.{TelemetrySnapshot, snapshot_default}
use psu_usb_to_pmbus.Telemetry.Store.{begin_publish, publish_step, Action, read_step, enter, leave}
use psu_usb_to_pmbus.Base.{refl, [], ◌∷◌, arith, List, ◌≤◌, false, ◌≡◌}

abbrev fresh : TelemetrySnapshot
fresh = record snapshot_default { generation = 1 }

abbrev contended : List Action
contended =
    Action.reads
    ∷ Action.publishes fresh
    ∷ Action.writes
    ∷ Action.writes
    ∷ Action.enters false
    ∷ Action.writes
    ∷ Action.writes
    ∷ Action.reads
    ∷ Action.reads
    ∷ Action.reads
    ∷ Action.leaves false
    ∷ Action.reads
    ∷ Action.reads
    ∷ Action.reads
    ∷ Action.reads
    ∷ Action.reads
    ∷ Action.reads
    ∷ []

abbrev IsEarly : TelemetrySnapshot → Type 0
IsEarly t = t.generation ≤ 1

returned_untorn_example : (fresh ≡ fresh) × IsEarly fresh
unfolding begin_publish publish_step read_step enter leave
returned_untorn_example =
    returned_untorn IsEarly contended fresh fresh (omega arith, (omega arith, tt)) refl
