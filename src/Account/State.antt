-- ===== src/Account/State.antt =====
-- custom_components/carnet_scolaire/coordinator.py, models.py and account.py: the snapshots of a tier, its
-- record, and the part of the account that a collection changes.
use ha_pronote_ng.Prelude.{
  ℕ, Bool, true, false, not, Option, none, some, List, String, str_eq, if◌then◌else◌,
}
use ha_pronote_ng.Const.{Tier}
use ha_pronote_ng.Scheduler.State.{FetchScheduler}
use ha_pronote_ng.Delta.Context.{DeltaEvent}
use ha_pronote_ng.Delta.Detector.{assign}

-- `Snapshot`
pub record Snapshot (A : Type 0) : Type 0 where
  pub facts : A
  pub fetched_at : ℕ
  pub tier : Tier
  pub calls : ℕ
  pub student_id : Option String

-- `PronoteTierCoordinator`, with its data by student
pub record TierCoordinator (A : Type 0) : Type 0 where
  pub snapshots : String → Option (Snapshot A)
  pub last_update_success : Bool

-- `TierRecord`
pub record TierRecord : Type 0 where
  pub last_success : Option ℕ
  pub last_duration_ms : Option ℕ
  pub last_calls : ℕ
  pub consecutive_failures : ℕ

-- `TierRecord()`
abbrev pub new_record : TierRecord
new_record = record {
  last_success = none;
  last_duration_ms = none;
  last_calls = 0;
  consecutive_failures = 0;
}

-- The account; `fired` are the events on the bus, with their students.
pub record Account (A : Type 0) : Type 0 where
  pub scheduler : FetchScheduler
  pub coordinators : Tier → Option (TierCoordinator A)
  pub records : Tier → Option TierRecord
  pub last_collection_tier : Option Tier
  pub session_facts : Option A
  pub fired : List (String × DeltaEvent)

-- `snapshot.student_id is not None and snapshot.student_id != student_id`
abbrev pub of_another : String → Option String → Bool
of_another student none = false
of_another student (some other) = not (str_eq other student)

-- `self.state.records.setdefault(tier, TierRecord())`
abbrev pub record_of : Option TierRecord → TierRecord
record_of none = new_record
record_of (some r) = r

module _ {A : Type 0} where
  -- `publish`; `none` is the exception. `async_set_updated_data` sets `last_update_success`.
  unfoldable pub publish : String → Snapshot A → TierCoordinator A → Option (TierCoordinator A)
  publish student snapshot c =
      if of_another student snapshot.student_id
      then none
      else some
          (record { snapshots = assign student snapshot c.snapshots; last_update_success = true })

  -- `note_failure` of the coordinator
  unfoldable pub note_failure : TierCoordinator A → TierCoordinator A
  note_failure c = record c { last_update_success = false }

  -- `self.snapshot`, of which `has_data` tells whether there is one
  unfoldable pub snapshot_of : Tier → String → Account A → Option (Snapshot A)
  snapshot_of tier student a = elim (a.coordinators tier) [
    | none ↦ none
    | some c ↦ c.snapshots student
  ]
