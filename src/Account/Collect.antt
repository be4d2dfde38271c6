-- ===== src/Account/Collect.antt =====
-- custom_components/carnet_scolaire/account.py: `_async_collect`.
use ha_pronote_ng.Prelude.{
  ◌≡◌, ◌⊎◌, refl, inl, inr, ℕ, ◌+◌, ◌-◌, ◌/◌, Bool, true, false, Option, none, some, List, [], ◌∷◌,
  ◌++◌, map, String, if◌then◌else◌, ◌>>=◌,
}
use ha_pronote_ng.Const.{Tier, same_tier, session, marks}
use ha_pronote_ng.Limiter.State.{Delay}
use ha_pronote_ng.Scheduler.State.{Instant, put}
use ha_pronote_ng.Scheduler.Outcomes.{mark_collected, defer, mark_failed}
use ha_pronote_ng.Delta.Context.{DeltaEvent}
use ha_pronote_ng.Account.State.{
  Snapshot, TierCoordinator, record_of, Account, publish, note_failure,
}

-- How `_async_collect_student` ends: with a snapshot, its cost and the events that were detected, with a
-- deferral, with one of the exceptions of authentication, or with another.
pub data Ending (A : Type 0) : Type 0 where
  collected : Snapshot A → (used : ℕ) → List DeltaEvent → Ending A
  deferred : (retry_after : Delay) → Ending A
  blocked failed : Ending A

-- A student of the account, how the collection for it ends, the scheduler's instant then, and
-- `limiter.retry_delay()` then.
pub data Attempt (A : Type 0) : Type 0 where
  attempt : (student : String) → Ending A → (at : Instant) → (retry_delay : Delay) → Attempt A

-- What the loop over the students leaves: it returned, an exception escaped it, or it came to its end.
pub data Loop (A : Type 0) : Type 0 where
  stopped escaped : Account A → Loop A
  over : Account A → (calls : ℕ) (succeeded : Bool) (events : List (String × DeltaEvent)) → Loop A

-- How the publication of a snapshot ends: it returns, or an exception escapes it.
pub data Published (A : Type 0) : Type 0 where
  published raised : Account A → Published A

-- The account, either way.
abbrev pub account_after : {A : Type 0} → Published A → Account A
account_after (published b) = b
account_after (raised b) = b

abbrev pub labelled : String → List DeltaEvent → List (String × DeltaEvent)
labelled student = map (λ (e : DeltaEvent). (student, e))

module _ {A : Type 0} where
  -- `coordinators[tier] = c`, with the same object in place
  abbrev pub with_coordinator : Tier → TierCoordinator A → Account A → Account A
  with_coordinator tier c a = record a { coordinators = put tier c a.coordinators }

  -- `coordinator.note_failure(error)`
  abbrev pub with_failure : Tier → Option (TierCoordinator A) → Account A → Account A
  with_failure tier none a = a
  with_failure tier (some c) a = with_coordinator tier (note_failure c) a

  -- The clauses `except` for what is not a deferral.
  unfoldable pub failing : Tier → Instant → Delay → Account A → Account A
  failing tier at retry_delay a =
      let r = record_of (a.records tier) in
      let b = with_failure tier (a.coordinators tier) a in
      record b {
        scheduler = mark_failed at tier retry_delay a.scheduler;
        records =
            put tier (record r { consecutive_failures = r.consecutive_failures + 1 }) a.records;
      }

  -- With EcoleDirecte, the facts of the session are published after the marks. A coordinator that is not
  -- there is a `KeyError`, after which the facts of the session are kept all the same.
  unfoldable pub publish_session : (String → A) → ℕ → String → Account A → Published A
  publish_session facts now student a0 =
      let a = record a0 { session_facts = some (facts student) } in
      elim (a.coordinators session) [
        | none ↦ raised a
        | some c ↦
            elim (publish student
              (record {
                facts = facts student;
                fetched_at = now;
                tier = session;
                calls = 0;
                student_id = some student;
              })
              c) [ none ↦ raised a | some c' ↦ published (with_coordinator session c' a) ]
      ]

  -- What follows `coordinator.publish`, of which `none` is the exception.
  abbrev pub publish_rest :
      Option (String → A) → ℕ → Tier → String → Account A → Option (TierCoordinator A) → Published A
  publish_rest facts now tier student a none = raised a
  publish_rest none now tier student a (some c) = published (with_coordinator tier c a)
  publish_rest (some f) now tier student a (some c) =
      if same_tier tier marks
      then publish_session f now student (with_coordinator tier c a)
      else published (with_coordinator tier c a)

  -- One snapshot: `coordinator.publish`, and the session's with it where the source is EcoleDirecte.
  -- The coordinator of the tier is there, since the collection has begun.
  unfoldable pub publish_for :
      Option (String → A) → ℕ → Tier → String → Snapshot A → Account A → Published A
  publish_for facts now tier student snapshot a =
      publish_rest facts now tier student a (a.coordinators tier >>= publish student snapshot)

  -- The loop over the students.
  unfoldable pub loop :
      Option (String → A)
      → (Instant → ℕ)
      → Tier
      → List (Attempt A)
      → (calls : ℕ) → (succeeded : Bool) → List (String × DeltaEvent)
      → Account A
      → Loop A
  loop facts now tier [] calls succeeded events a = over a calls succeeded events
  loop facts now tier (attempt student (deferred retry_after) at retry_delay ∷ xs) calls succeeded
        events a =
      stopped (record a { scheduler = defer at tier retry_after a.scheduler })
  loop facts now tier (attempt student blocked at retry_delay ∷ xs) calls succeeded events a =
      stopped (failing tier at retry_delay a)
  loop facts now tier (attempt student failed at retry_delay ∷ xs) calls succeeded events a =
      stopped (failing tier at retry_delay a)
  loop facts now tier (attempt student (collected snapshot used detected) at retry_delay ∷ xs) calls
        succeeded events a =
      elim (publish_for facts (now at) tier student snapshot a) [
        | raised b ↦ escaped b
        | published b ↦
            loop facts now tier xs (calls + used) true (events ++ labelled student detected) b
      ]

  -- What follows the loop, at an instant; `retry_delay` is the limiter's.
  unfoldable pub finish : (Instant → ℕ) → Tier → Instant → Instant → Delay → Loop A → Loop A
  finish now tier started t retry_delay (stopped a) = stopped a
  finish now tier started t retry_delay (escaped a) = escaped a
  finish now tier started t retry_delay (over a calls false events) =
      stopped (record a { scheduler = mark_failed t tier retry_delay a.scheduler })
  finish now tier started t retry_delay (over a calls true events) = stopped (record a {
    scheduler = mark_collected t tier a.scheduler;
    records =
        put tier
          (record {
            last_success = some (now t);
            last_duration_ms = some ((t.clock - started.clock) / 1000);
            last_calls = calls;
            consecutive_failures = 0;
          })
          a.records;
    last_collection_tier = some tier;
    fired = a.fired ++ events;
  })

  -- `_async_collect`, without its first test; `records` has an entry for the tier from here on.
  unfoldable pub collect_known :
      Option (String → A)
      → (Instant → ℕ)
      → Tier
      → Instant
      → List (Attempt A)
      → Instant
      → Delay
      → Account A
      → Loop A
  collect_known facts now tier started attempts t retry_delay a =
      finish now tier started t retry_delay (
        loop facts now tier attempts 0 false []
          (record a { records = put tier (record_of (a.records tier)) a.records }))

  -- `_async_collect`
  unfoldable pub collect :
      Option (String → A)
      → (Instant → ℕ)
      → Tier
      → Instant
      → List (Attempt A)
      → Instant
      → Delay
      → Account A
      → Loop A
  collect facts now tier started attempts t retry_delay a = elim (a.coordinators tier) [
    | none ↦ stopped a
    | some c ↦ collect_known facts now tier started attempts t retry_delay a
  ]

pub Published-cases :
    {A : Type 0} (p : Published A)
    → ((b : Account A) × (p ≡ raised b)) ⊎ ((b : Account A) × (p ≡ published b))
Published-cases (published b) = inr (b, refl)
Published-cases (raised b) = inl (b, refl)
