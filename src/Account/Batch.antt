-- ===== src/Account/Batch.antt =====
-- custom_components/carnet_scolaire/account.py: `_async_run_batch` and `_async_tick`. Nothing else is taken
-- to change the account between the collections of a batch.
use ha_pronote_ng.Prelude.{ℕ, ◌+◌, Bool, ◌||◌, Option, List, [], ◌∷◌, ◌++◌, String, if◌then◌else◌}
use ha_pronote_ng.Const.{Tier}
use ha_pronote_ng.Limiter.State.{Delay}
use ha_pronote_ng.Scheduler.State.{Instant}
use ha_pronote_ng.Scheduler.Due.{due}
use ha_pronote_ng.Account.State.{Account}
use ha_pronote_ng.Account.Collect.{Attempt, Loop, collect, stopped, escaped, over}

-- What a batch meets when it comes to a tier: whether the account is stopping, the attempts with their
-- instants, and `limiter.retry_delay()` after them.
pub record Round (A : Type 0) : Type 0 where
  pub stopping : Bool
  pub started : Instant
  pub attempts : List (Attempt A)
  pub finished : Instant
  pub retry_delay : Delay

-- What a batch does outside of the account: `begin_batch` of the limiter and of the session, `end_batch` of
-- the limiter, and `_async_adopt_announced_children` with `_async_sync_issues`.
pub data Deed : Type 0 where
  batch_began batch_ended roster_followed : Deed
  tier_collected : Tier → Deed

-- How the loop over the tiers ends: past the last one, by `return`, or by an exception.
pub data Outcome : Type 0 where
  completed interrupted raised : Outcome

pub record Batch (A : Type 0) : Type 0 where
  pub outcome : Outcome
  pub deeds : List Deed
  pub account : Account A

-- The clocks of the account, and the facts of the session where the source is EcoleDirecte.
pub record Setting (A : Type 0) : Type 0 where
  pub facts : Option (String → A)
  pub now : Instant → ℕ

-- What follows the loop on each of its ends.
abbrev pub closing : Outcome → List Deed
closing completed = batch_ended ∷ roster_followed ∷ []
closing interrupted = batch_ended ∷ []
closing raised = batch_ended ∷ []

module _ {A : Type 0} (w : Setting A) (script : Tier → Round A) where
  -- `_async_collect(tier)` in a batch
  abbrev pub collect_tier : Tier → Account A → Loop A
  collect_tier tier a =
      let r = script tier in
      collect w.facts w.now tier r.started r.attempts r.finished r.retry_delay a

  abbrev pub after_deed : Deed → Batch A → Batch A
  after_deed d b = record b { deeds = d ∷ b.deeds }

  -- What follows the collection of a tier, which does not end in `over`: the rest of the loop, unless an
  -- exception escapes.
  abbrev pub next : Tier → Loop A → (rest : Account A → Batch A) → Batch A
  next tier (stopped b) rest = after_deed (tier_collected tier) (rest b)
  next tier (escaped b) rest = record {
    outcome = raised;
    deeds = tier_collected tier ∷ [];
    account = b;
  }
  next tier (over b calls succeeded events) rest = record {
    outcome = raised;
    deeds = tier_collected tier ∷ [];
    account = b;
  }

  -- The loop over the tiers that are due.
  unfoldable pub serve : List Tier → Account A → Batch A
  serve [] a = record { outcome = completed; deeds = []; account = a }
  serve (tier ∷ tiers) a =
      if (script tier).stopping
      then record { outcome = interrupted; deeds = []; account = a }
      else next tier (collect_tier tier a) (serve tiers)

  abbrev pub bracketed : Batch A → Batch A
  bracketed b = record b { deeds = batch_began ∷ b.deeds ++ closing b.outcome }

  -- A batch of the tiers that are due.
  abbrev pub batch_of : List Tier → Account A → Batch A
  batch_of [] a = record { outcome = completed; deeds = []; account = a }
  batch_of (tier ∷ tiers) a = bracketed (serve (tier ∷ tiers) a)

  -- `_async_run_batch`
  unfoldable pub run_batch : Instant → Account A → Batch A
  run_batch t a = batch_of (due t a.scheduler) a

  -- `_async_tick`, with the count of its batches; `locked` tells whether another batch runs.
  unfoldable pub tick : (stopping locked : Bool) → Instant → ℕ → Account A → ℕ × Batch A
  tick stopping locked t count a =
      if stopping || locked
      then (count, record { outcome = interrupted; deeds = []; account = a })
      else (count + 1, run_batch t a)
