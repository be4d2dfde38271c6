-- ===== src/Account/Tests.antt =====
-- custom_components/carnet_scolaire/account.py: concrete collections of the news of two children.
use ha_pronote_ng.Prelude.{Bool-cases, arith, ◌≢◌, ◌⊎◌, inl, inr, map}
use ha_pronote_ng.Prelude.{
  ℕ, ◌*◌, ◌≡◌, refl, true, false, ◌&&◌, none, some, List, [], ◌∷◌, ◌++◌, String, if◌then◌else◌,
}
use ha_pronote_ng.Prelude.Int.{pos}
use ha_pronote_ng.Const.{
  Tier, same_tier, name_order, normal, tier_priority, priority_rank, hour, news,
}
use ha_pronote_ng.Limiter.State.{ticks}
use ha_pronote_ng.Scheduler.State.{TierPlan, TierState, fresh, Instant, put}
use ha_pronote_ng.Delta.Context.{DeltaEvent, information_event}
use ha_pronote_ng.Account.State.{Snapshot, TierCoordinator, Account, publish, snapshot_of}
use ha_pronote_ng.Account.Collect.{
  Attempt, attempt, Loop, loop, finish, publish_for, collect_known, collect, collected, deferred,
  stopped,
}
use ha_pronote_ng.Scheduler.Due.{due, sort, insert, candidates, is_due, overdue, early, served_rank}
use ha_pronote_ng.Scheduler.Membership.{IsDue}
use ha_pronote_ng.Account.Frame.{is_there}
use ha_pronote_ng.Account.Batch.{
  Round, Setting, completed, Deed, batch_began, batch_ended, roster_followed, tier_collected, serve,
  run_batch, tick,
}
use ha_pronote_ng.Account.Boosts.{IsCalm, batch-IsCalm}
use ha_pronote_ng.Account.Deeds.{batch-deeds}
use ha_pronote_ng.Account.Fired.{is_any, all_collected, all_events, collect-fired}
use ha_pronote_ng.Account.Published.{Keeps}
use ha_pronote_ng.Account.Kept.{account_of, collect-Keeps}

abbrev at : ℕ → Instant
at clock = record { clock = clock; wall = some clock }

abbrev fetched : Instant → ℕ
fetched t = t.clock

abbrev planned : TierPlan
planned = record { interval_minutes = 60; priority = normal; enabled = true }

abbrev pressed : TierState
pressed = record fresh { boosted = true }

abbrev nothing : TierCoordinator ℕ
nothing = record { snapshots = λ student. none; last_update_success = true }

-- An account with the tier of the news alone, boosted, before its first collection.
abbrev opened : Account ℕ
opened = record {
  scheduler = record {
    plans = put news planned (λ tier. none);
    states = put news pressed (λ tier. none);
  };
  coordinators = put news nothing (λ tier. none);
  records = λ tier. none;
  last_collection_tier = none;
  session_facts = none;
  fired = [];
}

abbrev letter : DeltaEvent
letter = information_event (record {
  id = "I1";
  title = some "Sortie";
  author = none;
  category = none;
  read = false;
  survey = false;
  anonymous_response = false;
  created = record { local = 20 * hour; offset = pos 0 };
  start_date = none;
  end_date = none;
})

abbrev snapshot : String → Snapshot ℕ
snapshot student = record {
  facts = 1;
  fetched_at = 9 * hour;
  tier = news;
  calls = 1;
  student_id = some student;
}

abbrev got : String → List DeltaEvent → Attempt ℕ
got student events =
    attempt student (collected (snapshot student) 1 events) (at (9 * hour)) (ticks 5)

-- Both children are collected; or the second is put off after the first announced a letter.
abbrev both : List (Attempt ℕ)
both = got "L" (letter ∷ []) ∷ got "N" [] ∷ []

abbrev cut : List (Attempt ℕ)
cut = got "L" (letter ∷ []) ∷ attempt "N" (deferred (ticks 7)) (at (9 * hour)) (ticks 5) ∷ []

abbrev collected_both : Loop ℕ
collected_both = collect none fetched news (at (9 * hour)) both (at (9 * hour)) (ticks 5) opened

abbrev collected_cut : Loop ℕ
collected_cut = collect none fetched news (at (9 * hour)) cut (at (9 * hour)) (ticks 5) opened

cut_ends : collected_cut ≡ stopped (account_of collected_cut)
unfolding collect collect_known loop finish publish_for publish same_tier name_order
cut_ends = refl

-- The letter is never announced, though the snapshot of the first child holds it.
cut_fires_nothing : (account_of collected_cut).fired ≡ []
unfolding collect collect_known loop finish publish_for publish same_tier name_order
cut_fires_nothing = refl

cut_published : snapshot_of news "L" (account_of collected_cut) ≡ some (snapshot "L")
unfolding collect collect_known loop finish publish_for publish snapshot_of same_tier name_order
cut_published = refl

both_fire : (account_of collected_both).fired ≡ ("L", letter) ∷ []
unfolding collect collect_known loop finish publish_for publish same_tier name_order
both_fire = refl

collect-fired_example :
    (account_of collected_cut).fired
    ≡ opened.fired ++ (if is_any cut && all_collected cut then all_events cut else [])
unfolding same_tier name_order
collect-fired_example =
    collect-fired none fetched news (at (9 * hour)) (at (9 * hour)) cut (ticks 5) opened
      (account_of collected_cut) nothing refl cut_ends

collect-Keeps_example : Keeps "N" opened (account_of collected_cut)
collect-Keeps_example =
    collect-Keeps none fetched news (at (9 * hour)) (at (9 * hour)) cut (ticks 5) opened "N" refl

abbrev setting : Setting ℕ
setting = record { facts = none; now = fetched }

abbrev rounds : Tier → Round ℕ
rounds tier = record {
  stopping = false;
  started = at (9 * hour);
  attempts = cut;
  finished = at (9 * hour);
  retry_delay = ticks 5;
}

opened-IsDue : IsDue (at (9 * hour)) opened.scheduler news
unfolding same_tier name_order
opened-IsDue = record {
  plan = planned;
  state = pressed;
  planned = refl;
  known = refl;
  enabled = refl;
  ready = ground arith;
  wanted = inl refl;
}

opened-coordinated :
    (x : Tier) → IsDue (at (9 * hour)) opened.scheduler x → is_there (opened.coordinators x) ≡ true
opened-coordinated x d = elim (Bool-cases (same_tier news x)) [
  | inl e ↦ rw e refl
  | inr e ↦ let k = rw e at d.planned in cc
]

ends_whole : (run_batch setting rounds (at (9 * hour)) opened).outcome ≡ completed
unfolding run_batch serve due sort insert candidates is_due overdue early served_rank tier_priority
    priority_rank collect collect_known loop finish publish_for publish same_tier name_order
ends_whole = refl

batch-IsCalm_example :
    IsCalm news (run_batch setting rounds (at (9 * hour)) opened).account.scheduler
batch-IsCalm_example =
    batch-IsCalm setting rounds (at (9 * hour)) opened news opened-coordinated opened-IsDue
      ends_whole

news_is_due : due (at (9 * hour)) opened.scheduler ≡ news ∷ []
unfolding due sort insert candidates is_due overdue early served_rank tier_priority priority_rank
    same_tier name_order
news_is_due = refl

batch-deeds_example :
    (done : List Tier) × (rest : List Tier) × (last : List Deed) × (due
        (at (9 * hour))
        opened.scheduler
      ≡ done ++ rest)
    × ((run_batch setting rounds (at (9 * hour)) opened).deeds
        ≡ batch_began ∷ map tier_collected done ++ batch_ended ∷ last)
    × (((rest ≡ [])
          × ((run_batch setting rounds (at (9 * hour)) opened).outcome ≡ completed)
          × (last ≡ roster_followed ∷ []))
        ⊎ (((run_batch setting rounds (at (9 * hour)) opened).outcome ≢ completed) × (last ≡ [])))
batch-deeds_example = batch-deeds setting rounds (at (9 * hour)) opened news [] news_is_due

-- A tick while another batch runs collects nothing and is not counted.
tick_skipped : (tick setting rounds false true (at (9 * hour)) 4 opened).0 ≡ 4
unfolding tick
tick_skipped = refl
