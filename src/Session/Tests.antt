-- ===== src/Session/Tests.antt =====
-- custom_components/carnet_scolaire/session.py: concrete runs of the manager.
use ha_pronote_ng.Prelude.{
  ℕ, ◌+◌, ◌*◌, ◌≤◌, ◌<◌, ◌≡◌, refl, true, not, Option, none, some, is_some, List, ◌⊎◌, [], ◌∷◌,
  arith, ◌==◌, if◌then◌else◌,
}
use ha_pronote_ng.Const.{second, minute, hour}
use ha_pronote_ng.Limiter.State.{Reading}
use ha_pronote_ng.Models.Lifetime.{observed}
use ha_pronote_ng.Session.State.{
  short_timeout_evidence, SessionCredentials, lazy, per_batch, Client, SessionManager, init, does,
  Ending,
}
use ha_pronote_ng.Session.Policy.{
  probe_due, effective_strategy, inactivity_gap, session_is_presumed_dead, of_another_batch,
  reconnect_required,
}
use ha_pronote_ng.Session.Measure.{note_reachable, lifting_gap, note_survival, sample, note_expiry}
use ha_pronote_ng.Session.Login.{
  LoginAnswer, reopen, persist_rotated_credentials, announce_children, take, mark, hold, answered,
  login, ensure_client,
}
use ha_pronote_ng.Session.Run.{
  CallAnswer, Script, reconcile, asked, succeeded, blamed, replayed, replay_with,
  replay_on_a_fresh_session, handle_protocol_error, served, run_with, run,
}
use ha_pronote_ng.Session.Counts.{
  is_login, is_call, is_failure, count, refused_again, blamed_login, number,
}
use ha_pronote_ng.Session.Bounds.{expired, charged, run-bounded}
use ha_pronote_ng.Session.Invariant.{Step, begins, runs, perform}
use ha_pronote_ng.Session.Founded.{IsFounded, Opened, Worked, perform-IsSound}
use ha_pronote_ng.Session.Batches.{batch_logins, batch_logins-le_one}
use ha_pronote_ng.Session.Timeouts.{idle_before, lifted_by_evidence}
use ha_pronote_ng.Session.Expiries.{three_expiries}

abbrev after : ℕ → Reading
after n = record { clock = 100 * hour + n; now = 100 * hour + n; zone = λ at. at }

abbrev parent : Client
parent = record {
  logged_in = true;
  is_parent_account = true;
  children = ("46#a", "Lea") ∷ [];
  info_id = "1";
  exported = ("demo", "token", none);
}

abbrev fresh : SessionManager
unfolding init
fresh = init lazy (record { username = "demo"; password = "p"; client_identifier = none }) true true

-- A run that starts at an instant, whose call is answered so.
abbrev script : ℕ → CallAnswer → Script
script n answer = record {
  start = after n;
  cost = 1;
  login = LoginAnswer.opened parent;
  login_at = after (n + second);
  call = answer;
  call_at = after (n + 2 * second);
  second_login = LoginAnswer.opened parent;
  second_login_at = after (n + 3 * second);
  second_call = CallAnswer.child_not_found;
  second_call_at = after (n + 4 * second);
}

abbrev gone : CallAnswer
gone = CallAnswer.protocol (some 8)

-- A replay that finds no child is charged to the backoff.
run-bounded_example :
    (count is_login (run (script 0 gone) fresh).0.deeds ≤ 1 + number (expired gone))
    × (count is_call (run (script 0 gone) fresh).0.deeds ≤ 1 + number (expired gone))
    × (count is_failure (run (script 0 gone) fresh).0.deeds ≡ (
        if count is_call (run (script 0 gone) fresh).0.deeds == 0
        then number (blamed_login (LoginAnswer.opened parent))
        else if not (expired gone)
        then number (charged gone)
        else if count is_call (run (script 0 gone) fresh).0.deeds == 1
        then number (blamed_login (LoginAnswer.opened parent))
        else number (refused_again CallAnswer.child_not_found)))
run-bounded_example = run-bounded (script 0 gone) fresh

replay_charges_missing_child : count is_failure (run (script 0 gone) fresh).0.deeds ≡ 1
unfolding count run run_with served handle_protocol_error replay_on_a_fresh_session replay_with
    replayed blamed asked ensure_client login answered hold mark take announce_children
    persist_rotated_credentials reopen note_reachable does note_expiry sample reconnect_required
    session_is_presumed_dead effective_strategy fresh
replay_charges_missing_child = refl

-- The second run finds the session of the first gone.
abbrev history : List Step
history = begins ∷ runs (script 0 (CallAnswer.result none)) ∷ runs (script hour gone) ∷ []

abbrev demo : SessionCredentials
demo = record { username = "demo"; password = "p"; client_identifier = none }

perform-IsSound_example :
    let m = perform history (init lazy demo true true) in
    IsFounded (Opened history 0) (Worked history) m
    × (m.short_timeout_confirmed ≡ is_some m.last_probe)
    × ((m.short_timeout_confirmed ≡ true) ⊎ (m.consecutive_expiries < short_timeout_evidence))
perform-IsSound_example = perform-IsSound history lazy demo true true

batch_logins-le_one_example :
    batch_logins
      (script 0 (CallAnswer.result (some 1)) ∷ script hour CallAnswer.expired_object ∷ [])
      fresh
    ≤ 1
unfolding expired
batch_logins-le_one_example =
    batch_logins-le_one (100 * hour + second)
      (script 0 (CallAnswer.result (some 1)) ∷ script hour CallAnswer.expired_object ∷ []) fresh
      (
        ((parent, refl, refl), refl, omega arith, omega arith, omega arith),
        (((parent, refl, refl), refl, omega arith, omega arith, omega arith), tt),
      )

-- A manager that concluded that the timeout is at most ten minutes, idle for twenty.
abbrev degraded : SessionManager
degraded = record fresh {
  client = some parent;
  opened_at = some (100 * hour);
  last_success = some (100 * hour);
  lifetime = record { samples = 10 * minute ∷ 12 * minute ∷ []; last_expiry = none };
  short_timeout_confirmed = true;
  last_probe = some (100 * hour);
  session_batch_id = some 0;
}

abbrev worked : Script
worked = script (20 * minute) (CallAnswer.result (some 1))

lifted_by_evidence_example :
    (calls : Option ℕ) × (d : ℕ) × ((run worked degraded).1 ≡ Ending.returned calls)
    × (worked.call ≡ CallAnswer.result calls)
    × (observed degraded.lifetime.samples ≡ some d)
    × (0 < d)
    × (d ≤ idle_before worked degraded)
unfolding run run_with served asked ensure_client reconnect_required session_is_presumed_dead
    effective_strategy probe_due of_another_batch inactivity_gap succeeded note_reachable
    note_survival lifting_gap observed reconcile does fresh
lifted_by_evidence_example = lifted_by_evidence worked degraded refl refl

abbrev first : Script
first = script 0 gone

abbrev second_one : Script
second_one = script (10 * minute) gone

abbrev third : Script
third = script (20 * minute) gone

three_expiries_example :
    effective_strategy
      (after (20 * hour)).clock
      (perform (runs first ∷ runs second_one ∷ runs third ∷ []) fresh)
    ≡ per_batch
unfolding count run run_with served handle_protocol_error replay_on_a_fresh_session replay_with
    replayed blamed asked ensure_client login answered hold mark take announce_children
    persist_rotated_credentials reopen note_reachable does note_expiry sample reconnect_required
    session_is_presumed_dead effective_strategy fresh perform expired
three_expiries_example =
    three_expiries first second_one third fresh (after (20 * hour)).clock refl refl
      (refl, λ e. omega arith) (refl, λ e. omega arith) (refl, λ e. omega arith) (ground arith)
