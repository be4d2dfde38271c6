-- ===== src/Session/State.antt =====
-- custom_components/carnet_scolaire/session.py: the state of `SessionManager`, and what a run of it does to
-- the others.
use ha_pronote_ng.Prelude.{ℕ, Bool, false, Option, none, List, ◌∷◌, String, ◌*◌}
use ha_pronote_ng.Const.{second, hour}
use ha_pronote_ng.Models.Lifetime.{SessionLifetime, unmeasured}
use ha_pronote_ng.Limiter.State.{Reading, LoginOutcome}

-- `PRESUMED_DEAD_AFTER_SECONDS`
abbrev pub presumed_dead_after : ℕ
presumed_dead_after = hour

-- `SHORT_TIMEOUT_EVIDENCE`
abbrev pub short_timeout_evidence : ℕ
short_timeout_evidence = 3

-- `PROBE_INTERVAL_SECONDS`
abbrev pub probe_interval : ℕ
probe_interval = 86400 * second

-- `MIN_LIFETIME_SAMPLE_SECONDS`
abbrev pub min_lifetime_sample : ℕ
min_lifetime_sample = 60 * second

-- `SessionStrategy` of const.py
pub data SessionStrategy : Type 0 where
  lazy per_batch : SessionStrategy

-- What a client of PRONOTE answers to the session: the attributes of it that are read.
pub record Client : Type 0 where
  pub logged_in : Bool
  pub is_parent_account : Bool
  pub children : List (String × String)
  pub info_id : String
  pub exported : String × String × Option String

-- The part of `SessionCredentials` that a login rotates.
pub record SessionCredentials : Type 0 where
  pub username : String
  pub password : String
  pub client_identifier : Option String

pub record SessionManager : Type 0 where
  pub strategy : SessionStrategy
  pub credentials : SessionCredentials
  pub saves : Bool
  pub announces : Bool
  pub client : Option Client
  pub opened_at : Option ℕ
  pub last_success : Option ℕ
  pub lifetime : SessionLifetime
  pub consecutive_expiries : ℕ
  pub short_timeout_confirmed : Bool
  pub last_probe : Option ℕ
  pub batch_id : ℕ
  pub session_batch_id : Option ℕ
  pub unavailable_logged : Bool

-- `SessionManager.__init__`; `saves` and `announces` tell whether the callbacks are given.
unfoldable pub init : SessionStrategy → SessionCredentials → Bool → Bool → SessionManager
init strategy credentials saves announces = record {
  strategy = strategy;
  credentials = credentials;
  saves = saves;
  announces = announces;
  client = none;
  opened_at = none;
  last_success = none;
  lifetime = unmeasured;
  consecutive_expiries = 0;
  short_timeout_confirmed = false;
  last_probe = none;
  batch_id = 0;
  session_batch_id = none;
  unavailable_logged = false;
}

-- What a run asks of the limiter, of the worker thread, of the log and of the account.
pub data Deed : Type 0 where
  asks_login asks_call : Deed
  notes_failure : Deed
  notes_login : LoginOutcome → Deed
  reconciles : (charged actual : ℕ) → Deed
  releases : Deed
  logs_unavailable logs_online : Deed
  saves_credentials : SessionCredentials → Deed
  announces_children : List String → Deed

-- A run in progress: the manager, what was done (the latest first), and the clocks.
pub record Turn : Type 0 where
  pub manager : SessionManager
  pub deeds : List Deed
  pub at : Reading

unfoldable pub does : Deed → Turn → Turn
does deed x = record x { deeds = deed ∷ x.deeds }

-- The exceptions that leave a run.
pub data Fault : Type 0 where
  login_refused mfa_required invalid_credentials bootstrap_failed account_unreadable : Fault
  integration_fault tier_deferred : Fault
  protocol_error : Option ℕ → Fault
  expired_object child_not_found timed_out unreachable other : Fault

-- The end of a run: the value that came back, of which only `calls` is read, or an exception.
pub data Ending : Type 0 where
  returned : Option ℕ → Ending
  raised : Fault → Ending
