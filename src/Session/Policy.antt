-- ===== src/Session/Policy.antt =====
-- custom_components/carnet_scolaire/session.py: the strategy in force, and whether a held session is still
-- trusted.
use ha_pronote_ng.Prelude.{
  ℕ, ◌+◌, ◌-◌, Bool, true, false, not, ◌&&◌, ◌||◌, Option, none, some, is_some, List, [], ◌∷◌, map,
  String, str_eq, leb, ltb, length, ◌==◌, if◌then◌else◌, some_or,
}
use ha_pronote_ng.Models.Lifetime.{observed}
use ha_pronote_ng.Session.State.{
  probe_interval, presumed_dead_after, SessionStrategy, lazy, per_batch, Client, SessionManager,
}

-- `_probe_due`
unfoldable pub probe_due : ℕ → SessionManager → Bool
probe_due clock m = elim m.last_probe [ none ↦ true | some at ↦ leb probe_interval (clock - at) ]

-- `effective_strategy`
unfoldable pub effective_strategy : ℕ → SessionManager → SessionStrategy
effective_strategy clock m = elim m.strategy [
  | per_batch ↦ per_batch
  | lazy ↦ if m.short_timeout_confirmed && not (probe_due clock m) then per_batch else lazy
]

-- `session_age`
unfoldable pub session_age : ℕ → SessionManager → Option ℕ
session_age clock m = elim m.opened_at [ none ↦ none | some at ↦ some (clock - at) ]

-- `is_open`
unfoldable pub is_open : SessionManager → Bool
is_open m = is_some m.client

-- The identifiers that a client names: `student_ids`, of the client that is held
unfoldable pub ids_of : Client → List String
ids_of c =
    if c.is_parent_account then map (λ (x : String × String). x.0) c.children else c.info_id ∷ []

unfoldable pub student_ids : SessionManager → List String
student_ids m = elim m.client [ none ↦ [] | some c ↦ ids_of c ]

-- `begin_batch`
unfoldable pub begin_batch : SessionManager → SessionManager
begin_batch m = record m { batch_id = m.batch_id + 1 }

-- `_inactivity_gap`
unfoldable pub inactivity_gap : ℕ → SessionManager → ℕ
inactivity_gap clock m = elim m.last_success [ none ↦ 0 | some at ↦ clock - at ]

-- `_session_is_presumed_dead`
unfoldable pub session_is_presumed_dead : ℕ → SessionManager → Bool
session_is_presumed_dead clock m = elim m.last_success [
  | none ↦ false
  | some at ↦ not (ltb (clock - at) presumed_dead_after)
]

-- `_session_batch_id != _batch_id`
unfoldable pub of_another_batch : SessionManager → Bool
of_another_batch m = elim m.session_batch_id [ none ↦ true | some b ↦ not (b == m.batch_id) ]

-- `_reconnect_required`
unfoldable pub reconnect_required : ℕ → SessionManager → Bool
reconnect_required clock m =
    if session_is_presumed_dead clock m
    then true
    else elim (effective_strategy clock m) [ lazy ↦ false | per_batch ↦ of_another_batch m ]

abbrev named_in : String → List (String × String) → Bool
named_in id [] = false
named_in id ((i, _) ∷ children) = str_eq i id || named_in id children

-- `_live_child_id`, with `resolve_child` of the account
unfoldable pub live_child_id :
    Option (String → List (String × String) → Option String) → Client → String → String
live_child_id none c student = student
live_child_id (some resolve) c student =
    if named_in student c.children then student else some_or (resolve student c.children) student

-- What `_bind` selects before the call: the child that `set_child` is given, if it is called.
unfoldable pub selected :
    Option (String → List (String × String) → Option String)
    → Client
    → Option String
    → Option String
selected resolve c none = none
selected resolve c (some student) =
    if c.is_parent_account then some (live_child_id resolve c student) else none

-- `diagnostics`
pub record Diagnostics : Type 0 where
  pub strategy : SessionStrategy
  pub effective_strategy : SessionStrategy
  pub session_open : Bool
  pub age : Option ℕ
  pub idle : Option ℕ
  pub measured_lifetime : Option ℕ
  pub lifetime_samples : ℕ
  pub consecutive_expiries : ℕ
  pub short_timeout_confirmed : Bool

unfoldable pub diagnostics : ℕ → SessionManager → Diagnostics
unfolding effective_strategy is_open session_age inactivity_gap
diagnostics clock m = record {
  strategy = m.strategy;
  effective_strategy = effective_strategy clock m;
  session_open = is_open m;
  age = session_age clock m;
  idle = if is_open m then some (inactivity_gap clock m) else none;
  measured_lifetime = observed m.lifetime.samples;
  lifetime_samples = length m.lifetime.samples;
  consecutive_expiries = m.consecutive_expiries;
  short_timeout_confirmed = m.short_timeout_confirmed;
}
