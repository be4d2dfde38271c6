-- ===== src/Session/Login.antt =====
-- custom_components/carnet_scolaire/session.py: opening a session and dropping it.
use ha_pronote_ng.Prelude.{
  ℕ, Bool, ◌&&◌, ◌||◌, Option, none, some, is_some, String, str_eq, if◌then◌else◌,
}
use ha_pronote_ng.Limiter.State.{
  Reading, success, bad_credentials, transport, bootstrap, mfa_required, undecodable,
}
use ha_pronote_ng.Session.State.{Client, SessionCredentials, Deed, Turn, does, Fault}
use ha_pronote_ng.Session.Policy.{probe_due, reconnect_required, student_ids}
use ha_pronote_ng.Session.Measure.{note_unreachable, note_reachable}

-- What `limiter.login` comes back with, by the first of the `except` clauses that takes it.
pub data LoginAnswer : Type 0 where
  refused mfa crypto bootstrap_unavailable : LoginAnswer
  protocol : Option ℕ → LoginAnswer
  undecoded unreachable other : LoginAnswer
  opened : Client → LoginAnswer

-- `_reopen`
unfoldable pub reopen : Turn → Turn
reopen x =
    let m = record x.manager { client = none; opened_at = none; session_batch_id = none } in
    if is_some x.manager.client
    then does Deed.releases (record x { manager = m })
    else record x { manager = m }

-- `str(identifier) if identifier else None`
abbrev pub identifier : Option String → Option String
identifier none = none
identifier (some i) = if str_eq i "" then none else some i

-- `_persist_rotated_credentials`
unfoldable pub persist_rotated_credentials : Client → Turn → Turn
persist_rotated_credentials c x =
    let (username, password, client_identifier) = c.exported in
    let rotated : SessionCredentials = record {
      username = username;
      password = password;
      client_identifier = identifier client_identifier;
    } in
    let x1 = record x { manager = record x.manager { credentials = rotated } } in
    if x.manager.saves then does (Deed.saves_credentials rotated) x1 else x1

-- `_announce_children`
unfoldable pub announce_children : Turn → Turn
announce_children x =
    if x.manager.announces then does (Deed.announces_children (student_ids x.manager)) x else x

-- `self._client = client`, `self._opened_at = self._clock()`, `self._last_success = self._opened_at`
unfoldable pub take : Client → Turn → Turn
take c x = record x {
  manager = record x.manager {
    client = some c;
    opened_at = some x.at.clock;
    last_success = some x.at.clock;
  };
}

-- `self._session_batch_id = self._batch_id`, and `_last_probe` if this login is a probe
unfoldable pub mark : Turn → Turn
mark x = record x {
  manager = record x.manager {
    session_batch_id = some x.manager.batch_id;
    last_probe =
        if x.manager.short_timeout_confirmed && probe_due x.at.clock x.manager
        then some x.at.clock
        else x.manager.last_probe;
  };
}

-- What `_login` does with a client that is logged in
unfoldable pub hold : Client → Turn → Turn
hold c x = announce_children (persist_rotated_credentials c (mark (note_reachable (take c x))))

-- `_login`, from the answer on, which comes at the clocks of the turn
unfoldable pub answered : LoginAnswer → Turn → Turn × Option Fault
answered refused x = (x, some Fault.login_refused)
answered mfa x = (does (Deed.notes_login mfa_required) x, some Fault.mfa_required)
answered crypto x = (does (Deed.notes_login bad_credentials) x, some Fault.invalid_credentials)
answered bootstrap_unavailable x =
    (does (Deed.notes_login bootstrap) x, some Fault.bootstrap_failed)
answered (protocol code) x = (does (Deed.notes_login transport) x, some (Fault.protocol_error code))
answered undecoded x = (does (Deed.notes_login undecodable) x, some Fault.account_unreadable)
answered unreachable x =
    (does (Deed.notes_login transport) (note_unreachable x), some Fault.unreachable)
answered other x = (x, some Fault.other)
answered (opened c) x =
    if c.logged_in then (hold c (does (Deed.notes_login success) x), none) else (
      does (Deed.notes_login bad_credentials) (does Deed.releases x),
      some Fault.invalid_credentials,
    )

-- `_login`
unfoldable pub login : LoginAnswer → Reading → Turn → Turn × Option Fault
login answer t x = answered answer (record (does Deed.asks_login x) { at = t })

-- `_ensure_client`; a login, if there is one, is answered at the clocks given
unfoldable pub ensure_client : Bool → LoginAnswer → Reading → Turn → Turn × Option Fault
ensure_client eager answer t x =
    let x1 =
      if is_some x.manager.client && (eager || reconnect_required x.at.clock x.manager)
      then reopen x
      else x in
    if is_some x1.manager.client then (x1, none) else login answer t x1
