-- ===== src/Session/Held.antt =====
-- custom_components/carnet_scolaire/session.py: the state that the parts of a login leave.
use ha_pronote_ng.Limiter.State.{Reading}
use ha_pronote_ng.Prelude.{
  [], ◌≡◌, refl, ap, ◌∙◌, inl, inr, false, ◌&&◌, some, Bool-cases, if◌then◌else◌,
}
use ha_pronote_ng.Session.State.{Client, SessionCredentials, SessionManager, Turn, does}
use ha_pronote_ng.Session.Policy.{probe_due}
use ha_pronote_ng.Session.Measure.{note_reachable}
use ha_pronote_ng.Session.Login.{
  take, mark, identifier, persist_rotated_credentials, announce_children, hold,
}

pub note_reachable-manager :
    (x : Turn) → (note_reachable x).manager ≡ record x.manager { unavailable_logged = false }
unfolding note_reachable does
note_reachable-manager x = elim (Bool-cases x.manager.unavailable_logged) [
  | inl e ↦ rw e refl
  | inr e ↦ rw e refl
]

announce_children-manager : (x : Turn) → (announce_children x).manager ≡ x.manager
unfolding announce_children does
announce_children-manager x = elim (Bool-cases x.manager.announces) [
  | inl e ↦ rw e refl
  | inr e ↦ rw e refl
]

-- The credentials that a client exports.
unfoldable pub rotated : Client → SessionCredentials
rotated c = record {
  username = c.exported.0;
  password = c.exported.1;
  client_identifier = identifier c.exported.2;
}

persist-manager :
    (c : Client) (x : Turn)
    → (persist_rotated_credentials c x).manager ≡ record x.manager { credentials = rotated c }
unfolding persist_rotated_credentials rotated does
persist-manager c x = elim (Bool-cases x.manager.saves) [ inl e ↦ rw e refl | inr e ↦ rw e refl ]

-- The manager that holds a client from the clocks of the turn on.
unfoldable pub holding : Client → Turn → SessionManager
holding c x = record x.manager {
  credentials = rotated c;
  client = some c;
  opened_at = some x.at.clock;
  last_success = some x.at.clock;
  last_probe =
      if x.manager.short_timeout_confirmed && probe_due x.at.clock x.manager
      then some x.at.clock
      else x.manager.last_probe;
  session_batch_id = some x.manager.batch_id;
  unavailable_logged = false;
}

note_reachable-at : (x : Turn) → (note_reachable x).at ≡ x.at
unfolding note_reachable does
note_reachable-at x = elim (Bool-cases x.manager.unavailable_logged) [
  | inl e ↦ rw e refl
  | inr e ↦ rw e refl
]

mark-manager :
    (x y : Turn)
    → x.manager ≡ record y.manager { unavailable_logged = false }
    → x.at ≡ y.at
    → (mark x).manager ≡ record (mark y).manager { unavailable_logged = false }
unfolding mark probe_due
mark-manager x y e f =
    let marked : Reading → SessionManager → SessionManager =
      λ t m. (mark (record { manager = m; deeds = []; at = t })).manager in
    ap (λ (t : Reading). marked t x.manager) f ∙ ap (marked y.at) e

pub hold-manager : (c : Client) (x : Turn) → (hold c x).manager ≡ holding c x
unfolding hold holding take mark probe_due
hold-manager c x =
    announce_children-manager (persist_rotated_credentials c (mark (note_reachable (take c x))))
    ∙ persist-manager c (mark (note_reachable (take c x)))
    ∙ ap (λ (m : SessionManager). record m { credentials = rotated c })
        (mark-manager (note_reachable (take c x)) (take c x) (note_reachable-manager (take c x))
          (note_reachable-at (take c x)))
