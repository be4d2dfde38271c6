-- ===== src/Session/Measure.antt =====
-- custom_components/carnet_scolaire/session.py: what is concluded from a call that worked, and from a
-- session that the server no longer knew.
use ha_pronote_ng.Prelude.{ℕ, ◌+◌, ◌-◌, true, false, not, ◌&&◌, none, some, leb, ltb, if◌then◌else◌}
use ha_pronote_ng.Models.Lifetime.{observed, with_sample}
use ha_pronote_ng.Limiter.State.{Reading}
use ha_pronote_ng.Session.State.{
  short_timeout_evidence, min_lifetime_sample, SessionManager, Deed, Turn, does,
}

-- `_note_unreachable`
unfoldable pub note_unreachable : Turn → Turn
note_unreachable x =
    if x.manager.unavailable_logged
    then x
    else does Deed.logs_unavailable
        (record x { manager = record x.manager { unavailable_logged = true } })

-- `_note_reachable`
unfoldable pub note_reachable : Turn → Turn
note_reachable x =
    if x.manager.unavailable_logged
    then does Deed.logs_online
        (record x { manager = record x.manager { unavailable_logged = false } })
    else x

-- The idle time that lifts the conclusion of a short timeout: zero if none was measured.
unfoldable pub lifting_gap : SessionManager → ℕ
lifting_gap m = elim (observed m.lifetime.samples) [ none ↦ 0 | some shortest ↦ shortest ]

-- `_note_survival`
unfoldable pub note_survival : ℕ → SessionManager → SessionManager
note_survival gap m0 =
    let m = record m0 { consecutive_expiries = 0 } in
    if not m.short_timeout_confirmed
    then m
    else if leb (lifting_gap m) 0
    then m
    else if ltb gap (lifting_gap m)
    then m
    else record m { short_timeout_confirmed = false; last_probe = none }

-- The first part of `_note_expiry`
unfoldable pub sample : Reading → SessionManager → SessionManager
sample t m = elim m.last_success [
  | none ↦ m
  | some at ↦
      if leb min_lifetime_sample (t.clock - at)
      then record m { lifetime = with_sample (t.clock - at) t.now m.lifetime }
      else m
]

-- `_note_expiry`
unfoldable pub note_expiry : Reading → SessionManager → SessionManager
note_expiry t m0 =
    let m1 = sample t m0 in
    let m = record m1 { consecutive_expiries = m1.consecutive_expiries + 1 } in
    if leb short_timeout_evidence m.consecutive_expiries && not m.short_timeout_confirmed
    then record m { short_timeout_confirmed = true; last_probe = some t.clock }
    else m
