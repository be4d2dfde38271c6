-- ===== src/EdLimiter/Logins.antt =====
-- custom_components/carnet_scolaire/connectors/ecoledirecte/ed_limiter.py: `call`, `login` and the
-- methods of the login.
use ha_pronote_ng.Prelude.{
  ℕ, ◌+◌, ◌-◌, none, [], ◌∷◌, ◌++◌, String, ltb, leb, length, if◌then◌else◌,
}
use ha_pronote_ng.Const.{Priority, critical}
use ha_pronote_ng.Limiter.State.{DeferReason, login_cap, ticks, Reading}
use ha_pronote_ng.Limiter.Quiet.{seconds_to_midnight}
use ha_pronote_ng.EdLimiter.State.{EdRateLimiter, roll_day, prune_failed_logins, start_hold}
use ha_pronote_ng.EdLimiter.Calls.{Admission, admit, note_success}

-- `ED_LOGIN_COST_KEY`
abbrev pub ed_login_cost_key : String
ed_login_cost_key = "login"

-- `ED_QCM_COST`
abbrev pub ed_qcm_cost : ℕ
ed_qcm_cost = 4

-- `call` whose operation succeeds: the admission, and `note_success` on what it leaves.
unfoldable pub call : Reading → (ℕ → Reading) → String → Priority → ℕ → EdRateLimiter → Admission
call t woken key priority cost s = elim (admit t woken key priority cost s) [
  | Admission.admitted s' ↦ Admission.admitted (note_success s')
  | Admission.deferred s' w reason ↦ Admission.deferred s' w reason
  | Admission.asleep s' ↦ Admission.asleep s'
  | Admission.crashed s' ↦ Admission.crashed s'
]

-- `self._logins_today += 1`, once the login is admitted
unfoldable pub count_login : Admission → Admission
count_login (Admission.admitted s) =
    Admission.admitted (record s { logins_today = s.logins_today + 1 })
count_login a = a

-- `login`, up to the operation
unfoldable pub login : Reading → (ℕ → Reading) → ℕ → EdRateLimiter → Admission
login t woken cost s0 =
    let s = roll_day t s0 in
    if leb s.config.max_logins_per_day s.logins_today
    then Admission.deferred s (ticks (seconds_to_midnight t)) login_cap
    else count_login (admit t woken ed_login_cost_key critical cost s)

-- `charge_qcm`
unfoldable pub charge_qcm : Reading → (ℕ → Reading) → EdRateLimiter → Admission
charge_qcm t woken s = admit t woken ed_login_cost_key critical ed_qcm_cost s

-- `reconcile_login`
unfoldable pub reconcile_login : Reading → (ℕ → Reading) → ℕ → ℕ → EdRateLimiter → Admission
reconcile_login t woken charged actual s =
    if ltb charged actual
    then admit t woken ed_login_cost_key critical (actual - charged) s
    else Admission.admitted s

-- `note_bad_credentials`
unfoldable pub note_bad_credentials : Reading → EdRateLimiter → EdRateLimiter
note_bad_credentials t s0 =
    let s =
      prune_failed_logins t (record s0 { failed_logins = s0.failed_logins ++ t.clock ∷ [] }) in
    if leb s.config.max_failed_logins_per_hour (length s.failed_logins)
    then start_hold t DeferReason.credentials_hold s.config.credentials_hold s
    else s

-- `reset_after_reauth`
unfoldable pub reset_after_reauth : EdRateLimiter → EdRateLimiter
reset_after_reauth s = record s {
  failed_logins = [];
  hold_until = none;
  hold_reason = none;
  throttled_since = none;
}
