-- ===== src/Limiter/Admission/Balance.antt =====
-- custom_components/carnet_scolaire/ratelimit.py: the requests of the day and those of its tiers, for
-- every interleaving of callers.
use ha_pronote_ng.Prelude.{
  sym, ◌≡◌, ℕ, zero, suc, refl, inl, inr, Option, none, some, List, [], ◌∷◌, leb, Bool-cases,
}
use ha_pronote_ng.Prelude.Dict.{total}
use ha_pronote_ng.Limiter.State.{RateLimitConfig, Reading, RateLimiter, init, Delay, ticks, forever}
use ha_pronote_ng.Limiter.Quiet.{begin_batch, end_batch}
use ha_pronote_ng.Limiter.Effect.{IsBalanced, reset_after_reauth-Effect, record_requests-Effect}
use ha_pronote_ng.Limiter.Effect.Methods.{
  snapshot_counters-Effect, reconcile-Effect, note_failure-Effect, note_success-Effect,
  note_login-Effect, commit_login-Effect,
}
use ha_pronote_ng.Limiter.Admission.{
  Request, call, login, Sleeper, System, Event, ask, wake, cancelled, succeeded, failed,
  login_ended, reconciled, reauthenticated, batch_begun, batch_ended, observed, decide, commit,
  depart, settle, enter, enter_if_free, wake_at_time, wake_if_due, step, run, start,
}
use ha_pronote_ng.Limiter.Admission.Spacing.{decide-Effect}

commit-IsBalanced :
    (t : Reading) (q : Request) (s : RateLimiter) → IsBalanced s → IsBalanced (commit t q s)
unfolding commit
commit-IsBalanced t (call tier priority cost) s b =
    (record_requests-Effect t s tier cost).balanced b
commit-IsBalanced t (login cost) s b = (commit_login-Effect t s cost).balanced b

settle-IsBalanced :
    (t : Reading) (q : Request) (d : Delay) (y : System)
    → IsBalanced y.limiter
    → IsBalanced (settle t q d y).limiter
unfolding settle depart
settle-IsBalanced t q (ticks zero) y b = commit-IsBalanced t q y.limiter b
settle-IsBalanced t q (ticks (suc n)) y b = b
settle-IsBalanced t q forever y b = b

enter-IsBalanced :
    (t : Reading) (q : Request) (y : System)
    → IsBalanced y.limiter
    → IsBalanced (enter t q y).limiter
unfolding enter
enter-IsBalanced t q y b =
    let (s, verdict) = decide t q y.limiter in
    let b' = (decide-Effect t y.limiter q).balanced b in
    elim (Bool-cases verdict.allowed) [
      | inl admitted ↦
          rw admitted (settle-IsBalanced t q verdict.wait (record y { limiter = s }) b')
      | inr refused ↦ rw refused b'
    ]

enter_if_free-IsBalanced :
    (t : Reading) (q : Request) (o : Option Sleeper) (y : System)
    → IsBalanced y.limiter
    → IsBalanced (enter_if_free t q o y).limiter
unfolding enter_if_free
enter_if_free-IsBalanced t q none y b = enter-IsBalanced t q y b
enter_if_free-IsBalanced t q (some sleeper) y b = b

wake-IsBalanced :
    (t : Reading) (sleeper : Sleeper) (at : Option ℕ) (y : System)
    → IsBalanced y.limiter
    → IsBalanced (wake_at_time t sleeper y at).limiter
unfolding wake_at_time depart
wake-IsBalanced t sleeper none y b = b
wake-IsBalanced t sleeper (some at) y b = elim (Bool-cases (leb at t.clock)) [
  | inl due ↦ rw due (commit-IsBalanced t sleeper.request y.limiter b)
  | inr early ↦ rw early b
]

wake_if_due-IsBalanced :
    (t : Reading) (o : Option Sleeper) (y : System)
    → IsBalanced y.limiter
    → IsBalanced (wake_if_due t o y).limiter
unfolding wake_if_due
wake_if_due-IsBalanced t none y b = b
wake_if_due-IsBalanced t (some sleeper) y b = wake-IsBalanced t sleeper sleeper.wake_at y b

step-IsBalanced :
    (t : Reading) (e : Event) (y : System) → IsBalanced y.limiter → IsBalanced (step t e y).limiter
unfolding step begin_batch end_batch
step-IsBalanced t (ask q) y b = enter_if_free-IsBalanced t q y.asleep y b
step-IsBalanced t wake y b = wake_if_due-IsBalanced t y.asleep y b
step-IsBalanced t cancelled y b = b
step-IsBalanced t succeeded y b = (note_success-Effect t y.limiter).balanced b
step-IsBalanced t (failed r) y b = (note_failure-Effect t y.limiter r).balanced b
step-IsBalanced t (login_ended o n g r) y b = (note_login-Effect t y.limiter o n g r).balanced b
step-IsBalanced t (reconciled tier n m) y b = (reconcile-Effect t y.limiter tier n m).balanced b
step-IsBalanced t reauthenticated y b = (reset_after_reauth-Effect t y.limiter).balanced b
step-IsBalanced t batch_begun y b = b
step-IsBalanced t batch_ended y b = b
step-IsBalanced t observed y b = (snapshot_counters-Effect t y.limiter).balanced b

run_keeps_balance :
    (schedule : List (Reading × Event)) (y : System)
    → IsBalanced y.limiter
    → IsBalanced (run schedule y).limiter
unfolding run
run_keeps_balance [] y b = b
run_keeps_balance ((t, e) ∷ rest) y b =
    run_keeps_balance rest (step t e y) (step-IsBalanced t e y b)

-- Whatever happens, in any interleaving and whatever the clocks read, the requests that are counted for
-- the day are the sum of those that are counted for each tier and for the logins.
pub calls_today-run :
    (c : RateLimitConfig) (t : Reading) (schedule : List (Reading × Event))
    → (run schedule (start c t)).limiter.calls_today
      ≡ total (run schedule (start c t)).limiter.calls_by_tier
unfolding start init total
calls_today-run c t schedule = sym (run_keeps_balance schedule (start c t) refl)
