-- ===== src/EdLimiter/Waiting.antt =====
-- custom_components/carnet_scolaire/connectors/ecoledirecte/ed_limiter.py: logins that wait for the lock at
-- once. `login` tests the cap outside of the lock and counts itself after it.
use ha_pronote_ng.Prelude.{ℕ, ◌+◌, ◌-◌, List, [], ◌∷◌, String, leb, max, ◌==◌, if◌then◌else◌}
use ha_pronote_ng.Const.{Priority, critical}
use ha_pronote_ng.Limiter.State.{Reading}
use ha_pronote_ng.EdLimiter.State.{EdRateLimiter, roll_day}
use ha_pronote_ng.EdLimiter.Calls.{Admission, admit}
use ha_pronote_ng.EdLimiter.Logins.{ed_login_cost_key, count_login}

-- The limiter, and how many logins have passed the test of the cap and are in `_admit`.
pub record Waiting : Type 0 where
  pub limiter : EdRateLimiter
  pub passed : ℕ

-- What a task does between two awaits: a login tests the cap; a login that has passed goes through
-- `_admit`, or is cancelled there; a call goes through `_admit`.
pub data Move : Type 0 where
  login_asks : Reading → Move
  login_admits : Reading → (woken : ℕ → Reading) → (cost : ℕ) → Move
  login_cancelled : Move
  call_admits : Reading → (woken : ℕ → Reading) → String → Priority → (cost : ℕ) → Move

-- The state in which an admission ends.
abbrev pub left_by : Admission → EdRateLimiter
left_by (Admission.admitted s) = s
left_by (Admission.deferred s wait reason) = s
left_by (Admission.asleep s) = s
left_by (Admission.crashed s) = s

-- The first part of `login`
unfoldable pub ask : Reading → Waiting → Waiting
ask t y =
    let s = roll_day t y.limiter in
    if leb s.config.max_logins_per_day s.logins_today
    then record y { limiter = s }
    else record { limiter = s; passed = y.passed + 1 }

-- The second part of `login`, if one has passed the first
unfoldable pub enter : Reading → (ℕ → Reading) → ℕ → Waiting → Waiting
enter t woken cost y = if y.passed == 0 then y else record {
  limiter = left_by (count_login (admit t woken ed_login_cost_key critical cost y.limiter));
  passed = y.passed - 1;
}

unfoldable pub move : Move → Waiting → Waiting
move (login_asks t) y = ask t y
move (login_admits t woken cost) y = enter t woken cost y
move login_cancelled y = record y { passed = y.passed - 1 }
move (call_admits t woken key priority cost) y = record y {
  limiter = left_by (admit t woken key priority cost y.limiter);
}

unfoldable pub moves : List Move → Waiting → Waiting
moves [] y = y
moves (e ∷ es) y = moves es (move e y)

-- The most logins that are in `_admit` at once.
unfoldable pub most_passed : List Move → Waiting → ℕ
most_passed [] y = y.passed
most_passed (e ∷ es) y = max y.passed (most_passed es (move e y))
