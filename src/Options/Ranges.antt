-- ===== src/Options/Ranges.antt =====
-- custom_components/carnet_scolaire/options.py: which configurations of the limiter are built.
use ha_pronote_ng.Prelude.{
  ℕ, ◌*◌, ◌/◌, ◌≤◌, ◌≡◌, refl, ap, true, Option, none, some, String, arith, some_or, leb, ◌&&◌,
}
use ha_pronote_ng.Const.{Tier, second, hour, day_length}
use ha_pronote_ng.Limiter.State.{RateLimitConfig}
use ha_pronote_ng.Options.Read.{
  Key, Number, finite, plus_infinity, minus_infinity, nan, Stored, number, unreadable, too_large,
  less, larger, smaller, ones, option_range, tier_interval_range, clamped, range_of, bounded_option,
  int, duration,
}
use ha_pronote_ng.Options.Read as Read
use ha_pronote_ng.Options.Config.{
  Options, StoredTime, a_time, a_text, as_time, first_of, build_rate_limit_config, interval_of,
}
use ha_pronote_ng.Options.Clamp.{is_clean, Within, bounded_option-Within}

abbrev Between : ℕ → ℕ → Option ℕ → Type 0
Between low high o = (n : ℕ) × (o ≡ some n) × (low ≤ n) × (n ≤ high)

duration-Between :
    (low high : ℕ) (x : Option Number) → Within low high x → Between low high (duration x)
unfolding duration
duration-Between low high x (n, e, l, h) = (n, ap duration e, l, h)

int-Between :
    (low high : ℕ) (x : Option Number) → Within (ones low) (ones high) x → Between low high (int x)
unfolding int
int-Between low high x (n, e, l, h) = (n / second, ap int e, omega arith, omega arith)

-- The options read without an exception, and the texts that stand for no time that is stored.
pub record IsClean (fromisoformat : String → Option ℕ) (options : Options) : Type 0 where
  pub numbers : (key : Key) → is_clean (options.numbers key) ≡ true
  pub opening : ℕ
  pub closing : ℕ
  pub opens : fromisoformat "22:00:00" ≡ some opening
  pub closes : fromisoformat "06:00:00" ≡ some closing

first_of-some : (x y : Option ℕ) (b : ℕ) → y ≡ some b → (t : ℕ) × (first_of x y ≡ some t)
first_of-some none y b e = (b, e)
first_of-some (some a) y b e = (a, refl)

as_time-some :
    (fromisoformat : String → Option ℕ) (raw : Option StoredTime) (fallback : String) (b : ℕ)
    → fromisoformat fallback ≡ some b
    → (t : ℕ) × (as_time fromisoformat raw fallback ≡ some t)
unfolding as_time
as_time-some fromisoformat none fallback b e = first_of-some (fromisoformat "None") _ b e
as_time-some fromisoformat (some (a_time t)) fallback b e = (t, refl)
as_time-some fromisoformat (some (a_text s)) fallback b e = first_of-some (fromisoformat s) _ b e

-- The ranges of the configuration of a limiter; a duration is in microseconds.
pub record IsWithinRanges (c : RateLimitConfig) : Type 0 where
  pub spaced : (second / 5 ≤ c.min_request_interval) × (c.min_request_interval ≤ 10 * second)
  pub hourly : (30 ≤ c.max_requests_per_hour) × (c.max_requests_per_hour ≤ 2000)
  pub burst : (5 ≤ c.burst_size) × (c.burst_size ≤ 100)
  pub daily : (100 ≤ c.max_requests_per_day) × (c.max_requests_per_day ≤ 20000)
  pub waits : (5 * second ≤ c.max_wait) × (c.max_wait ≤ 300 * second)
  pub logins : (5 ≤ c.max_logins_per_day) × (c.max_logins_per_day ≤ 500)
  pub failed : (1 ≤ c.max_failed_logins_per_hour) × (c.max_failed_logins_per_hour ≤ 10)
  pub credentials : (300 * second ≤ c.credentials_hold) × (c.credentials_hold ≤ day_length)
  pub bootstrap : (600 * second ≤ c.bootstrap_hold) × (c.bootstrap_hold ≤ day_length)
  pub base : (5 * second ≤ c.backoff_base) × (c.backoff_base ≤ 300 * second)
  pub most : (60 * second ≤ c.backoff_max) × (c.backoff_max ≤ 6 * hour)

module _ (fromisoformat : String → Option ℕ) (options : Options)
    (clean : IsClean fromisoformat options) where
  whole-Between :
      (key : Key) (default low high : ℕ)
      → option_range key ≡ some (ones low, ones high)
      → (leb low default && leb default high) ≡ true
      → Between low high (int (bounded_option options.numbers key (ones default) none))
  whole-Between key default low high r h =
      int-Between low high (bounded_option options.numbers key (ones default) none) (
        bounded_option-Within options.numbers key none (ones default) (ones low) (ones high) r
          (ground arith) (ground arith) (clean.numbers key))

  span-Between :
      (key : Key) (default low high : ℕ)
      → option_range key ≡ some (low, high)
      → (leb low default && leb default high) ≡ true
      → Between low high (duration (bounded_option options.numbers key default none))
  span-Between key default low high r h =
      duration-Between low high (bounded_option options.numbers key default none) (
        bounded_option-Within options.numbers key none default low high r (ground arith)
          (ground arith) (clean.numbers key))

-- The interval of a tier lies between one minute and a day, whatever is stored for it.
interval_of-Between :
    (options : Options) (tier : Tier) (default : ℕ)
    → 1 ≤ default
    → default ≤ 1440
    → is_clean (options.numbers (Read.tier_interval tier)) ≡ true
    → Between 1 1440 (interval_of options tier default)
unfolding interval_of
interval_of-Between options tier default h k clean =
    let key = Read.tier_interval tier in
    int-Between 1 1440
      (bounded_option options.numbers key (ones default) (some tier_interval_range))
      (bounded_option-Within options.numbers key (some tier_interval_range) (ones default) (ones 1)
        (ones 1440) refl (omega arith) (omega arith) clean)

-- Whatever numbers and times are stored, out of their ranges or unreadable, a configuration of the limiter
-- is built and each of its numbers lies in its range, where no number that is stored is `nan` or too large
-- for a float, and the two default times are read.
pub build_rate_limit_config-IsWithinRanges :
    (fromisoformat : String → Option ℕ) (options : Options)
    → IsClean fromisoformat options
    → (c : RateLimitConfig) × (build_rate_limit_config fromisoformat options ≡ some c)
      × IsWithinRanges c
unfolding build_rate_limit_config option_range
build_rate_limit_config-IsWithinRanges f options clean =
    let (n₁, e₁, l₁, u₁) =
      span-Between f options clean Read.min_request_interval (ones 1) (second / 5) (ones 10) refl
        refl in
    let (n₂, e₂, l₂, u₂) =
      whole-Between f options clean Read.max_requests_per_hour 240 30 2000 refl refl in
    let (n₃, e₃, l₃, u₃) = whole-Between f options clean Read.burst_size 20 5 100 refl refl in
    let (n₄, e₄, l₄, u₄) =
      whole-Between f options clean Read.max_requests_per_day 2000 100 20000 refl refl in
    let (n₅, e₅, l₅, u₅) =
      span-Between f options clean Read.max_wait (ones 60) (ones 5) (ones 300) refl refl in
    let (n₆, e₆, l₆, u₆) =
      whole-Between f options clean Read.max_logins_per_day 24 5 500 refl refl in
    let (n₇, e₇, l₇, u₇) =
      whole-Between f options clean Read.max_failed_logins_per_hour 3 1 10 refl refl in
    let (n₈, e₈, l₈, u₈) =
      span-Between f options clean Read.credentials_hold (ones 3600) (ones 300) (ones 86400) refl
        refl in
    let (n₉, e₉, l₉, u₉) =
      span-Between f options clean Read.bootstrap_hold (ones 3600) (ones 600) (ones 86400) refl
        refl in
    let (m₁, d₁, k₁, v₁) =
      span-Between f options clean Read.backoff_base (ones 30) (ones 5) (ones 300) refl refl in
    let (m₂, d₂, k₂, v₂) =
      span-Between f options clean Read.backoff_max (ones 3600) (ones 60) (ones 21600) refl refl in
    let (opens, o) = as_time-some f options.quiet_start "22:00:00" clean.opening clean.opens in
    let (closes, c) = as_time-some f options.quiet_end "06:00:00" clean.closing clean.closes in
    (
      record {
        min_request_interval = n₁;
        max_requests_per_hour = n₂;
        burst_size = n₃;
        max_requests_per_day = n₄;
        max_wait = n₅;
        max_logins_per_day = n₆;
        max_failed_logins_per_hour = n₇;
        credentials_hold = n₈;
        bootstrap_hold = n₉;
        backoff_base = m₁;
        backoff_max = m₂;
        quiet_hours_enabled = some_or options.quiet_hours_enabled true;
        quiet_start = opens;
        quiet_end = closes;
      },
      rw (e₁, e₂, e₃, e₄, e₅, e₆, e₇, e₈, e₉, d₁, d₂, o, c, build_rate_limit_config) refl,
      record {
        spaced = (l₁, u₁);
        hourly = (l₂, u₂);
        burst = (l₃, u₃);
        daily = (l₄, u₄);
        waits = (l₅, u₅);
        logins = (l₆, u₆);
        failed = (l₇, u₇);
        credentials = (l₈, u₈);
        bootstrap = (l₉, u₉);
        base = (k₁, v₁);
        most = (k₂, v₂);
      },
    )
