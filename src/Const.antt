-- ===== src/Const.antt =====
-- custom_components/carnet_scolaire/const.py: the tiers, their priorities and intervals, and the
-- units of time. An instant or a duration is a whole number of microseconds, which the source
-- holds in a float of seconds.
use ha_pronote_ng.Prelude.{
  Option, some, none, List, [], ◌∷◌, ◌==◌, ℕ, ◌*◌, Bool, true, false, String,
}

abbrev pub second : ℕ
second = 1000000

abbrev pub minute : ℕ
minute = 60 * second

abbrev pub hour : ℕ
hour = 3600 * second

abbrev pub day_length : ℕ
day_length = 24 * hour

pub data Tier : Type 0 where
  session timetable homework news discussions marks attendance evaluations menus static history :
      Tier

-- `Tier.value`
unfoldable pub tier_name : Tier → String
tier_name session = "session"
tier_name timetable = "timetable"
tier_name homework = "homework"
tier_name news = "news"
tier_name discussions = "discussions"
tier_name marks = "marks"
tier_name attendance = "attendance"
tier_name evaluations = "evaluations"
tier_name menus = "menus"
tier_name static = "static"
tier_name history = "history"

pub data Priority : Type 0 where
  critical gesture high normal low : Priority

-- `PRIORITY_RANK`
unfoldable pub priority_rank : Priority → ℕ
priority_rank critical = 0
priority_rank gesture = 1
priority_rank high = 1
priority_rank normal = 2
priority_rank low = 3

-- `priority in QUIET_HOURS_EXEMPT`
unfoldable pub quiet_hours_exempt : Priority → Bool
quiet_hours_exempt critical = true
quiet_hours_exempt gesture = true
quiet_hours_exempt high = false
quiet_hours_exempt normal = false
quiet_hours_exempt low = false

-- `TIER_PRIORITY`
unfoldable pub tier_priority : Tier → Priority
tier_priority session = critical
tier_priority timetable = high
tier_priority homework = high
tier_priority news = normal
tier_priority discussions = low
tier_priority marks = normal
tier_priority attendance = normal
tier_priority evaluations = low
tier_priority menus = low
tier_priority static = low
tier_priority history = low

-- The closed set of values of the limiter's state sensor.
pub data LimiterState : Type 0 where
  nominal throttled backoff quiet_hours credentials_hold bootstrap_failed : LimiterState

-- Where `tier.value` stands in alphabetical order.
unfoldable pub name_order : Tier → ℕ
name_order attendance = 0
name_order discussions = 1
name_order evaluations = 2
name_order history = 3
name_order homework = 4
name_order marks = 5
name_order menus = 6
name_order news = 7
name_order session = 8
name_order static = 9
name_order timetable = 10

-- `a is b`
unfoldable pub same_tier : Tier → Tier → Bool
same_tier a b = name_order a == name_order b

-- The members of `Tier`.
abbrev pub all_tiers : List Tier
all_tiers =
    session ∷ timetable ∷ homework ∷ news ∷ discussions ∷ marks ∷ attendance ∷ evaluations ∷ menus
    ∷ static ∷ history ∷ []

-- `DEFAULT_TIER_INTERVALS`, in minutes
unfoldable pub default_interval : Tier → Option ℕ
default_interval session = none
default_interval timetable = some 15
default_interval homework = some 30
default_interval news = some 60
default_interval discussions = some 60
default_interval marks = some 180
default_interval attendance = some 360
default_interval evaluations = some 720
default_interval menus = some 1440
default_interval static = some 1440
default_interval history = some 1440
