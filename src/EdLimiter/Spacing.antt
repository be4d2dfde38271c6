-- ===== src/EdLimiter/Spacing.antt =====
-- custom_components/carnet_scolaire/connectors/ecoledirecte/ed_limiter.py: when admitted requests are stamped.
use ha_pronote_ng.Prelude.Int.{ℤ, pos, ◌+ℤ◌, ◌≤ℤ◌, int_laws}
use ha_pronote_ng.Prelude.{
  sym, ap, ◌⊎◌, ◌∙◌, String, refl, not, ◌&&◌, false, inl, inr, none, Bool-cases, ◌==◌, subst, ℕ,
  ◌+◌, max, ◌≡◌, Bool, true, Option, if◌then◌else◌, ℕ, ◌+◌, ◌≤◌, ◌≡◌, Bool, false, some, arith,
}
use ha_pronote_ng.Const.{quiet_hours_exempt, Priority}
use ha_pronote_ng.Limiter.State.{
  DeferReason, refuse, RateLimitConfig, Delay, ticks, forever, max_delay, Verdict,
  cap_warning_fraction, ticks, refuse, Reading,
}
use ha_pronote_ng.EdLimiter.State.{
  roll_day, record_cost, in_quiet_hours, batch_may_finish, spacing, bucket, wait, refill,
  EdRateLimiter, hold_active,
}
use ha_pronote_ng.EdLimiter.Calls.{
  Admission, admit, admit_verdict, verdict_wait, verdict_cap, verdict_today, reaches, sheds,
  verdict,
}

some_eq : (a b : Verdict) → some a ≡ some b → a ≡ b
some_eq a b h = cc

spacing_over :
    (t : Reading) (s : EdRateLimiter) (d : Delay) (w : ℕ)
    → max_delay (spacing t s) d ≡ ticks w
    → pos s.config.min_request_interval +ℤ s.last_call ≤ℤ pos (t.clock + w)
unfolding max_delay spacing
spacing_over t s (ticks b) w h = let e : max (spacing t s) b ≡ w = cc in omega (int_laws, e)
spacing_over t s forever w h = cc

-- What a verdict that admits a request with a finite wait says of the state that it left.
record Spaces (t : Reading) (s : EdRateLimiter) (v : Verdict) : Type 0 where
  over :
      v.allowed ≡ true
      → (w : ℕ) → v.wait ≡ ticks w
      → pos s.config.min_request_interval +ℤ s.last_call ≤ℤ pos (t.clock + w)

verdict_wait-Spaces :
    (t : Reading) (cost : ℕ) (s : EdRateLimiter) → Spaces t s (verdict_wait t cost s).1
unfolding verdict_wait wait
verdict_wait-Spaces t cost s = record {
  over = λ a w h. spacing_over t s (bucket cost (refill t s)) w (ground arith);
}

module _ {t : Reading} {s : EdRateLimiter} where
  -- A refusal asks nothing.
  Spaces-if :
      (b : Bool) (x y : EdRateLimiter × Verdict)
      → x.1.allowed ≡ false
      → Spaces t s y.1
      → Spaces t s (if b then x else y).1
  Spaces-if true x y e f = record { over = λ a w h. cc }
  Spaces-if false x y e f = f

-- The same of a verdict that may be an exception, for a state that may have been changed elsewhere.
record Grants (t : Reading) (s : EdRateLimiter) (x : EdRateLimiter × Option Verdict) : Type 0 where
  same_config : x.0.config ≡ s.config
  same_stamp : x.0.last_call ≡ s.last_call
  spaces : (v : Verdict) → x.1 ≡ some v → Spaces t s v

module _ {t : Reading} {s : EdRateLimiter} where
  Grants-if :
      (b : Bool) (x y : EdRateLimiter × Option Verdict)
      → Grants t s x
      → Grants t s y
      → Grants t s (if b then x else y)
  Grants-if true x y f g = f
  Grants-if false x y f g = g

verdict_cap-Spaces :
    (t : Reading) (p : Priority) (cost : ℕ) (s : EdRateLimiter)
    → Spaces t s (verdict_cap t p cost s).1
unfolding verdict_cap
verdict_cap-Spaces t p cost s =
    let s' = record s {
      cap_warning_open = if reaches s cap_warning_fraction then true else s.cap_warning_open;
    } in
    Spaces-if (sheds p s') _ _ refl (record { over = (verdict_wait-Spaces t cost s').over })

verdict_cap-kept :
    (t : Reading) (p : Priority) (cost : ℕ) (s : EdRateLimiter)
    → ((verdict_cap t p cost s).0.config ≡ s.config)
      × ((verdict_cap t p cost s).0.last_call ≡ s.last_call)
unfolding verdict_cap verdict_wait wait refill
verdict_cap-kept t p cost s = ground arith

verdict_today-Grants :
    (t : Reading) (p : Priority) (cost : ℕ) (s : EdRateLimiter)
    → Grants t s (verdict_today t p cost s)
unfolding verdict_today
verdict_today-Grants t p cost s =
    let (c, l) = verdict_cap-kept t p cost s in
    Grants-if (s.config.max_requests_per_day == 0) _ _
      (record { same_config = refl; same_stamp = refl; spaces = λ v e. cc })
      (record {
        same_config = c;
        same_stamp = l;
        spaces = λ v e. subst (Spaces t s) (some_eq _ _ e) (verdict_cap-Spaces t p cost s);
      })

-- A verdict on a state that has the configuration and the stamp of another grants what it grants there.
Grants-same :
    (t : Reading) (s s' : EdRateLimiter) (x : EdRateLimiter × Option Verdict)
    → s'.config ≡ s.config
    → s'.last_call ≡ s.last_call
    → Grants t s' x
    → Grants t s x
Grants-same t s s' x c l g = record {
  same_config = g.same_config ∙ c;
  same_stamp = g.same_stamp ∙ l;
  spaces = λ v e. record {
    over = λ a w h.
        subst
          (λ (k : RateLimitConfig). pos k.min_request_interval +ℤ s.last_call ≤ℤ pos (t.clock + w))
          c
          (subst (λ (x : ℤ). pos s'.config.min_request_interval +ℤ x ≤ℤ pos (t.clock + w)) l
            ((g.spaces v e).over a w h));
  };
}

refused-Grants :
    (t : Reading) (s s' : EdRateLimiter) (w : Delay) (reason : DeferReason)
    → s'.config ≡ s.config
    → s'.last_call ≡ s.last_call
    → Grants t s (s', some (refuse w reason))
refused-Grants t s s' w reason c l = record {
  same_config = c;
  same_stamp = l;
  spaces = λ v e. subst (Spaces t s) (some_eq _ _ e) (record { over = λ a w h. cc });
}

hold_active-kept :
    (t : Reading) (s : EdRateLimiter)
    → ((hold_active t s).0.config ≡ s.config) × ((hold_active t s).0.last_call ≡ s.last_call)
unfolding hold_active
hold_active-kept t s = ground arith

roll_day-kept :
    (t : Reading) (s : EdRateLimiter)
    → ((roll_day t s).config ≡ s.config) × ((roll_day t s).last_call ≡ s.last_call)
unfolding roll_day
roll_day-kept t s = ground arith

verdict-Grants :
    (t : Reading) (p : Priority) (cost : ℕ) (s : EdRateLimiter) → Grants t s (verdict t p cost s)
unfolding verdict
verdict-Grants t p cost s =
    let (s', held) = hold_active t s in
    let (c, l) = hold_active-kept t s in
    let (c', l') = roll_day-kept t s' in
    Grants-if held _ _ (refused-Grants t s s' _ _ c l) (
      Grants-if (not (quiet_hours_exempt p) && in_quiet_hours t s' && not (batch_may_finish t s')) _
        _ (refused-Grants t s s' _ _ c l)
        (Grants-same t s (roll_day t s') _ (c' ∙ c) (l' ∙ l)
          (verdict_today-Grants t p cost (roll_day t s'))))

last_call-record_cost :
    (t : Reading) (key : String) (cost : ℕ) (s : EdRateLimiter)
    → (record_cost t key cost s).last_call ≡ pos t.clock
unfolding record_cost
last_call-record_cost t key cost s = refl

pub admitted_eq : (a b : EdRateLimiter) → Admission.admitted a ≡ Admission.admitted b → a ≡ b
admitted_eq a b h = cc

Delay-cases : (d : Delay) → (d ≡ forever) ⊎ ((n : ℕ) × (d ≡ ticks n))
Delay-cases (ticks n) = inr (n, refl)
Delay-cases forever = inl refl

-- An admission with a finite wait records the requests at the end of the sleep.
pub admitted_at :
    (t : Reading) (woken : ℕ → Reading) (key : String) (cost : ℕ) (u s' : EdRateLimiter)
    (v : Verdict)
    → admit_verdict t woken key cost (u, some v) ≡ Admission.admitted s'
    → (v.allowed ≡ true) × ((n : ℕ) × (v.wait ≡ ticks n) × (record_cost (woken n) key cost u ≡ s'))
unfolding admit_verdict
admitted_at t woken key cost u s' v h = elim (Bool-cases v.allowed) [
  | inr e ↦ let k = rw e at h in cc
  | inl e ↦ elim (Delay-cases v.wait) [
    | inl e' ↦ let k = rw (e, e') at h in cc
    | inr (n, e') ↦ let k = rw (e, e') at h in (e, (n, e', admitted_eq _ _ k))
  ]
]

admit_verdict-spaced :
    (t : Reading) (woken : ℕ → Reading) (key : String) (cost : ℕ) (s s' : EdRateLimiter)
    (x : EdRateLimiter × Option Verdict)
    → ((n : ℕ) → t.clock + n ≤ (woken n).clock)
    → Grants t s x
    → admit_verdict t woken key cost x ≡ Admission.admitted s'
    → pos s.config.min_request_interval +ℤ s.last_call ≤ℤ s'.last_call
unfolding admit_verdict
admit_verdict-spaced t woken key cost s s' (u, none) later g h = cc
admit_verdict-spaced t woken key cost s s' (u, some v) later g h =
    let (a, (n, w, e)) = admitted_at t woken key cost u s' v h in
    let stamp : s'.last_call ≡ pos (woken n).clock =
      sym (ap (λ (z : EdRateLimiter). z.last_call) e)
      ∙ last_call-record_cost (woken n) key cost u in
    rw stamp (omega (int_laws, (g.spaces v refl).over a n w, later n))

-- The spacing of requests: whatever was refused or failed before, a request that is admitted is
-- stamped at least `min_request_interval` after the stamp of the one before it, where a sleep is not
-- shorter than it was asked to be.
pub admit_spaces :
    (t : Reading) (woken : ℕ → Reading) (key : String) (p : Priority) (cost : ℕ)
    (s s' : EdRateLimiter)
    → ((n : ℕ) → t.clock + n ≤ (woken n).clock)
    → admit t woken key p cost s ≡ Admission.admitted s'
    → pos s.config.min_request_interval +ℤ s.last_call ≤ℤ s'.last_call
unfolding admit
admit_spaces t woken key p cost s s' later h =
    admit_verdict-spaced t woken key cost s s' (verdict t p cost s) later
      (verdict-Grants t p cost s) h
