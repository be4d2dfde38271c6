-- ===== src/Limiter/Bucket.antt =====
-- custom_components/carnet_scolaire/ratelimit.py: the token bucket and its wait.
use native.Mathlib.Decide.{dec_le}
use native.Mathlib.Nat.{mul-le-mul_right}
use ha_pronote_ng.Prelude.{
  leb-false→lt, leb→le, ◌⊎◌, ◌↔◌, ℕ, ◌+◌, ◌-◌, ◌*◌, ◌≤◌, ◌<◌, ◌≡◌, inl, inr, arith, Bool-cases,
}
use ha_pronote_ng.Prelude.Int.{
  neg_part_of_pos, le-min_ℤ, pos, pos_part, neg_part, sub_ℕ, ◌+ℤ◌, ◌-ℤ◌, ◌≤ℤ◌, leb_ℤ, int_laws,
  min_ℤ-le_left, min_ℤ-le_right,
}
use ha_pronote_ng.Const.{hour}
use ha_pronote_ng.Limiter.State.{RateLimiter, Reading, ticks}
use ha_pronote_ng.Limiter.Layers.{refill, div_up, token_wait}

div_up-mul : (units rate : ℕ) → 0 < rate → units ≤ div_up units rate * rate
unfolding div_up
div_up-mul units rate h = grind arith

-- One tick less would not do.
div_up-least : (units rate : ℕ) → 0 < rate → 0 < units → (div_up units rate - 1) * rate < units
unfolding div_up
div_up-least units rate h u = grind arith

div_up-pos : (units rate : ℕ) → 0 < rate → 0 < units → 0 < div_up units rate
unfolding div_up
div_up-pos units rate h u = grind arith

-- The bucket never holds more than a burst.
pub refill-le :
    (t : Reading) (s : RateLimiter) → (refill t s).tokens ≤ℤ pos (s.config.burst_size * hour)
unfolding refill
refill-le t s = min_ℤ-le_left _ _

mul_mono : (a b c r : ℕ) → a + b ≤ c → a * r + b * r ≤ c * r
mul_mono a b c r h = omega (arith, mul-le-mul_right r h)

mul_mono' : (a b c r : ℕ) → c ≤ a + b → c * r ≤ a * r + b * r
mul_mono' a b c r h = omega (arith, mul-le-mul_right r h)

module _ (t : Reading) (s : RateLimiter) where
  -- What `k` microseconds bring is there after them.
  pub refill-ge :
      (k n : ℕ)
      → s.refilled + k ≤ t.clock
      → n ≤ s.config.burst_size * hour
      → pos n ≤ℤ s.tokens +ℤ pos (k * s.config.max_requests_per_hour)
      → pos n ≤ℤ (refill t s).tokens
  unfolding refill
  refill-ge k n h b g =
      le-min_ℤ (pos n) _ _ (omega arith)
        (omega (int_laws, mul_mono s.refilled k t.clock s.config.max_requests_per_hour h))

  -- What `k` microseconds do not bring is not there before them.
  pub refill-lt :
      (k n : ℕ)
      → t.clock ≤ s.refilled + k
      → ¬ (pos n ≤ℤ s.tokens +ℤ pos (k * s.config.max_requests_per_hour))
      → ¬ (pos n ≤ℤ (refill t s).tokens)
  unfolding refill
  refill-lt k n h g f = g (
      omega (
        int_laws,
        mul_mono' s.refilled k t.clock s.config.max_requests_per_hour h,
        min_ℤ-le_right (pos (s.config.burst_size * hour)) (
            s.tokens
            +ℤ sub_ℕ (t.clock * s.config.max_requests_per_hour)
                (s.refilled * s.config.max_requests_per_hour)),
        f,
      ))

-- The units that a wait for tokens brings: enough, and without its last microsecond too few.
token_wait_units :
    (cost w : ℕ) (s : RateLimiter)
    → token_wait cost s ≡ ticks w
    → (pos (cost * hour) ≤ℤ s.tokens +ℤ pos (w * s.config.max_requests_per_hour))
      × ((w ≡ 0)
          ⊎ ((0 < w)
              × ¬ (
                  pos (cost * hour) ≤ℤ s.tokens +ℤ pos ((w - 1) * s.config.max_requests_per_hour))))
unfolding token_wait
token_wait_units cost w s e = elim (Bool-cases (leb_ℤ (pos (cost * hour)) s.tokens)) [
  | inl full ↦
      (let none_ : w ≡ 0 = ground arith in
        (rw none_ (omega (int_laws, leb→le _ _ full)), inl none_))
  | inr short ↦
      (let rate = s.config.max_requests_per_hour in
        let units = pos_part (pos (cost * hour) -ℤ s.tokens) in
        let positive : 0 < rate = ground arith in
        let w-eq : w ≡ div_up units rate = ground arith in
        let missing : 0 < units = omega (int_laws, leb-false→lt _ _ short) in
        let exact : neg_part (pos (cost * hour) -ℤ s.tokens) ≡ 0 = neg_part_of_pos _ missing in
        rw w-eq (
          omega (int_laws, div_up-mul units rate positive),
          inr (
            div_up-pos units rate positive missing,
            λ h. omega (int_laws, h, div_up-least units rate positive missing),
          ),
        ))
]

-- The wait for tokens is exact: for a cost of at most a burst, the bucket, refilled at a later
-- reading, holds the cost exactly when the wait is over.
pub token_wait_exact :
    (t : Reading) (cost w : ℕ) (s : RateLimiter)
    → cost ≤ s.config.burst_size
    → s.refilled ≤ t.clock
    → token_wait cost s ≡ ticks w
    → (pos (cost * hour) ≤ℤ (refill t s).tokens) ↔ (s.refilled + w ≤ t.clock)
token_wait_exact t cost w s fits later e =
    let (enough, least) = token_wait_units cost w s e in
    (
      λ holds. elim (dec_le (s.refilled + w) t.clock) [
        | yes over ↦ over
        | no early ↦ elim least [
          | inl none_ ↦ omega arith
          | inr (positive, short) ↦
              absurd (refill-lt t s (w - 1) (cost * hour) (omega arith) short holds)
        ]
      ],
      λ over. refill-ge t s w (cost * hour) over (omega arith) enough,
    )
