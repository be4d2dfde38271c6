-- ===== src/Models/Lifetime.antt =====
-- custom_components/carnet_scolaire/models.py: what the session manager measured of the inactivity that
-- ends a session.
use ha_pronote_ng.Prelude.{
  ◌==◌, if◌then◌else◌, ℕ, zero, suc, ◌-◌, min, Option, none, some, List, [], ◌∷◌, ◌++◌, length,
}

pub record SessionLifetime : Type 0 where
  pub samples : List ℕ
  pub last_expiry : Option ℕ

-- `SessionLifetime()`
abbrev pub unmeasured : SessionLifetime
unmeasured = record { samples = []; last_expiry = none }

-- `xs[n:]`
abbrev pub drop {ℓ} : {A : Type ℓ} → ℕ → List A → List A
drop zero xs = xs
drop (suc n) [] = []
drop (suc n) (x ∷ xs) = drop n xs

-- `xs[-n:]`
abbrev pub last_ones {ℓ} : {A : Type ℓ} → ℕ → List A → List A
last_ones n xs = drop (if n == 0 then 0 else length xs - n) xs

-- `min(samples)`, `none` if there are none: `observed_minutes`, in microseconds
unfoldable pub observed : List ℕ → Option ℕ
observed [] = none
observed (x ∷ xs) = elim (observed xs) [ none ↦ some x | some m ↦ some (min x m) ]

-- `with_sample`
unfoldable pub with_sample : ℕ → ℕ → SessionLifetime → SessionLifetime
with_sample seconds at l = record {
  samples = last_ones 20 (l.samples ++ seconds ∷ []);
  last_expiry = some at;
}
