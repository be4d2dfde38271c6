-- ===== src/Limiter/HandoverErrors.antt =====
-- custom_components/carnet_scolaire/ratelimit.py: when `import_state` raises.
use ha_pronote_ng.Prelude.{
  ◌∙◌, Bool-cases, inl, inr, Option-cases, ◌>>=◌, Option, ◌⊎◌, ◌↔◌, ℕ, ◌≡◌, refl, ap, true, none,
  some, List, [], ◌∷◌, arith,
}
use ha_pronote_ng.Limiter.State.{RateLimiter, Reading}
use ha_pronote_ng.Limiter.Handover.{
  Handover, import_state, import_counters, import_punitive, import_hold, same_day, Field, absent,
  given, malformed, numbers, convert,
}

-- An item of the failed logins is too large for a float.
abbrev pub AnyTooLarge : List (Field ℕ) → Type 0
AnyTooLarge [] = ⊥
AnyTooLarge (x ∷ xs) = (x ≡ malformed) ⊎ AnyTooLarge xs

numbers-raises : (xs : List (Field ℕ)) → numbers xs ≡ none → AnyTooLarge xs
unfolding numbers
numbers-raises [] e = cc
numbers-raises (absent ∷ xs) e = inr (numbers-raises xs e)
numbers-raises (malformed ∷ xs) e = inl refl
numbers-raises (given n ∷ xs) e = elim (Option-cases (numbers xs)) [
  | inl q ↦ inr (numbers-raises xs q)
  | inr (ns, q) ↦ let k = rw (q, numbers) at e in cc
]

raises-numbers : (xs : List (Field ℕ)) → AnyTooLarge xs → numbers xs ≡ none
unfolding numbers
raises-numbers [] h = elim h [ ]
raises-numbers (absent ∷ xs) (inl e) = cc
raises-numbers (absent ∷ xs) (inr h) = raises-numbers xs h
raises-numbers (malformed ∷ xs) h = refl
raises-numbers (given n ∷ xs) (inl e) = cc
raises-numbers (given n ∷ xs) (inr h) = rw (raises-numbers xs h, numbers) refl

-- A field of the same day that is malformed.
abbrev pub AnyOfToday : Handover → Type 0
AnyOfToday h =
    (h.calls_today ≡ malformed)
    ⊎ (h.calls_by_tier ≡ malformed)
    ⊎ (h.logins_today ≡ malformed)
    ⊎ (h.tokens ≡ malformed)
    ⊎ (h.last_call ≡ malformed)
    ⊎ (h.refilled ≡ malformed)

-- A field of any day that is malformed, or an item of the failed logins.
abbrev pub AnyPunitive : Handover → Type 0
AnyPunitive h =
    (h.failed_logins ≡ malformed)
    ⊎ ((xs : List (Field ℕ)) × (h.failed_logins ≡ given xs) × AnyTooLarge xs)
    ⊎ (h.consecutive_failures ≡ malformed)
    ⊎ (h.hold_until ≡ malformed)

bind-none :
    {A B : Type 0} (o : Option A) (f : A → Option B)
    → (o >>= f) ≡ none
    → (o ≡ none) ⊎ ((a : A) × (o ≡ some a) × (f a ≡ none))
bind-none none f e = inl refl
bind-none (some a) f e = inr (a, refl, e)

convert-raises : {A : Type 0} (d : A) (x : Field A) → convert d x ≡ none → x ≡ malformed
unfolding convert
convert-raises d absent e = cc
convert-raises d (given a) e = cc
convert-raises d malformed e = refl

numbers-converted :
    (x : Field (List (Field ℕ))) (xs : List (Field ℕ))
    → convert [] x ≡ some xs
    → numbers xs ≡ none
    → (ys : List (Field ℕ)) × (x ≡ given ys) × AnyTooLarge ys
unfolding convert numbers
numbers-converted absent xs e q = let e' : [] ≡ xs = cc in let k = ap numbers e' ∙ q in cc
numbers-converted (given ys) xs e q =
    let e' : ys ≡ xs = cc in (ys, refl, numbers-raises ys (ap numbers e' ∙ q))
numbers-converted malformed xs e q = cc

import_counters-raises_iff :
    (h : Handover) (s : RateLimiter) → (import_counters h s ≡ none) ↔ AnyOfToday h
unfolding import_counters convert
import_counters-raises_iff h s = (λ e. ground arith, λ m. ground arith)

import_hold-raises_iff :
    (t : Reading) (h : Handover) (s : RateLimiter)
    → (import_hold t h s ≡ none) ↔ (h.hold_until ≡ malformed)
unfolding import_hold
import_hold-raises_iff t h s = (λ e. ground arith, λ m. ground arith)

import_punitive-raises :
    (t : Reading) (h : Handover) (s : RateLimiter) → import_punitive t h s ≡ none → AnyPunitive h
unfolding import_punitive
import_punitive-raises t h s e = elim (bind-none (convert [] h.failed_logins) _ e) [
  | inl q ↦ inl (convert-raises [] h.failed_logins q)
  | inr (xs, q, e2) ↦ elim (bind-none (numbers xs) _ e2) [
    | inl r ↦ inr (inl (numbers-converted h.failed_logins xs q r))
    | inr (failed, r, e3) ↦ elim (bind-none (convert 0 h.consecutive_failures) _ e3) [
      | inl z ↦ inr (inr (inl (convert-raises 0 h.consecutive_failures z)))
      | inr (n, z, e4) ↦ inr (
          inr (
            inr (
              (import_hold-raises_iff t h
                  (record s { failed_logins = failed; consecutive_failures = n })).0
                e4)))
    ]
  ]
]

bind_all-none :
    {A B : Type 0} (o : Option A) (f : A → Option B) → ((a : A) → f a ≡ none) → (o >>= f) ≡ none
bind_all-none none f h = refl
bind_all-none (some a) f h = h a

raises-import_punitive :
    (t : Reading) (h : Handover) (s : RateLimiter) → AnyPunitive h → import_punitive t h s ≡ none
unfolding import_punitive convert
raises-import_punitive t h s (inl e) = rw e refl
raises-import_punitive t h s (inr (inl (xs, e, large))) = rw (e, raises-numbers xs large) refl
raises-import_punitive t h s (inr (inr (inl e))) =
    bind_all-none (convert [] h.failed_logins) _
      (λ xs. bind_all-none (numbers xs) _ (λ failed. rw e refl))
raises-import_punitive t h s (inr (inr (inr e))) =
    bind_all-none (convert [] h.failed_logins) _ (λ xs. bind_all-none (numbers xs) _ (λ failed.
      bind_all-none (convert 0 h.consecutive_failures) _ (λ n.
        (import_hold-raises_iff t h
            (record s { failed_logins = failed; consecutive_failures = n })).1
          e)))

-- `import_state` raises exactly when it converts a malformed field: one of the counts, the bucket and the
-- spacing of the same day; or, of any day, the failed logins or one of them, the failures in a row, or the
-- end of the hold. A number that is tested before its conversion is malformed where it is too large for a
-- float.
pub import_state-raises_iff :
    (t : Reading) (h : Handover) (s : RateLimiter)
    → (import_state t (some h) s ≡ none) ↔ (((same_day h s ≡ true) × AnyOfToday h) ⊎ AnyPunitive h)
unfolding import_state
import_state-raises_iff t h s = (
  λ e. elim (Bool-cases (same_day h s)) [
    | inl today ↦
        let k = rw (today, import_state) at e in
        elim (bind-none (import_counters h s) _ k) [
          | inl q ↦ inl (today, (import_counters-raises_iff h s).0 q)
          | inr (s', q, r) ↦ inr (import_punitive-raises t h s' r)
        ]
    | inr other ↦ let k = rw (other, import_state) at e in inr (import_punitive-raises t h s k)
  ],
  λ m. elim m [
    | inl (today, any) ↦ rw (today, (import_counters-raises_iff h s).1 any) refl
    | inr any ↦ elim (Bool-cases (same_day h s)) [
      | inl today ↦ elim (Option-cases (import_counters h s)) [
        | inl q ↦ rw (today, q) refl
        | inr (s', q) ↦ rw (today, q) (raises-import_punitive t h s' any)
      ]
      | inr other ↦ rw other (raises-import_punitive t h s any)
    ]
  ],
)
