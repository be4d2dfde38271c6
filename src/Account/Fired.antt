-- ===== src/Account/Fired.antt =====
-- custom_components/carnet_scolaire/account.py: which events a collection fires.
use ha_pronote_ng.Prelude.{
  either, ℕ, ◌+◌, ◌≡◌, refl, sym, ap, ◌∙◌, inl, inr, Bool, true, false, ◌&&◌, ◌||◌, Option, none,
  some, List, [], ◌∷◌, ◌++◌, String, arith, ◌⊎◌, subst, ◌>>=◌, if◌then◌else◌,
}
use mathlib.Core.List.{append-nil, append_assoc}
use ha_pronote_ng.Const.{Tier, same_tier, marks}
use ha_pronote_ng.Limiter.State.{Delay}
use ha_pronote_ng.Scheduler.State.{Instant, put}
use ha_pronote_ng.Delta.Context.{DeltaEvent}
use ha_pronote_ng.Account.State.{Snapshot, TierCoordinator, record_of, Account, publish}
use ha_pronote_ng.Account.Collect.{
  Published, published, account_after, Published-cases, Attempt, Loop, with_coordinator, failing,
  publish_session, publish_rest, publish_for, labelled, attempt, loop, finish, collect_known,
  collect, collected, deferred, blocked, failed, stopped, escaped, over,
}

chosen-none :
    {B : Type 0} (p q : Bool) (l : List B)
    → (p ≡ false) ⊎ (q ≡ false)
    → (if p && q then l else []) ≡ []
chosen-none p q l h = ground arith

chosen-all :
    {B : Type 0} (p q : Bool) (l : List B) → p ≡ true → q ≡ true → (if p && q then l else []) ≡ l
chosen-all p q l h k = ground arith

module _ {A : Type 0} where
  -- Every attempt produced a snapshot.
  abbrev pub all_collected : List (Attempt A) → Bool
  all_collected [] = true
  all_collected (attempt student (collected snapshot used detected) at retry_delay ∷ xs) =
      all_collected xs
  all_collected (attempt student _ at retry_delay ∷ xs) = false

  -- The events that the attempts detected, with their students.
  abbrev pub all_events : List (Attempt A) → List (String × DeltaEvent)
  all_events [] = []
  all_events (attempt student (collected snapshot used detected) at retry_delay ∷ xs) =
      labelled student detected ++ all_events xs
  all_events (attempt student _ at retry_delay ∷ xs) = all_events xs

  abbrev pub is_any : List (Attempt A) → Bool
  is_any [] = false
  is_any (x ∷ xs) = true

  -- What publishing leaves alone.
  abbrev Same : Account A → Account A → Type 0
  Same a b = (b.fired ≡ a.fired) × (b.scheduler ≡ a.scheduler)

  publish_session-Same :
      (facts : String → A) (now : ℕ) (student : String) (a : Account A)
      → Same a (account_after (publish_session facts now student a))
  unfolding publish_session
  publish_session-Same facts now student a = ground arith

  publish_rest-Same :
      (facts : Option (String → A)) (now : ℕ) (tier : Tier) (student : String) (a : Account A)
      (o : Option (TierCoordinator A))
      → Same a (account_after (publish_rest facts now tier student a o))
  publish_rest-Same facts now tier student a none = (refl, refl)
  publish_rest-Same none now tier student a (some c) = (refl, refl)
  publish_rest-Same (some f) now tier student a (some c) =
      let b = with_coordinator tier c a in
      either (λ (p : Published A). Same a (account_after p)) (same_tier tier marks)
        (publish_session f now student b) (published b) (publish_session-Same f now student b)
        (refl, refl)

  pub publish_for-Same :
      (facts : Option (String → A)) (now : ℕ) (tier : Tier) (student : String)
      (snapshot : Snapshot A) (a : Account A) (b : Account A)
      → account_after (publish_for facts now tier student snapshot a) ≡ b
      → (b.fired ≡ a.fired) × (b.scheduler ≡ a.scheduler)
  unfolding publish_for
  publish_for-Same facts now tier student snapshot a b e = subst (Same a) e (
      publish_rest-Same facts now tier student a (a.coordinators tier >>= publish student snapshot))

  -- What the loop says of the events, in each way in which it ends.
  abbrev Fires : List (Attempt A) → Bool → List (String × DeltaEvent) → Account A → Loop A → Type 0
  Fires xs succeeded events a (stopped b) = (b.fired ≡ a.fired) × (all_collected xs ≡ false)
  Fires xs succeeded events a (escaped b) = b.fired ≡ a.fired
  Fires xs succeeded events a (over b calls s found) =
      (b.fired ≡ a.fired)
      × (all_collected xs ≡ true)
      × (s ≡ (succeeded || is_any xs))
      × (found ≡ events ++ all_events xs)

  -- One more student before the loop.
  Fires-step :
      (student : String) (snapshot : Snapshot A) (used : ℕ) (detected : List DeltaEvent)
      (at : Instant) (r : Delay) (xs : List (Attempt A)) (succeeded : Bool)
      (events : List (String × DeltaEvent)) (a b : Account A) (y : Loop A)
      → b.fired ≡ a.fired
      → Fires xs true (events ++ labelled student detected) b y
      → Fires (attempt student (collected snapshot used detected) at r ∷ xs) succeeded events a y
  Fires-step student snapshot used detected at r xs succeeded events a b (stopped c) same h =
      (h.0 ∙ same, h.1)
  Fires-step student snapshot used detected at r xs succeeded events a b (escaped c) same h =
      h ∙ same
  Fires-step student snapshot used detected at r xs succeeded events a b (over c calls s found) same
        h =
      (
        h.0 ∙ same,
        h.1,
        ground arith,
        h.3 ∙ append_assoc events (labelled student detected) (all_events xs),
      )

  failing-fired :
      (tier : Tier) (at : Instant) (r : Delay) (a : Account A)
      → (failing tier at r a).fired ≡ a.fired
  unfolding failing
  failing-fired tier at r a = ground arith

  loop-Fires :
      (facts : Option (String → A)) (now : Instant → ℕ) (tier : Tier) (xs : List (Attempt A))
      (calls : ℕ) (succeeded : Bool) (events : List (String × DeltaEvent)) (a : Account A)
      → Fires xs succeeded events a (loop facts now tier xs calls succeeded events a)
  unfolding loop
  loop-Fires facts now tier [] calls succeeded events a =
      (refl, refl, ground arith, sym (append-nil events))
  loop-Fires facts now tier (attempt student (deferred retry_after) at r ∷ xs) calls succeeded
        events a =
      (refl, refl)
  loop-Fires facts now tier (attempt student blocked at r ∷ xs) calls succeeded events a =
      (failing-fired tier at r a, refl)
  loop-Fires facts now tier (attempt student failed at r ∷ xs) calls succeeded events a =
      (failing-fired tier at r a, refl)
  loop-Fires facts now tier (attempt student (collected snapshot used detected) at r ∷ xs) calls
        succeeded events a =
      elim (Published-cases (publish_for facts (now at) tier student snapshot a)) [
        | inl (b, e) ↦
            rw (e, loop)
              (publish_for-Same facts (now at) tier student snapshot a b (ap account_after e)).0
        | inr (b, e) ↦
            let same =
              publish_for-Same facts (now at) tier student snapshot a b (ap account_after e) in
            let h =
              loop-Fires facts now tier xs (calls + used) true (events ++ labelled student detected)
                b in
            rw (e, loop)
              (Fires-step student snapshot used detected at r xs succeeded events a b
                (loop facts now tier xs (calls + used) true (events ++ labelled student detected) b)
                same.0 h)
      ]

  pub collect-collect_known :
      (facts : Option (String → A)) (now : Instant → ℕ) (tier : Tier) (started t : Instant)
      (attempts : List (Attempt A)) (retry_delay : Delay) (a : Account A) (c : TierCoordinator A)
      → a.coordinators tier ≡ some c
      → collect facts now tier started attempts t retry_delay a
        ≡ collect_known facts now tier started attempts t retry_delay a
  unfolding collect
  collect-collect_known facts now tier started t attempts retry_delay a c there =
      rw (there, collect) refl

  fired_of : Loop A → List (String × DeltaEvent)
  fired_of (stopped b) = b.fired
  fired_of (escaped b) = b.fired
  fired_of (over b calls s found) = b.fired

  finish-Fires :
      (now : Instant → ℕ) (tier : Tier) (started t : Instant) (retry_delay : Delay)
      (xs : List (Attempt A)) (a b : Account A) (y : Loop A)
      → Fires xs false [] a y
      → finish now tier started t retry_delay y ≡ stopped b
      → b.fired ≡ a.fired ++ (if is_any xs && all_collected xs then all_events xs else [])
  unfolding finish fired_of
  finish-Fires now tier started t retry_delay xs a b (stopped d) h e =
      sym (ap fired_of e)
      ∙ h.0
      ∙ sym
          (ap (λ l. a.fired ++ l) (chosen-none _ _ (all_events xs) (inr h.1)) ∙ append-nil a.fired)
  finish-Fires now tier started t retry_delay xs a b (escaped d) h e = cc
  finish-Fires now tier started t retry_delay xs a b (over d calls false found) h e =
      sym (ap fired_of e)
      ∙ h.0
      ∙ sym (
          ap (λ l. a.fired ++ l) (chosen-none _ _ (all_events xs) (inl (sym h.2)))
          ∙ append-nil a.fired)
  finish-Fires now tier started t retry_delay xs a b (over d calls true found) h e =
      sym (ap fired_of e)
      ∙ ap (λ l. l ++ found) h.0
      ∙ ap (λ l. a.fired ++ l) (h.3 ∙ sym (chosen-all _ _ (all_events xs) (sym h.2) h.1))

-- The events that a collection fires which returns, so that no exception escapes it: all that it detected,
-- in the order of the students, if it produced a snapshot for every student and there is one; otherwise
-- none at all, whatever the others' snapshots detected.
pub collect-fired :
    {A : Type 0} (facts : Option (String → A)) (now : Instant → ℕ) (tier : Tier)
    (started t : Instant) (attempts : List (Attempt A)) (retry_delay : Delay) (a b : Account A)
    (c : TierCoordinator A)
    → a.coordinators tier ≡ some c
    → collect facts now tier started attempts t retry_delay a ≡ stopped b
    → b.fired
      ≡ a.fired ++ (if is_any attempts && all_collected attempts then all_events attempts else [])
unfolding collect_known
collect-fired facts now tier started t attempts retry_delay a b c there e =
    let a1 = record a { records = put tier (record_of (a.records tier)) a.records } in
    finish-Fires now tier started t retry_delay attempts a1 b
      (loop facts now tier attempts 0 false [] a1)
      (loop-Fires facts now tier attempts 0 false [] a1)
      (sym (collect-collect_known facts now tier started t attempts retry_delay a c there) ∙ e)
