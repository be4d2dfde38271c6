-- ===== src/Account/Kept.antt =====
-- custom_components/carnet_scolaire/account.py: which snapshots a collection replaces.
use ha_pronote_ng.Prelude.{
  ℕ, ◌+◌, ◌≡◌, refl, sym, subst, inl, inr, Bool, true, false, ◌||◌, Option, none, some, List, [],
  ◌∷◌, ◌++◌, String, str_eq, arith, Option-cases,
}
use ha_pronote_ng.Const.{Tier}
use ha_pronote_ng.Limiter.State.{Delay}
use ha_pronote_ng.Scheduler.State.{Instant, put}
use ha_pronote_ng.Delta.Context.{DeltaEvent}
use ha_pronote_ng.Account.State.{TierCoordinator, record_of, Account, note_failure, snapshot_of}
use ha_pronote_ng.Account.Collect.{
  Attempt, attempt, Loop, with_failure, failing, publish_for, labelled, Published, account_after,
  Published-cases, loop, finish, collect_known, collect, collected, deferred, blocked, failed,
  stopped, escaped, over,
}
use ha_pronote_ng.Account.Fired.{collect-collect_known}
use ha_pronote_ng.Account.Published.{Keeps, Keeps-trans, with_coordinator-Keeps, publish_for-Keeps}

-- The account, however the loop ends.
abbrev pub account_of : {A : Type 0} → Loop A → Account A
account_of (stopped b) = b
account_of (escaped b) = b
account_of (over b calls found events) = b

module _ {A : Type 0} (s : String) where
  -- Whether the attempts collected a student.
  abbrev pub collects : List (Attempt A) → Bool
  collects [] = false
  collects (attempt student (collected snapshot used detected) at retry_delay ∷ xs) =
      str_eq student s || collects xs
  collects (attempt student _ at retry_delay ∷ xs) = collects xs

  with_failure-Keeps :
      (tier : Tier) (o : Option (TierCoordinator A)) (a : Account A)
      → a.coordinators tier ≡ o
      → Keeps s a (with_failure tier o a)
  unfolding note_failure
  with_failure-Keeps tier none a e = λ t. refl
  with_failure-Keeps tier (some c) a e = with_coordinator-Keeps s tier c (note_failure c) a e refl

  failing-Keeps :
      (tier : Tier) (at : Instant) (r : Delay) (a : Account A) → Keeps s a (failing tier at r a)
  unfolding failing snapshot_of
  failing-Keeps tier at r a = with_failure-Keeps tier (a.coordinators tier) a refl

  loop-Keeps :
      (facts : Option (String → A)) (now : Instant → ℕ) (tier : Tier) (xs : List (Attempt A))
      (calls : ℕ) (succeeded : Bool) (events : List (String × DeltaEvent)) (a : Account A)
      → collects xs ≡ false
      → Keeps s a (account_of (loop facts now tier xs calls succeeded events a))
  unfolding loop snapshot_of
  loop-Keeps facts now tier [] calls succeeded events a other = λ t. refl
  loop-Keeps facts now tier (attempt student (deferred w) at r ∷ xs) calls succeeded events a
        other =
      λ t. refl
  loop-Keeps facts now tier (attempt student blocked at r ∷ xs) calls succeeded events a other =
      failing-Keeps tier at r a
  loop-Keeps facts now tier (attempt student failed at r ∷ xs) calls succeeded events a other =
      failing-Keeps tier at r a
  loop-Keeps facts now tier (attempt student (collected sn used detected) at r ∷ xs) calls succeeded
        events a other =
      let (one, rest) : (str_eq student s ≡ false) × (collects xs ≡ false) = ground arith in
      let h = publish_for-Keeps s facts (now at) tier student sn a one in
      elim (Published-cases (publish_for facts (now at) tier student sn a)) [
        | inl (b, e) ↦ rw (e, loop) (subst (λ (p : Published A). Keeps s a (account_after p)) e h)
        | inr (b, e) ↦
            let h1 : Keeps s a b = subst (λ (p : Published A). Keeps s a (account_after p)) e h in
            let h2 =
              loop-Keeps facts now tier xs (calls + used) true (events ++ labelled student detected)
                b rest in
            rw (e, loop)
              (Keeps-trans s a b
                (account_of (
                  loop facts now tier xs (calls + used) true (events ++ labelled student detected)
                    b))
                h1 h2)
      ]

  finish-Keeps :
      (now : Instant → ℕ) (tier : Tier) (started t : Instant) (r : Delay) (a : Account A)
      (y : Loop A)
      → Keeps s a (account_of y)
      → Keeps s a (account_of (finish now tier started t r y))
  unfolding finish snapshot_of
  finish-Keeps now tier started t r a (stopped b) h = h
  finish-Keeps now tier started t r a (escaped b) h = h
  finish-Keeps now tier started t r a (over b calls false events) h = h
  finish-Keeps now tier started t r a (over b calls true events) h = h

-- A collection that fails for a student never overwrites a good snapshot: however it ends, each tier has the
-- snapshot that it had of every student for whom nothing was collected.
pub collect-Keeps :
    {A : Type 0} (facts : Option (String → A)) (now : Instant → ℕ) (tier : Tier)
    (started t : Instant) (attempts : List (Attempt A)) (retry_delay : Delay) (a : Account A)
    (s : String)
    → collects s attempts ≡ false
    → Keeps s a (account_of (collect facts now tier started attempts t retry_delay a))
unfolding collect_known collect snapshot_of
collect-Keeps {A = A} facts now tier started t attempts retry_delay a s other =
    elim (Option-cases (a.coordinators tier)) [
      | inl e ↦ rw (e, collect) (λ q. refl)
      | inr (c, e) ↦
          let a1 = record a { records = put tier (record_of (a.records tier)) a.records } in
          let known = collect-collect_known facts now tier started t attempts retry_delay a c e in
          subst (λ (y : Loop A). Keeps s a (account_of y)) (sym known)
            (finish-Keeps s now tier started t retry_delay a
              (loop facts now tier attempts 0 false [] a1)
              (loop-Keeps s facts now tier attempts 0 false [] a1 other))
    ]
