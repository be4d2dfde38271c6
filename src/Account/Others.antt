-- ===== src/Account/Others.antt =====
-- custom_components/carnet_scolaire/account.py: what `_async_collect` leaves of the other tiers.
use ha_pronote_ng.Prelude.{
  ap, ℕ, ◌+◌, ◌≡◌, sym, subst, inl, inr, Bool, true, false, Option, some, List, [], ◌∷◌, ◌++◌,
  String,
}
use ha_pronote_ng.Const.{Tier}
use ha_pronote_ng.Limiter.State.{Delay}
use ha_pronote_ng.Scheduler.State.{Instant, put}
use ha_pronote_ng.Delta.Context.{DeltaEvent}
use ha_pronote_ng.Account.State.{Snapshot, TierCoordinator, record_of, Account}
use ha_pronote_ng.Account.Collect.{
  Attempt, attempt, Loop, failing, publish_for, labelled, account_after, Published-cases, loop,
  finish, collect_known, collect, collected, deferred, blocked, failed, stopped, escaped, over,
}
use ha_pronote_ng.Account.Fired.{publish_for-Same, collect-collect_known}
use ha_pronote_ng.Account.Kept.{account_of}
use ha_pronote_ng.Account.Frame.{
  IsFramed, same_frame, IsFramed-trans, mark_collected-IsFramed, defer-IsFramed,
  mark_failed-IsFramed, Stays, publish_for-Stays, with_failure-Stays,
}

module _ {A : Type 0} where
  -- The collection of a tier: the scheduler has the other tiers as before, and no coordinator is gone.
  pub record IsApart (tier : Tier) (a b : Account A) : Type 0 where
    pub framed : IsFramed tier a.scheduler b.scheduler
    pub stays : Stays a b

  IsApart-trans :
      (tier : Tier) (a b c : Account A) → IsApart tier a b → IsApart tier b c → IsApart tier a c
  IsApart-trans tier a b c h k = record {
    framed = IsFramed-trans tier a.scheduler b.scheduler c.scheduler h.framed k.framed;
    stays = λ t there. k.stays t (h.stays t there);
  }

  publish_for-IsApart :
      (facts : Option (String → A)) (now : ℕ) (tier : Tier) (student : String)
      (snapshot : Snapshot A) (a b : Account A)
      → account_after (publish_for facts now tier student snapshot a) ≡ b
      → IsApart tier a b
  publish_for-IsApart facts now tier student snapshot a b e = record {
    framed =
        subst (IsFramed tier a.scheduler)
          (sym (publish_for-Same facts now tier student snapshot a b e).1)
          (same_frame tier a.scheduler);
    stays = publish_for-Stays facts now tier student snapshot a b e;
  }

  failing-IsApart :
      (tier : Tier) (at : Instant) (r : Delay) (a : Account A)
      → IsApart tier a (failing tier at r a)
  unfolding failing
  failing-IsApart tier at r a = record {
    framed = mark_failed-IsFramed at tier a.scheduler r;
    stays = with_failure-Stays tier (a.coordinators tier) a;
  }

  loop-IsApart :
      (facts : Option (String → A)) (now : Instant → ℕ) (tier : Tier) (xs : List (Attempt A))
      (calls : ℕ) (succeeded : Bool) (events : List (String × DeltaEvent)) (a : Account A)
      → IsApart tier a (account_of (loop facts now tier xs calls succeeded events a))
  unfolding loop
  loop-IsApart facts now tier [] calls succeeded events a = record {
    framed = same_frame tier a.scheduler;
    stays = λ t h. h;
  }
  loop-IsApart facts now tier (attempt student (deferred w) at r ∷ xs) calls succeeded events a =
      record { framed = defer-IsFramed at tier a.scheduler w; stays = λ t h. h }
  loop-IsApart facts now tier (attempt student blocked at r ∷ xs) calls succeeded events a =
      failing-IsApart tier at r a
  loop-IsApart facts now tier (attempt student failed at r ∷ xs) calls succeeded events a =
      failing-IsApart tier at r a
  loop-IsApart facts now tier (attempt student (collected sn used detected) at r ∷ xs) calls
        succeeded events a =
      elim (Published-cases (publish_for facts (now at) tier student sn a)) [
        | inl (b, e) ↦
            rw (e, loop)
              (publish_for-IsApart facts (now at) tier student sn a b (ap account_after e))
        | inr (b, e) ↦
            let found = events ++ labelled student detected in
            rw (e, loop)
              (IsApart-trans tier a b
                (account_of (loop facts now tier xs (calls + used) true found b))
                (publish_for-IsApart facts (now at) tier student sn a b (ap account_after e))
                (loop-IsApart facts now tier xs (calls + used) true found b))
      ]

  finish-IsApart :
      (now : Instant → ℕ) (tier : Tier) (started t : Instant) (r : Delay) (y : Loop A)
      → IsApart tier (account_of y) (account_of (finish now tier started t r y))
  unfolding finish
  finish-IsApart now tier started t r (stopped b) = record {
    framed = same_frame tier b.scheduler;
    stays = λ t h. h;
  }
  finish-IsApart now tier started t r (escaped b) = record {
    framed = same_frame tier b.scheduler;
    stays = λ t h. h;
  }
  finish-IsApart now tier started t r (over b calls false events) = record {
    framed = mark_failed-IsFramed t tier b.scheduler r;
    stays = λ t h. h;
  }
  finish-IsApart now tier started t r (over b calls true events) = record {
    framed = mark_collected-IsFramed t tier b.scheduler;
    stays = λ t h. h;
  }

  pub collect-IsApart :
      (facts : Option (String → A)) (now : Instant → ℕ) (tier : Tier) (started t : Instant)
      (attempts : List (Attempt A)) (retry_delay : Delay) (a : Account A) (c : TierCoordinator A)
      → a.coordinators tier ≡ some c
      → IsApart tier a (account_of (collect facts now tier started attempts t retry_delay a))
  unfolding collect_known
  collect-IsApart facts now tier started t attempts retry_delay a c there =
      let a1 = record a { records = put tier (record_of (a.records tier)) a.records } in
      let y = loop facts now tier attempts 0 false [] a1 in
      let h = loop-IsApart facts now tier attempts 0 false [] a1 in
      let k = finish-IsApart now tier started t retry_delay y in
      let both : IsApart tier a (account_of (finish now tier started t retry_delay y)) = record {
        framed =
            IsFramed-trans tier a.scheduler (account_of y).scheduler
              (account_of (finish now tier started t retry_delay y)).scheduler h.framed k.framed;
        stays = λ q known. k.stays q (h.stays q known);
      } in
      subst (λ (z : Loop A). IsApart tier a (account_of z))
        (sym (collect-collect_known facts now tier started t attempts retry_delay a c there)) both
