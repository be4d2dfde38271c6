-- ===== src/Account/Published.antt =====
-- custom_components/carnet_scolaire/account.py and coordinator.py: which snapshots a publication replaces.
use ha_pronote_ng.Prelude.{
  ℕ, ◌≡◌, refl, sym, ap, ◌∙◌, inl, inr, false, Option, none, some, String, str_eq, Bool-cases,
  Option-cases,
}
use ha_pronote_ng.Const.{Tier, same_tier, marks, session}
use ha_pronote_ng.Scheduler.Presses.{same_tier-eq}
use ha_pronote_ng.Account.State.{
  Snapshot, TierCoordinator, of_another, Account, publish, snapshot_of,
}
use ha_pronote_ng.Account.Collect.{
  with_coordinator, publish_session, publish_rest, publish_for, Published, published, account_after,
}
use ha_pronote_ng.Prelude.{either}

module _ {A : Type 0} (s : String) where
  -- Every tier has the snapshot of the student that it had.
  abbrev pub Keeps : Account A → Account A → Type 0
  Keeps a b = (t : Tier) → snapshot_of t s b ≡ snapshot_of t s a

  pub with_coordinator-Keeps :
      (tier : Tier) (c c' : TierCoordinator A) (a : Account A)
      → a.coordinators tier ≡ some c
      → c'.snapshots s ≡ c.snapshots s
      → Keeps a (with_coordinator tier c' a)
  unfolding snapshot_of
  with_coordinator-Keeps tier c c' a there same t = elim (Bool-cases (same_tier tier t)) [
    | inl e ↦
        let there' : a.coordinators t ≡ some c =
          ap a.coordinators (sym (same_tier-eq tier t e)) ∙ there in
        rw (e, there', snapshot_of) same
    | inr e ↦ rw (e, snapshot_of) refl
  ]

  snapshots_of : Option (TierCoordinator A) → Option (Snapshot A)
  snapshots_of none = none
  snapshots_of (some c) = c.snapshots s

  publish-snapshots :
      (student : String) (snapshot : Snapshot A) (c c' : TierCoordinator A)
      → str_eq student s ≡ false
      → publish student snapshot c ≡ some c'
      → c'.snapshots s ≡ c.snapshots s
  unfolding publish snapshots_of
  publish-snapshots student snapshot c c' other e =
      elim (Bool-cases (of_another student snapshot.student_id)) [
        | inl q ↦ let k = rw (q, publish) at e in cc
        | inr q ↦
            let k = rw (q, publish) at e in
            sym (ap (λ (o : Option (TierCoordinator A)). snapshots_of o) k) ∙ rw other refl
      ]

  pub Keeps-trans : (a b c : Account A) → Keeps a b → Keeps b c → Keeps a c
  Keeps-trans a b c h k t = k t ∙ h t

  publish_session-Keeps :
      (facts : String → A) (now : ℕ) (student : String) (a : Account A)
      → str_eq student s ≡ false
      → Keeps a (account_after (publish_session facts now student a))
  unfolding publish_session snapshot_of
  publish_session-Keeps facts now student a0 other =
      let a = record a0 { session_facts = some (facts student) } in
      elim (Option-cases (a0.coordinators session)) [
        | inl e ↦ rw (e, publish_session) (λ t. refl)
        | inr (c, e) ↦
            let sn : Snapshot A = record {
              facts = facts student;
              fetched_at = now;
              tier = session;
              calls = 0;
              student_id = some student;
            } in
            elim (Option-cases (publish student sn c)) [
              | inl q ↦ rw (e, q, publish_session) (λ t. refl)
              | inr (c', q) ↦
                  rw (e, q, publish_session)
                    (with_coordinator-Keeps session c c' a e
                      (publish-snapshots student sn c c' other q))
            ]
      ]

  publish_rest-Keeps :
      (facts : Option (String → A)) (now : ℕ) (tier : Tier) (student : String) (a : Account A)
      (c : TierCoordinator A)
      → str_eq student s ≡ false
      → Keeps a (with_coordinator tier c a)
      → Keeps a (account_after (publish_rest facts now tier student a (some c)))
  publish_rest-Keeps none now tier student a c other h = h
  publish_rest-Keeps (some f) now tier student a c other h =
      let b = with_coordinator tier c a in
      either (λ (p : Published A). Keeps a (account_after p)) (same_tier tier marks)
        (publish_session f now student b) (published b)
        (Keeps-trans a b (account_after (publish_session f now student b)) h
          (publish_session-Keeps f now student b other))
        h

  pub publish_for-Keeps :
      (facts : Option (String → A)) (now : ℕ) (tier : Tier) (student : String)
      (snapshot : Snapshot A) (a : Account A)
      → str_eq student s ≡ false
      → Keeps a (account_after (publish_for facts now tier student snapshot a))
  unfolding publish_for
  publish_for-Keeps facts now tier student snapshot a other =
      elim (Option-cases (a.coordinators tier)) [
        | inl e ↦ rw (e, publish_for) (λ t. refl)
        | inr (c, e) ↦ elim (Option-cases (publish student snapshot c)) [
          | inl q ↦ rw (e, publish_for, q) (λ t. refl)
          | inr (c', q) ↦
              rw (e, publish_for, q)
                (publish_rest-Keeps facts now tier student a c' other (
                  with_coordinator-Keeps tier c c' a e
                    (publish-snapshots student snapshot c c' other q)))
        ]
      ]
