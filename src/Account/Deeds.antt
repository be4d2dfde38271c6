-- ===== src/Account/Deeds.antt =====
-- custom_components/carnet_scolaire/account.py: what a batch does, in order.
use ha_pronote_ng.Prelude.{
  ◌∙◌, ◌≡◌, ◌≢◌, ◌⊎◌, refl, ap, inl, inr, List, [], ◌∷◌, ◌++◌, map, Bool-cases,
}
use ha_pronote_ng.Const.{Tier}
use ha_pronote_ng.Scheduler.State.{Instant}
use ha_pronote_ng.Scheduler.Due.{due}
use ha_pronote_ng.Account.State.{Account}
use ha_pronote_ng.Account.Collect.{Loop, stopped, escaped, over}
use ha_pronote_ng.Account.Batch.{
  Outcome, Deed, batch_ended, roster_followed, interrupted, raised, Round, completed, Batch,
  Setting, batch_began, tier_collected, collect_tier, next, closing, serve, batch_of, run_batch,
}

-- What stands between the ends of a batch: the collections of the first tiers, of all where it comes to
-- its end.
pub record Serves (A : Type 0) (tiers : List Tier) (b : Batch A) : Type 0 where
  pub done : List Tier
  pub rest : List Tier
  pub parts : tiers ≡ done ++ rest
  pub deeds : b.deeds ≡ map tier_collected done
  pub whole : (rest ≡ []) ⊎ (b.outcome ≢ completed)

module _ {A : Type 0} (w : Setting A) (script : Tier → Round A) where
  next-Serves :
      (tier : Tier) (tiers : List Tier) (y : Loop A)
      → ((b : Account A) → Serves A tiers (serve w script tiers b))
      → Serves A (tier ∷ tiers) (next w script tier y (serve w script tiers))
  next-Serves tier tiers (stopped b) h =
      let k = h b in
      record {
        done = tier ∷ k.done;
        rest = k.rest;
        parts = ap (λ l. tier ∷ l) k.parts;
        deeds = ap (λ l. tier_collected tier ∷ l) k.deeds;
        whole = k.whole;
      }
  next-Serves tier tiers (escaped b) h = record {
    done = tier ∷ [];
    rest = tiers;
    parts = refl;
    deeds = refl;
    whole = inr (λ e. cc);
  }
  next-Serves tier tiers (over b calls succeeded events) h = record {
    done = tier ∷ [];
    rest = tiers;
    parts = refl;
    deeds = refl;
    whole = inr (λ e. cc);
  }

  serve-Serves : (tiers : List Tier) (a : Account A) → Serves A tiers (serve w script tiers a)
  unfolding serve
  serve-Serves [] a = record { done = []; rest = []; parts = refl; deeds = refl; whole = inl refl }
  serve-Serves (tier ∷ tiers) a = elim (Bool-cases (script tier).stopping) [
    | inl q ↦
        rw (q, serve)
          (record {
            done = [];
            rest = tier ∷ tiers;
            parts = refl;
            deeds = refl;
            whole = inr (λ e. cc);
          })
    | inr q ↦
        rw (q, serve) (next-Serves tier tiers (collect_tier w script tier a) (serve-Serves tiers))
  ]

  batch_of-Serves :
      (x : Tier) (xs : List Tier) (a : Account A)
      → (k : Serves A (x ∷ xs) (serve w script (x ∷ xs) a)) × ((batch_of w script (x ∷ xs) a).deeds
          ≡ batch_began ∷ map tier_collected k.done
            ++ closing (batch_of w script (x ∷ xs) a).outcome)
  batch_of-Serves x xs a =
      let k = serve-Serves (x ∷ xs) a in
      (k, ap (λ l. batch_began ∷ l ++ closing (serve w script (x ∷ xs) a).outcome) k.deeds)

-- What a batch does after its collections: it ends the batch of the limiter, and follows the roster if it
-- has come to its end.
closing-split :
    (o : Outcome)
    → ((o ≡ completed) × (closing o ≡ batch_ended ∷ roster_followed ∷ []))
      ⊎ ((o ≢ completed) × (closing o ≡ batch_ended ∷ []))
closing-split completed = inl (refl, refl)
closing-split interrupted = inr (λ e. cc, refl)
closing-split raised = inr (λ e. cc, refl)

-- However a batch ends in which some tier is due, it has begun, has collected the first of the tiers that
-- were due, in the order of the scheduler, and has then ended the batch of the limiter: either it has come
-- to its end, has collected all of them, and follows the roster after that, or it has not come to its end,
-- and ending the batch of the limiter is the last that it does.
pub batch-deeds :
    {A : Type 0} (w : Setting A) (script : Tier → Round A) (t : Instant) (a : Account A) (x : Tier)
    (xs : List Tier)
    → due t a.scheduler ≡ x ∷ xs
    → (done : List Tier) × (rest : List Tier) × (last : List Deed) × (due t a.scheduler
        ≡ done ++ rest)
      × ((run_batch w script t a).deeds
          ≡ batch_began ∷ map tier_collected done ++ batch_ended ∷ last)
      × (((rest ≡ [])
            × ((run_batch w script t a).outcome ≡ completed)
            × (last ≡ roster_followed ∷ []))
          ⊎ (((run_batch w script t a).outcome ≢ completed) × (last ≡ [])))
unfolding run_batch
batch-deeds w script t a x xs e =
    let (k, deeds) = batch_of-Serves w script x xs a in
    let b = batch_of w script (x ∷ xs) a in
    rw e (elim (closing-split b.outcome) [
      | inl (whole, ends) ↦
          let all : k.rest ≡ [] = elim k.whole [ inl e ↦ e | inr other ↦ absurd (other whole) ] in
          (
            k.done,
            k.rest,
            roster_followed ∷ [],
            k.parts,
            deeds ∙ ap (λ l. batch_began ∷ map tier_collected k.done ++ l) ends,
            inl (all, whole, refl),
          )
      | inr (cut, ends) ↦ (
        k.done,
        k.rest,
        [],
        k.parts,
        deeds ∙ ap (λ l. batch_began ∷ map tier_collected k.done ++ l) ends,
        inr (cut, refl),
      )
    ])
