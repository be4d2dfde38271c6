-- ===== src/Delta/Detection.antt =====
-- custom_components/carnet_scolaire/delta.py: which items of a snapshot are announced.
use ha_pronote_ng.Prelude.{
  ◌≡◌, refl, sym, ap, ◌∙◌, inl, inr, true, false, not, ◌&&◌, none, some, List, [], ◌∷◌, map, String,
  str_eq, str_eq_iff, keep, All, arith, Bool-cases,
}
use ha_pronote_ng.Models.Text.{in_texts}
use ha_pronote_ng.Delta.Context.{DeltaEvent}
use ha_pronote_ng.Delta.Detector.{Collection, DeltaDetector, entry, unique, new_ids}
use ha_pronote_ng.Delta.Collections.{events_of, announce_new, announce}

pub in_texts-eq :
    (x y : String) (ys : List String) → str_eq x y ≡ true → in_texts x ys ≡ in_texts y ys
in_texts-eq x y ys e = ap (λ (z : String). in_texts z ys) ((str_eq_iff x y).0 e)

pub in_texts-unique :
    (i : String) (seen ids : List String)
    → in_texts i (unique seen ids) ≡ (in_texts i ids && not (in_texts i seen))
unfolding unique
in_texts-unique i seen [] = refl
in_texts-unique i seen (x ∷ ids) = elim (Bool-cases (in_texts x seen)) [
  | inl e ↦ rw e (ground (arith, in_texts-unique i seen ids, in_texts-eq i x seen))
  | inr e ↦ rw e (ground (arith, in_texts-unique i (x ∷ seen) ids, in_texts-eq i x seen))
]

in_texts-keep :
    (i : String) (previous ids : List String)
    → in_texts i (keep (λ x. not (in_texts x previous)) ids)
      ≡ (in_texts i ids && not (in_texts i previous))
in_texts-keep i previous [] = refl
in_texts-keep i previous (x ∷ ids) =
    ground (arith, in_texts-keep i previous ids, in_texts-eq i x previous)

-- No text of the list is in it twice.
abbrev pub NoRepeats : List String → Type 0
NoRepeats [] = Unit
NoRepeats (x ∷ xs) = (in_texts x xs ≡ false) × NoRepeats xs

unique-NoRepeats : (seen ids : List String) → NoRepeats (unique seen ids)
unfolding unique
unique-NoRepeats seen [] = tt
unique-NoRepeats seen (x ∷ ids) = elim (Bool-cases (in_texts x seen)) [
  | inl e ↦ rw e (unique-NoRepeats seen ids)
  | inr e ↦ rw e (
    ground (arith, in_texts-unique x (x ∷ seen) ids, str_eq_iff x x),
    unique-NoRepeats (x ∷ seen) ids,
  )
]

keep-NoRepeats :
    (previous ids : List String)
    → NoRepeats ids
    → NoRepeats (keep (λ x. not (in_texts x previous)) ids)
keep-NoRepeats previous [] n = tt
keep-NoRepeats previous (x ∷ ids) (once, n) = elim (Bool-cases (in_texts x previous)) [
  | inl e ↦ rw e (keep-NoRepeats previous ids n)
  | inr e ↦ rw e (ground (arith, in_texts-keep x previous ids), keep-NoRepeats previous ids n)
]

keep-All :
    (previous ids all : List String)
    → ((i : String) → in_texts i ids ≡ true → in_texts i all ≡ true)
    → All (λ i. in_texts i all ≡ true) (keep (λ x. not (in_texts x previous)) ids)
keep-All previous [] all h = tt
keep-All previous (x ∷ ids) all h =
    let rest = keep-All previous ids all (λ i k. h i (rw k (ground arith))) in
    elim (Bool-cases (in_texts x previous)) [
      | inl e ↦ rw e rest
      | inr e ↦ rw e (h x (rw ((str_eq_iff x x).1 refl) refl), rest)
    ]

module _ {ℓ} {A : Type ℓ} (id : A → String) where
  -- `{item.id: item for item in items}`
  abbrev pub indexed : List A → List (String × A)
  indexed items = map (λ x. (id x, x)) items

  pub entry-missing :
      (i : String) (items : List A)
      → in_texts i (map id items) ≡ false
      → entry i (indexed items) ≡ none
  entry-missing i [] h = refl
  entry-missing i (y ∷ items) h =
      let (other, rest) : (str_eq i (id y) ≡ false) × (in_texts i (map id items) ≡ false) =
        ground arith in
      rw (entry-missing i items rest, other) refl

  entry-indexed :
      (i : String) (items : List A)
      → in_texts i (map id items) ≡ true
      → (x : A) × (entry i (indexed items) ≡ some x) × (id x ≡ i)
  entry-indexed i [] h = cc
  entry-indexed i (y ∷ items) h = elim (Bool-cases (in_texts i (map id items))) [
    | inl k ↦ let (x, found, own) = entry-indexed i items k in (x, rw found refl, own)
    | inr k ↦
        let e : str_eq i (id y) ≡ true = ground arith in
        (y, rw (entry-missing i items k, e) refl, sym ((str_eq_iff i (id y)).0 e))
  ]

  -- The items that a list of identifiers picks.
  events_of-picks :
      (describe : A → DeltaEvent) (items : List A) (new : List String)
      → All (λ i. in_texts i (map id items) ≡ true) new
      → (xs : List A) × (events_of describe (indexed items) new ≡ map describe xs)
        × (map id xs ≡ new)
        × All (λ x. entry (id x) (indexed items) ≡ some x) xs
  unfolding events_of
  events_of-picks describe items [] a = ([], refl, refl, tt)
  events_of-picks describe items (i ∷ new) (here, a) =
      let (x, found, own) = entry-indexed i items here in
      let (xs, told, named, last) = events_of-picks describe items new a in
      (x ∷ xs, rw (found, events_of, told) refl, cc, (rw own found, last))

  pub announce-unseen :
      (describe : A → DeltaEvent) (student : String) (c : Collection) (items : List A)
      (d : DeltaDetector)
      → d.seen_ids student c ≡ none
      → (announce describe id student c items d).1 ≡ []
  unfolding announce announce_new new_ids
  announce-unseen describe student c items d unseen = rw unseen refl

  pub announce-seen :
      (describe : A → DeltaEvent) (student : String) (c : Collection) (items : List A)
      (d : DeltaDetector) (previous : List String)
      → d.seen_ids student c ≡ some previous
      → (announce describe id student c items d).1
        ≡ events_of describe
            (indexed items)
            (keep (λ x. not (in_texts x previous)) (unique [] (map id items)))
  unfolding announce announce_new new_ids
  announce-seen describe student c items d previous seen = rw seen refl

  -- On a snapshot of a collection that was seen before, one event is announced for each identifier that
  -- the snapshot has and the snapshot before had not, and no other event: the announced items have
  -- different identifiers, and each is the last item of the snapshot with its identifier.
  pub announce-fresh :
      (describe : A → DeltaEvent) (student : String) (c : Collection) (items : List A)
      (d : DeltaDetector) (previous : List String)
      → d.seen_ids student c ≡ some previous
      → (xs : List A) × ((announce describe id student c items d).1 ≡ map describe xs)
        × NoRepeats (map id xs)
        × ((i : String)
            → in_texts i (map id xs) ≡ (in_texts i (map id items) && not (in_texts i previous)))
        × All (λ x. entry (id x) (indexed items) ≡ some x) xs
  announce-fresh describe student c items d previous seen =
      let ids = map id items in
      let fresh = unique [] ids in
      let new = keep (λ x. not (in_texts x previous)) fresh in
      let among : (i : String) → in_texts i fresh ≡ in_texts i ids =
        λ i. ground (arith, in_texts-unique i [] ids) in
      let (xs, told, named, last) =
        events_of-picks describe items new
          (keep-All previous fresh ids (λ i k. sym (among i) ∙ k)) in
      (
        xs,
        announce-seen describe student c items d previous seen ∙ told,
        rw named (keep-NoRepeats previous fresh (unique-NoRepeats [] ids)),
        λ i. rw (named, in_texts-keep i previous fresh, among i) refl,
        last,
      )
