-- ===== src/Delta/Refinement.antt =====
-- custom_components/carnet_scolaire/delta.py: what the detector has seen after any calls of its methods.
use ha_pronote_ng.Prelude.{
  some_or, ◌≡◌, refl, sym, ap, ◌∙◌, inl, inr, Bool, true, false, not, ◌&&◌, Option, none, some,
  List, [], ◌∷◌, map, String, str_eq, str_eq_iff, All, arith, Bool-cases, Option-cases,
  if◌then◌else◌,
}
use ha_pronote_ng.Models.Text.{in_texts}
use ha_pronote_ng.Delta.Context.{DeltaEvent}
use ha_pronote_ng.Delta.Detector.{
  entry, Collection, same_collection, DeltaDetector, init, remember, new_ids, rename, forget,
}
use ha_pronote_ng.Delta.Collections.{announce, marks, homework, news, evaluations, attendance}
use ha_pronote_ng.Delta.Threads.{discussions}
use ha_pronote_ng.Delta.Lessons.{timetable}
use ha_pronote_ng.Delta.Detection.{
  announce-seen, announce-unseen, NoRepeats, indexed, announce-fresh, in_texts-unique,
}
use ha_pronote_ng.Delta.History.{Call, perform, replay, carried, last_ids, listed_for, or_else}

-- Whether an identifier is in a list that may be missing: two lists that agree on this are the same set.
abbrev pub member : String → Option (List String) → Option Bool
member i o = elim o [ none ↦ none | some ids ↦ some (in_texts i ids) ]

member-none : (i : String) (o : Option (List String)) → member i o ≡ none → o ≡ none
member-none i none h = refl
member-none i (some ids) h = cc

member-some :
    (i : String) (o : Option (List String)) (ids : List String)
    → member i o ≡ member i (some ids)
    → (was : List String) × (o ≡ some was)
member-some i none ids h = cc
member-some i (some was) ids h = (was, refl)

module _ (i s : String) (c : Collection) where
  announce-member :
      {A : Type 0} (describe : A → DeltaEvent) (id : A → String) (s' : String) (c' : Collection)
      (items : List A) (d : DeltaDetector) (o : Option (List String))
      → member i (d.seen_ids s c) ≡ member i o
      → member i ((announce describe id s' c' items d).0.seen_ids s c)
        ≡ member i (or_else (listed_for s' c' (map id items) s c) o)
  unfolding announce new_ids remember
  announce-member describe id s' c' items d o h =
      elim (Bool-cases (str_eq s' s && same_collection c' c)) [
        | inl e ↦
            rw e (ap (λ (b : Bool). some b) (ground (arith, in_texts-unique i [] (map id items))))
        | inr e ↦ rw e h
      ]

  moved_member :
      (was ids : List String) (u f : Option (List String)) (kept to from : Bool)
      → member i (some was) ≡ member i (some ids)
      → member i u ≡ member i f
      → (from ≡ true → u ≡ some was)
      → (kept ≡ true → to ≡ from)
      → member i (if not kept then (if to then some was else if from then none else u) else u)
        ≡ member i (if to then some ids else if from then none else f)
  moved_member was ids u f false true from h k same e = h
  moved_member was ids u f false false true h k same e = refl
  moved_member was ids u f false false false h k same e = k
  moved_member was ids u f true true from h k same e = ap (member i) (same (sym (e refl))) ∙ h
  moved_member was ids u f true false true h k same e = let no = e refl in cc
  moved_member was ids u f true false false h k same e = k

  rename-member :
      (old new : String) (d : DeltaDetector) (f : String → Option (List String))
      → member i (d.seen_ids old c) ≡ member i (f old)
      → member i (d.seen_ids s c) ≡ member i (f s)
      → member i ((rename old new d).seen_ids s c) ≡ member i (carried old new f s)
  unfolding rename carried
  rename-member old new d f ho hs = elim (Option-cases (f old)) [
    | inl e ↦
        let gone : d.seen_ids old c ≡ none = member-none i _ (ho ∙ ap (member i) e) in
        rw (gone, e, carried) hs
    | inr (ids, e) ↦
        let (was, k) = member-some i _ ids (ho ∙ ap (member i) e) in
        let same : str_eq s old ≡ true → d.seen_ids s c ≡ some was =
          λ q. ap (λ (x : String). d.seen_ids x c) ((str_eq_iff s old).0 q) ∙ k in
        rw (k, e, carried)
          (moved_member was ids _ _ (str_eq old new) (str_eq s new) (str_eq s old)
            (sym (ap (member i) k) ∙ ho ∙ ap (member i) e) hs same
            (λ q. ap (str_eq s) (sym ((str_eq_iff old new).0 q))))
  ]

-- Whatever was called, the detector holds for each collection of each student the set of the
-- identifiers of the last snapshot in the history, under the names that the student had.
pub replay-last_ids :
    (i s : String) (c : Collection) (h : List Call)
    → member i ((replay h).seen_ids s c) ≡ member i (last_ids h s c)
unfolding replay last_ids carried perform init marks homework news evaluations attendance
    discussions timetable forget
replay-last_ids i s c [] = refl
replay-last_ids i s c (Call.marks_of s' f ∷ h) =
    announce-member i s c _ _ s' _ f.grades (replay h) _ (replay-last_ids i s c h)
replay-last_ids i s c (Call.homework_of s' f ∷ h) =
    announce-member i s c _ _ s' _ f.homework (replay h) _ (replay-last_ids i s c h)
replay-last_ids i s c (Call.news_of s' f ∷ h) =
    announce-member i s c _ _ s' _ f.information (replay h) _ (replay-last_ids i s c h)
replay-last_ids i s c (Call.attendance_of s' f ∷ h) =
    announce-member i s c _ _ s' _ f.punishments _ _ (
      announce-member i s c _ _ s' _ f.delays _ _
        (announce-member i s c _ _ s' _ f.absences (replay h) _ (replay-last_ids i s c h)))
replay-last_ids i s c (Call.evaluations_of s' f ∷ h) =
    announce-member i s c _ _ s' _ f.evaluations (replay h) _ (replay-last_ids i s c h)
replay-last_ids i s c (Call.discussions_of s' f ∷ h) = replay-last_ids i s c h
replay-last_ids i s c (Call.timetable_of s' f ∷ h) = replay-last_ids i s c h
replay-last_ids i s c (Call.renamed old new ∷ h) =
    rename-member i s c old new (replay h) (λ s'. last_ids h s' c) (replay-last_ids i old c h)
      (replay-last_ids i s c h)
replay-last_ids i s c (Call.forgotten s' ∷ h) = elim (Bool-cases (str_eq s' s)) [
  | inl e ↦ rw e refl
  | inr e ↦ rw e (replay-last_ids i s c h)
]

module _ {A : Type 0} (describe : A → DeltaEvent) (id : A → String) where
  -- After any history in which the collection was not seen, the next snapshot of it announces nothing.
  pub announce-first :
      (h : List Call) (s : String) (c : Collection) (items : List A)
      → last_ids h s c ≡ none
      → (announce describe id s c items (replay h)).1 ≡ []
  announce-first h s c items unseen =
      announce-unseen id describe s c items (replay h)
        (member-none "" _ (replay-last_ids "" s c h ∙ ap (member "") unseen))

  -- After any history in which the collection was seen, the next snapshot of it announces one event for
  -- each identifier that it has and the last snapshot in the history had not, and no other event.
  pub announce-next :
      (h : List Call) (s : String) (c : Collection) (items : List A) (last : List String)
      → last_ids h s c ≡ some last
      → (xs : List A) × ((announce describe id s c items (replay h)).1 ≡ map describe xs)
        × NoRepeats (map id xs)
        × ((i : String)
            → in_texts i (map id xs) ≡ (in_texts i (map id items) && not (in_texts i last)))
        × All (λ x. entry (id x) (indexed id items) ≡ some x) xs
  announce-next h s c items last seen =
      let (was, e) = member-some "" _ last (replay-last_ids "" s c h ∙ ap (member "") seen) in
      let (xs, told, once, exact, latest) = announce-fresh id describe s c items (replay h) was e in
      (
        xs,
        told,
        once,
        λ i.
            let same : some (in_texts i was) ≡ some (in_texts i last) =
              sym (ap (member i) e) ∙ replay-last_ids i s c h ∙ ap (member i) seen in
            exact i
            ∙ ap (λ (b : Option Bool). in_texts i (map id items) && not (some_or b false)) same,
        latest,
      )

rename-seen :
    (old new : String) (c : Collection) (d : DeltaDetector) (last : List String)
    → d.seen_ids old c ≡ some last
    → (rename old new d).seen_ids new c ≡ some last
unfolding rename
rename-seen old new c d last seen = elim (Bool-cases (str_eq old new)) [
  | inl e ↦
      let same : d.seen_ids new c ≡ some last =
        sym (ap (λ (x : String). d.seen_ids x c) ((str_eq_iff old new).0 e)) ∙ seen in
      rw (seen, e) same
  | inr e ↦ rw (seen, e, (str_eq_iff new new).1 refl) refl
]

-- A snapshot under the new name of a student announces what it would have announced under the old name, for a
-- collection that was seen under the old name.
announce-rename :
    {A : Type 0} (describe : A → DeltaEvent) (id : A → String) (old new : String) (c : Collection)
    (items : List A) (d : DeltaDetector) (last : List String)
    → d.seen_ids old c ≡ some last
    → (announce describe id new c items (rename old new d)).1
      ≡ (announce describe id old c items d).1
announce-rename describe id old new c items d last seen =
    announce-seen id describe new c items (rename old new d) last
      (rename-seen old new c d last seen)
    ∙ sym (announce-seen id describe old c items d last seen)
