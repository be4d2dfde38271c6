-- ===== src/Delta/Signatures.antt =====
-- custom_components/carnet_scolaire/delta.py: when the timetable fires events.
use ha_pronote_ng.Prelude.{
  ◌≡◌, ◌≢◌, refl, sym, ◌∙◌, inl, inr, Bool, true, false, not, ◌&&◌, ◌||◌, Option, none, some, List,
  [], ◌∷◌, ◌++◌, map, String, str_eq, str_eq_iff, All, arith, Bool-cases, Option-cases,
  if◌then◌else◌, ◌↔◌,
}
use ha_pronote_ng.Models.Text.{Datetime, same_iso, same_instant, same_set, same_text, same_bool}
use ha_pronote_ng.Models.Timetable.{Lesson, TimetableFacts, change_signature, same_signature}
use ha_pronote_ng.Delta.Context.{LessonMemo, memo_of, EventType}
use ha_pronote_ng.Delta.Detector.{DeltaDetector, entry}
use ha_pronote_ng.Delta.Lessons.{
  emitted, aspects, event_types, lesson_events, memos_of, changes, all_changes, timetable,
}
use ha_pronote_ng.Delta.Detection.{indexed, entry-missing, NoRepeats}

-- `event_types`, on the tests that it makes.
unfoldable event_types_of : (c c' start end rooms teachers status : Bool) → List EventType
event_types_of c c' start end rooms teachers status =
    elim ((if c && not c'
        then EventType.lesson_canceled ∷ []
        else emitted (c' && not c) EventType.lesson_restored)
      ++ emitted (not start || not end) EventType.lesson_moved
      ++ emitted (not rooms) EventType.room_changed
      ++ emitted (not teachers) EventType.teacher_changed) [
        | [] ↦ emitted (not status) EventType.lesson_status_changed
        | e ∷ es ↦ e ∷ es
      ]

same_iso-same_instant : (a b : Datetime) → same_iso a b ≡ true → same_instant a b ≡ true
same_iso-same_instant a b h = ground arith

same_instant_sym : (a b : Datetime) → same_instant a b ≡ true → same_instant b a ≡ true
same_instant_sym a b h = ground arith

same_text_sym : (a b : Option String) → same_text a b ≡ true → same_text b a ≡ true
same_text_sym none none h = refl
same_text_sym none (some b) h = h
same_text_sym (some a) none h = h
same_text_sym (some a) (some b) h = (str_eq_iff b a).1 (sym ((str_eq_iff a b).0 h))

same_bool_sym : (a b : Bool) → same_bool a b ≡ same_bool b a
same_bool_sym true true = refl
same_bool_sym true false = refl
same_bool_sym false true = refl
same_bool_sym false false = refl

-- No type was emitted.
silent :
    (c c' start end rooms teachers status : Bool)
    → event_types_of c c' start end rooms teachers status ≡ []
    → (same_bool c c' && (status && (rooms && (teachers && (start && end))))) ≡ true
unfolding event_types_of
silent c c' start end rooms teachers status h = ground arith

-- An entry whose whitelisted fields changed gets an event: no change of the signature is lost.
pub event_types-changed :
    (l old : Lesson)
    → same_signature (change_signature old) (change_signature l) ≡ false
    → event_types l (memo_of old) ≢ []
unfolding event_types aspects same_signature change_signature memo_of event_types_of
event_types-changed l old h e =
    let k =
      silent l.canceled old.canceled (same_iso l.start old.start) (same_iso l.end old.end)
        (same_set l.classrooms old.classrooms) (same_set l.teachers old.teachers)
        (same_text l.status old.status) e in
    ground (
      arith,
      same_iso-same_instant l.start old.start,
      same_iso-same_instant l.end old.end,
      same_instant_sym l.start old.start,
      same_instant_sym l.end old.end,
      same_text_sym l.status old.status,
      same_bool_sym l.canceled old.canceled,
    )

-- The last lesson of a week with an identifier, if it has one.
abbrev pub lesson_of : List Lesson → String → Option Lesson
lesson_of week i = entry i (indexed (λ (l : Lesson). l.id) week)

-- A lesson is new in the week, or has the whitelisted fields that it had.
unfoldable pub unchanged_from : Lesson → Option Lesson → Bool
unchanged_from l none = true
unchanged_from l (some old) = same_signature (change_signature old) (change_signature l)

abbrev pub unchanged : List Lesson → Lesson → Bool
unchanged week l = unchanged_from l (lesson_of week l.id)

unfoldable remembered : Option Lesson → Option LessonMemo
remembered none = none
remembered (some old) = some (memo_of old)

entry-memos_of :
    (i : String) (week : List Lesson) → entry i (memos_of week) ≡ remembered (lesson_of week i)
unfolding remembered
entry-memos_of i [] = refl
entry-memos_of i (l ∷ week) = elim (Option-cases (lesson_of week i)) [
  | inl e ↦
      let k : entry i (memos_of week) ≡ none = entry-memos_of i week ∙ rw e refl in
      rw (e, k) (elim (Bool-cases (str_eq i l.id)) [ inl q ↦ rw q refl | inr q ↦ rw q refl ])
  | inr (x, e) ↦
      let k : entry i (memos_of week) ≡ some (memo_of x) = entry-memos_of i week ∙ rw e refl in
      rw (e, k) refl
]

All-weaken :
    {P Q : Lesson → Type 0} (ls : List Lesson) → ((l : Lesson) → P l → Q l) → All P ls → All Q ls
All-weaken [] f a = tt
All-weaken (l ∷ ls) f (p, a) = (f l p, All-weaken ls f a)

-- Where no identifier comes twice, each lesson of a week has its own memo.
own_memo :
    (week : List Lesson)
    → NoRepeats (map (λ (l : Lesson). l.id) week)
    → All (λ (l : Lesson). entry l.id (memos_of week) ≡ some (memo_of l)) week
unfolding remembered
own_memo [] n = tt
own_memo (l ∷ week) (once, n) =
    let e : entry l.id (memos_of week) ≡ none =
      entry-memos_of l.id week ∙ rw (entry-missing (λ (x : Lesson). x.id) l.id week once) refl in
    (
      rw (e, (str_eq_iff l.id l.id).1 refl) refl,
      All-weaken week (λ x k. rw k refl) (own_memo week n),
    )

map-nil : {A B : Type 0} (f : A → B) (xs : List A) → map f xs ≡ [] → xs ≡ []
map-nil f [] h = refl
map-nil f (x ∷ xs) h = cc

append-nil : {A : Type 0} (xs ys : List A) → xs ++ ys ≡ [] → (xs ≡ []) × (ys ≡ [])
append-nil [] ys h = (refl, h)
append-nil (x ∷ xs) ys h = cc

-- A round of the loop on what the week before had under the identifier.
round-silent :
    (l : Lesson) (o : Option Lesson)
    → unchanged_from l o ≡ true
    → changes l (remembered o) (some (memo_of l)) ≡ []
unfolding changes remembered unchanged_from
round-silent l none u = refl
round-silent l (some old) u = unfold memo_of in rw u refl

silent-round :
    (l : Lesson) (o : Option Lesson)
    → changes l (remembered o) (some (memo_of l)) ≡ []
    → unchanged_from l o ≡ true
unfolding changes remembered unchanged_from lesson_events
silent-round l none u = refl
silent-round l (some old) u =
    elim (Bool-cases (same_signature (change_signature old) (change_signature l))) [
      | inl e ↦ e
      | inr e ↦
          let w : changes l (some (memo_of old)) (some (memo_of l))
              ≡ lesson_events l (memo_of old) =
            unfold memo_of in rw e refl in
          let v : lesson_events l (memo_of old) ≡ [] = sym w ∙ u in
          absurd (event_types-changed l old e (map-nil _ _ v))
    ]

module _ (week : List Lesson) (current : List (String × LessonMemo)) where
  changes_silent :
      (ls : List Lesson)
      → All (λ (l : Lesson). entry l.id current ≡ some (memo_of l)) ls
      → All (λ (l : Lesson). unchanged week l ≡ true) ls
      → all_changes (memos_of week) current ls ≡ []
  unfolding all_changes
  changes_silent [] own u = refl
  changes_silent (l ∷ ls) (own, owns) (u, us) =
      let h : changes l (entry l.id (memos_of week)) (entry l.id current) ≡ [] =
        rw (own, entry-memos_of l.id week) (round-silent l _ u) in
      rw (h, changes_silent ls owns us) refl

  silent_changes :
      (ls : List Lesson)
      → All (λ (l : Lesson). entry l.id current ≡ some (memo_of l)) ls
      → all_changes (memos_of week) current ls ≡ []
      → All (λ (l : Lesson). unchanged week l ≡ true) ls
  unfolding all_changes
  silent_changes [] own h = tt
  silent_changes (l ∷ ls) (own, owns) h =
      let (k, rest) =
        append-nil (changes l (entry l.id (memos_of week)) (entry l.id current)) _ h in
      (silent-round l _ (rw (own, entry-memos_of l.id week) at k), silent_changes ls owns rest)

-- The timetable of a student that was seen before fires no event exactly when every lesson of it is new
-- or has the whitelisted fields that it had in the snapshot before, where no identifier comes twice in it.
pub timetable-silent_iff :
    (s : String) (facts : TimetableFacts) (d : DeltaDetector) (week : List Lesson)
    → d.lesson_signatures s ≡ some (memos_of week)
    → NoRepeats (map (λ (l : Lesson). l.id) facts.all_lessons)
    → ((timetable s facts d).1 ≡ [])
      ↔ All (λ (l : Lesson). unchanged week l ≡ true) facts.all_lessons
unfolding timetable
timetable-silent_iff s facts d week seen once =
    let own = own_memo facts.all_lessons once in
    let e : (timetable s facts d).1
        ≡ all_changes (memos_of week) (memos_of facts.all_lessons) facts.all_lessons =
      rw seen refl in
    (
      λ h. silent_changes week (memos_of facts.all_lessons) facts.all_lessons own (sym e ∙ h),
      λ u. e ∙ changes_silent week (memos_of facts.all_lessons) facts.all_lessons own u,
    )
