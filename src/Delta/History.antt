-- ===== src/Delta/History.antt =====
-- custom_components/carnet_scolaire/delta.py: histories of calls of the detector, and what a collection
-- held last in one.
use ha_pronote_ng.Prelude.{
  ◌&&◌, Option, none, some, List, [], ◌∷◌, map, String, str_eq, if◌then◌else◌,
}
use ha_pronote_ng.Models.School.{
  Homework, Grade, Absence, Delay, Punishment, Evaluation, Information, AttendanceFacts, MarksFacts,
  EvaluationsFacts, HomeworkFacts, NewsFacts, DiscussionsFacts,
}
use ha_pronote_ng.Models.Timetable.{TimetableFacts}
use ha_pronote_ng.Delta.Detector.{Collection, same_collection, DeltaDetector, init, rename, forget}
use ha_pronote_ng.Delta.Collections.{marks, homework, news, evaluations, attendance}
use ha_pronote_ng.Delta.Threads.{discussions}
use ha_pronote_ng.Delta.Lessons.{timetable}

-- A call of a method of the detector.
pub data Call : Type 0 where
  marks_of : String → MarksFacts → Call
  homework_of : String → HomeworkFacts → Call
  news_of : String → NewsFacts → Call
  attendance_of : String → AttendanceFacts → Call
  evaluations_of : String → EvaluationsFacts → Call
  discussions_of : String → DiscussionsFacts → Call
  timetable_of : String → TimetableFacts → Call
  renamed : String → String → Call
  forgotten : String → Call

unfoldable pub perform : Call → DeltaDetector → DeltaDetector
perform (marks_of s f) d = (marks s f d).0
perform (homework_of s f) d = (homework s f d).0
perform (news_of s f) d = (news s f d).0
perform (attendance_of s f) d = (attendance s f d).0
perform (evaluations_of s f) d = (evaluations s f d).0
perform (discussions_of s f) d = (discussions s f d).0
perform (timetable_of s f) d = (timetable s f d).0
perform (renamed old new) d = rename old new d
perform (forgotten s) d = forget s d

-- The calls of a history, the latest first, on a detector without memory.
unfoldable pub replay : List Call → DeltaDetector
replay [] = init
replay (call ∷ earlier) = perform call (replay earlier)

-- The identifiers of a snapshot, if it is one of this collection of this student.
abbrev pub listed_for :
    String → Collection → List String → String → Collection → Option (List String)
listed_for s c ids s' c' = if str_eq s s' && same_collection c c' then some ids else none

abbrev pub or_else {ℓ} : {A : Type ℓ} → Option A → Option A → Option A
or_else none o = o
or_else (some x) o = some x

-- A new name stands for the old one from there on, if the old one was known.
unfoldable pub carried :
    String → String → (String → Option (List String)) → String → Option (List String)
carried old new f s = elim (f old) [
  | none ↦ f s
  | some ids ↦ if str_eq s new then some ids else if str_eq s old then none else f s
]

-- The specification, without a state: the identifiers in the last snapshot of a collection, looked up in
-- the history itself under the names that the student had.
unfoldable pub last_ids : List Call → String → Collection → Option (List String)
last_ids [] s c = none
last_ids (marks_of s' f ∷ h) s c =
    or_else (listed_for s' (Collection.grades f.period_id) (map (λ (g : Grade). g.id) f.grades) s c)
      (last_ids h s c)
last_ids (homework_of s' f ∷ h) s c =
    or_else (listed_for s' Collection.homework (map (λ (w : Homework). w.id) f.homework) s c)
      (last_ids h s c)
last_ids (news_of s' f ∷ h) s c =
    or_else (listed_for s' Collection.news (map (λ (n : Information). n.id) f.information) s c)
      (last_ids h s c)
last_ids (attendance_of s' f ∷ h) s c =
    or_else
      (listed_for s' (Collection.punishments f.period_id)
        (map (λ (p : Punishment). p.id) f.punishments) s c)
      (or_else
        (listed_for s' (Collection.delays f.period_id) (map (λ (w : Delay). w.id) f.delays) s c)
        (or_else
          (listed_for s' (Collection.absences f.period_id) (map (λ (a : Absence). a.id) f.absences)
            s c)
          (last_ids h s c)))
last_ids (evaluations_of s' f ∷ h) s c =
    or_else
      (listed_for s' (Collection.evaluations f.period_id)
        (map (λ (e : Evaluation). e.id) f.evaluations) s c)
      (last_ids h s c)
last_ids (discussions_of s' f ∷ h) s c = last_ids h s c
last_ids (timetable_of s' f ∷ h) s c = last_ids h s c
last_ids (renamed old new ∷ h) s c = carried old new (λ s'. last_ids h s' c) s
last_ids (forgotten s' ∷ h) s c = if str_eq s' s then none else last_ids h s c
