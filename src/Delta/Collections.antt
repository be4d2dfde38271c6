-- ===== src/Delta/Collections.antt =====
-- custom_components/carnet_scolaire/delta.py: the collections that only grow, whose events go by the
-- identifiers.
use ha_pronote_ng.Prelude.{Option, none, some, List, [], ◌∷◌, ◌++◌, map, String}
use ha_pronote_ng.Models.School.{
  Homework, Grade, Absence, Delay, Punishment, Evaluation, Information, AttendanceFacts, MarksFacts,
  EvaluationsFacts, HomeworkFacts, NewsFacts,
}
use ha_pronote_ng.Delta.Context.{
  DeltaEvent, grade_event, homework_event, information_event, absence_event, delay_event,
  punishment_event, evaluation_event,
}
use ha_pronote_ng.Delta.Detector.{Collection, DeltaDetector, entry, new_ids}

module _ {ℓ} {A : Type ℓ} (describe : A → DeltaEvent) where
  -- `[DeltaEvent(… index[i] …) for i in new if i in index]`
  unfoldable pub events_of : List (String × A) → List String → List DeltaEvent
  events_of index [] = []
  events_of index (i ∷ new) = elim (entry i index) [
    | none ↦ events_of index new
    | some x ↦ describe x ∷ events_of index new
  ]

  -- What follows `new = self._new_ids(…)`: no event on a first pass, or if nothing is new.
  unfoldable pub announce_new : List (String × A) → Option (List String) → List DeltaEvent
  announce_new index none = []
  announce_new index (some new) = events_of index new

  -- A method for one collection: the identifiers of the items, then an event for each that is new. The
  -- index is `{item.id: item for item in items}`.
  unfoldable pub announce :
      (A → String) → String → Collection → List A → DeltaDetector → DeltaDetector × List DeltaEvent
  announce id student collection items d =
      let (d', new) = new_ids student collection (map id items) d in
      (d', announce_new (map (λ x. (id x, x)) items) new)

unfoldable pub marks : String → MarksFacts → DeltaDetector → DeltaDetector × List DeltaEvent
marks student facts =
    announce grade_event (λ (g : Grade). g.id) student (Collection.grades facts.period_id)
      facts.grades

unfoldable pub homework : String → HomeworkFacts → DeltaDetector → DeltaDetector × List DeltaEvent
homework student facts =
    announce homework_event (λ (h : Homework). h.id) student Collection.homework facts.homework

unfoldable pub news : String → NewsFacts → DeltaDetector → DeltaDetector × List DeltaEvent
news student facts =
    announce information_event (λ (n : Information). n.id) student Collection.news facts.information

unfoldable pub evaluations :
    String → EvaluationsFacts → DeltaDetector → DeltaDetector × List DeltaEvent
evaluations student facts =
    announce evaluation_event (λ (e : Evaluation). e.id) student
      (Collection.evaluations facts.period_id) facts.evaluations

-- Absences, then delays, then punishments.
unfoldable pub attendance :
    String → AttendanceFacts → DeltaDetector → DeltaDetector × List DeltaEvent
attendance student facts d =
    let p = facts.period_id in
    let (d1, absences) =
      announce absence_event (λ (a : Absence). a.id) student (Collection.absences p) facts.absences
        d in
    let (d2, delays) =
      announce delay_event (λ (a : Delay). a.id) student (Collection.delays p) facts.delays d1 in
    let (d3, punishments) =
      announce punishment_event (λ (a : Punishment). a.id) student (Collection.punishments p)
        facts.punishments d2 in
    (d3, absences ++ delays ++ punishments)
