-- ===== src/Delta/Lessons.antt =====
-- custom_components/carnet_scolaire/delta.py: the changes of the timetable, lesson by lesson.
use ha_pronote_ng.Prelude.{
  Bool, not, ◌&&◌, ◌||◌, Option, none, some, List, [], ◌∷◌, ◌++◌, map, String, if◌then◌else◌,
}
use ha_pronote_ng.Models.Text.{same_text, same_set, same_iso}
use ha_pronote_ng.Models.Timetable.{Lesson, TimetableFacts, same_signature}
use ha_pronote_ng.Delta.Context.{
  LessonMemo, memo_of, lesson_context, Attributes, EventType, DeltaEvent,
}
use ha_pronote_ng.Delta.Detector.{DeltaDetector, assign, entry}

-- `emit`, under the test that guards it
abbrev pub emitted : Bool → EventType → List EventType
emitted test type = if test then type ∷ [] else []

-- The types that `_lesson_events` emits before it looks at the status.
unfoldable pub aspects : Lesson → LessonMemo → List EventType
aspects l before =
    (if l.canceled && not before.canceled
      then EventType.lesson_canceled ∷ []
      else emitted (before.canceled && not l.canceled) EventType.lesson_restored)
    ++ emitted (not (same_iso l.start before.start_iso) || not (same_iso l.end before.end_iso))
        EventType.lesson_moved
    ++ emitted (not (same_set l.classrooms before.classrooms)) EventType.room_changed
    ++ emitted (not (same_set l.teachers before.teachers)) EventType.teacher_changed

unfoldable pub event_types : Lesson → LessonMemo → List EventType
event_types l before = elim (aspects l before) [
  | [] ↦ emitted (not (same_text l.status before.status)) EventType.lesson_status_changed
  | e ∷ es ↦ e ∷ es
]

-- `_lesson_events`
unfoldable pub lesson_events : Lesson → LessonMemo → List DeltaEvent
lesson_events l before =
    map
      (λ (type : EventType). record {
        entity_key = "lesson_changed";
        event_type = type;
        attributes = Attributes.lesson_attributes (lesson_context l before);
      })
      (event_types l before)

-- `{lesson.id: _LessonMemo.of(lesson) for lesson in lessons}`
abbrev pub memos_of : List Lesson → List (String × LessonMemo)
memos_of = map (λ (l : Lesson). (l.id, memo_of l))

-- One round of the loop of `timetable`. `current[lesson.id]` is always there; `none` stands for no entry.
unfoldable pub changes : Lesson → Option LessonMemo → Option LessonMemo → List DeltaEvent
changes l none _ = []
changes l (some before) none = []
changes l (some before) (some now) =
    if same_signature before.signature now.signature then [] else lesson_events l before

unfoldable pub all_changes :
    List (String × LessonMemo) → List (String × LessonMemo) → List Lesson → List DeltaEvent
all_changes memos current [] = []
all_changes memos current (l ∷ ls) =
    changes l (entry l.id memos) (entry l.id current) ++ all_changes memos current ls

unfoldable pub timetable : String → TimetableFacts → DeltaDetector → DeltaDetector × List DeltaEvent
timetable student facts d =
    let current = memos_of facts.all_lessons in
    (
      record d { lesson_signatures = assign student current d.lesson_signatures },
      elim (d.lesson_signatures student) [
        | none ↦ []
        | some memos ↦ all_changes memos current facts.all_lessons
      ],
    )
