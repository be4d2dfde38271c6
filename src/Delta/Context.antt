-- ===== src/Delta/Context.antt =====
-- custom_components/carnet_scolaire/delta.py: events, and the attributes that an automation reads. A
-- dictionary of attributes is a record of its entries.
use Prim.Native.String.{◌++◌}
use ha_pronote_ng.Prelude.{ℕ, Bool, Option, none, some, List, [], ◌∷◌, map, String}
use ha_pronote_ng.Models.Text.{Datetime, Decimal}
use ha_pronote_ng.Models.Timetable.{Lesson, Signature, change_signature}
use ha_pronote_ng.Models.School.{
  Homework, GradeStatus, Grade, Absence, Delay, PunishmentSlot, Punishment, Acquisition, Evaluation,
  Information, Discussion,
}

-- `", ".join(texts)`
unfoldable pub joined : List String → String
joined [] = ""
joined (x ∷ []) = x
joined (x ∷ y ∷ xs) = x ++ ", " ++ joined (y ∷ xs)

-- `Lesson.classroom`
unfoldable pub classroom : List String → Option String
classroom [] = none
classroom (x ∷ xs) = some (joined (x ∷ xs))

-- `_LessonMemo`
pub record LessonMemo : Type 0 where
  pub signature : Signature
  pub canceled : Bool
  pub status : Option String
  pub classroom : Option String
  pub classrooms : List String
  pub teachers : List String
  pub start_iso : Datetime
  pub end_iso : Datetime

-- `_LessonMemo.of`
unfoldable pub memo_of : Lesson → LessonMemo
memo_of l = record {
  signature = change_signature l;
  canceled = l.canceled;
  status = l.status;
  classroom = classroom l.classrooms;
  classrooms = l.classrooms;
  teachers = l.teachers;
  start_iso = l.start;
  end_iso = l.end;
}

pub record LessonContext : Type 0 where
  pub subject : Option String
  pub start : Datetime
  pub end : Datetime
  pub previous_start : Datetime
  pub previous_end : Datetime
  pub classroom : Option String
  pub previous_classroom : Option String
  pub teachers : List String
  pub previous_teachers : List String
  pub status : Option String
  pub canceled : Bool
  pub lesson_id : String

-- `_lesson_context`
unfoldable pub lesson_context : Lesson → LessonMemo → LessonContext
lesson_context l before = record {
  subject = l.subject;
  start = l.start;
  end = l.end;
  previous_start = before.start_iso;
  previous_end = before.end_iso;
  classroom = classroom l.classrooms;
  previous_classroom = before.classroom;
  teachers = l.teachers;
  previous_teachers = before.teachers;
  status = l.status;
  canceled = l.canceled;
  lesson_id = l.id;
}

-- The dictionaries of the other context builders.
pub data Attributes : Type 0 where
  lesson_attributes : LessonContext → Attributes
  grade_attributes :
      (subject : Option String) (grade out_of coefficient : Option Decimal) (date : ℕ)
      (class_average : Option Decimal) (status : Option GradeStatus) (grade_id : String)
      → Attributes
  homework_attributes :
      (subject : Option String) (description : String) (due : ℕ) (id : String) → Attributes
  information_attributes :
      (author title category : Option String) (survey : Bool) (information_id : String) → Attributes
  absence_attributes :
      (from_date to_date : Datetime) (justified : Bool) (reasons : List String)
      (hours : Option String) (days : Option ℕ) (absence_id : String)
      → Attributes
  delay_attributes :
      (date : Datetime) (justified : Bool) (justification : Option String) (reasons : List String)
      (minutes : Option ℕ) (delay_id : String)
      → Attributes
  punishment_attributes :
      (nature : Option String) (reasons : List String) (giver : Option String) (exclusion : Bool)
      (schedule : List Datetime) (punishment_id : String)
      → Attributes
  evaluation_attributes :
      (subject name : Option String) (acquisitions : List (Option String × Option String))
      (date : ℕ) (evaluation_id : String)
      → Attributes
  message_attributes :
      (discussion author : Option String) (created : Option Datetime) (discussion_id : String)
      (unread : ℕ)
      → Attributes

-- The value of `event_type`: the constants `EVENT_…` of const.py.
pub data EventType : Type 0 where
  grade_added homework_added lesson_canceled lesson_restored lesson_moved lesson_status_changed
        room_changed teacher_changed information_added absence_added delay_added punishment_added
        message_received evaluation_added :
      EventType

pub record DeltaEvent : Type 0 where
  pub entity_key : String
  pub event_type : EventType
  pub attributes : Attributes

-- `DeltaEvent("new_grade", EVENT_GRADE_ADDED, _grade_context(grade))`
unfoldable pub grade_event : Grade → DeltaEvent
grade_event g = record {
  entity_key = "new_grade";
  event_type = grade_added;
  attributes =
      grade_attributes g.subject g.value g.out_of g.coefficient g.date g.class_average g.status
        g.id;
}

-- `_homework_context`, in its event
unfoldable pub homework_event : Homework → DeltaEvent
homework_event h = record {
  entity_key = "new_homework";
  event_type = homework_added;
  attributes = homework_attributes h.subject h.description h.due h.id;
}

-- `_information_context`, in its event
unfoldable pub information_event : Information → DeltaEvent
information_event n = record {
  entity_key = "new_information";
  event_type = information_added;
  attributes = information_attributes n.author n.title n.category n.survey n.id;
}

-- `_absence_context`, in its event
unfoldable pub absence_event : Absence → DeltaEvent
absence_event a = record {
  entity_key = "new_absence";
  event_type = absence_added;
  attributes = absence_attributes a.from_date a.to_date a.justified a.reasons a.hours a.days a.id;
}

-- `_delay_context`, in its event
unfoldable pub delay_event : Delay → DeltaEvent
delay_event d = record {
  entity_key = "new_delay";
  event_type = delay_added;
  attributes = delay_attributes d.at d.justified d.justification d.reasons d.minutes d.id;
}

-- `_punishment_context`, in its event
unfoldable pub punishment_event : Punishment → DeltaEvent
punishment_event p = record {
  entity_key = "new_punishment";
  event_type = punishment_added;
  attributes =
      punishment_attributes p.nature p.reasons p.giver p.exclusion
        (map (λ (s : PunishmentSlot). s.start) p.schedule) p.id;
}

-- `_evaluation_context`, in its event
unfoldable pub evaluation_event : Evaluation → DeltaEvent
evaluation_event e = record {
  entity_key = "new_evaluation";
  event_type = evaluation_added;
  attributes =
      evaluation_attributes e.subject e.name
        (map (λ (a : Acquisition). (a.name, a.level)) e.acquisitions) e.date e.id;
}

-- The event of `_message_events`, for a message or for none.
unfoldable pub message_event : Discussion → Option String → Option Datetime → DeltaEvent
message_event d author created = record {
  entity_key = "new_message";
  event_type = message_received;
  attributes = message_attributes d.subject author created d.id d.unread;
}
