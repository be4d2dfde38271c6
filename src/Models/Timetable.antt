-- ===== src/Models/Timetable.antt =====
-- custom_components/carnet_scolaire/models.py: lessons, and the fields that a change is detected on.
use ha_pronote_ng.Prelude.{ℕ, Bool, ◌&&◌, Option, List, String}
use ha_pronote_ng.Models.Text.{Datetime, same_instant, same_text, same_bool, same_set}

pub record Lesson : Type 0 where
  pub id : String
  pub subject : Option String
  pub subject_id : Option String
  pub teachers : List String
  pub classrooms : List String
  pub groups : List String
  pub start : Datetime
  pub end : Datetime
  pub canceled : Bool
  pub status : Option String
  pub detention : Bool
  pub outing : Bool
  pub exempted : Bool
  pub test : Bool
  pub memo : Option String
  pub background_color : Option String
  pub virtual_classrooms : List String
  pub num : ℕ
  pub place : ℕ
  pub duration : ℕ
  pub end_inferred : Bool

-- `Lesson.change_signature`
pub record Signature : Type 0 where
  pub canceled : Bool
  pub status : Option String
  pub classrooms : List String
  pub teachers : List String
  pub start : Datetime
  pub end : Datetime

unfoldable pub change_signature : Lesson → Signature
change_signature l = record {
  canceled = l.canceled;
  status = l.status;
  classrooms = l.classrooms;
  teachers = l.teachers;
  start = l.start;
  end = l.end;
}

-- `a == b` for signatures, whose classrooms and teachers are sets
unfoldable pub same_signature : Signature → Signature → Bool
same_signature a b =
    same_bool a.canceled b.canceled
    && (same_text a.status b.status
        && (same_set a.classrooms b.classrooms
            && (same_set a.teachers b.teachers
                && (same_instant a.start b.start && same_instant a.end b.end))))

pub record TimetableFacts : Type 0 where
  pub lessons : List Lesson
  pub all_lessons : List Lesson
  pub weeks_fetched : List ℕ
