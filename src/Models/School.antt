-- ===== src/Models/School.antt =====
-- custom_components/carnet_scolaire/models.py: homework, marks, attendance, evaluations, news and
-- discussions.
use ha_pronote_ng.Prelude.{ℕ, Bool, Option, List, String}
use ha_pronote_ng.Models.Text.{Datetime, Decimal}

-- `AttachmentKind` of const.py
pub data AttachmentKind : Type 0 where
  link file opaque : AttachmentKind

pub record HomeworkAttachment : Type 0 where
  pub name : String
  pub url : Option String
  pub id : String
  pub kind : AttachmentKind

pub record Homework : Type 0 where
  pub id : String
  pub subject : Option String
  pub description : String
  pub description_text : String
  pub due : ℕ
  pub done : Bool
  pub background_color : Option String
  pub attachments : List HomeworkAttachment

-- `GradeStatus` of const.py
pub data GradeStatus : Type 0 where
  absent exempted not_graded unfit not_submitted absent_zero not_submitted_zero congratulations
        unknown :
      GradeStatus

pub record Grade : Type 0 where
  pub id : String
  pub subject : Option String
  pub subject_id : Option String
  pub value : Option Decimal
  pub status : Option GradeStatus
  pub out_of : Option Decimal
  pub default_out_of : Option Decimal
  pub date : ℕ
  pub coefficient : Option Decimal
  pub class_average : Option Decimal
  pub max_value : Option Decimal
  pub min_value : Option Decimal
  pub comment : Option String
  pub is_bonus : Bool
  pub is_optional : Bool
  pub is_out_of_20 : Bool

pub record Absence : Type 0 where
  pub id : String
  pub from_date : Datetime
  pub to_date : Datetime
  pub justified : Bool
  pub hours : Option String
  pub days : Option ℕ
  pub reasons : List String

pub record Delay : Type 0 where
  pub id : String
  pub at : Datetime
  pub minutes : Option ℕ
  pub justified : Bool
  pub justification : Option String
  pub reasons : List String

pub record PunishmentSlot : Type 0 where
  pub start : Datetime
  pub duration_minutes : ℕ

pub record Punishment : Type 0 where
  pub id : String
  pub nature : Option String
  pub reasons : List String
  pub giver : Option String
  pub given_at : Option Datetime
  pub exclusion : Bool
  pub during_lesson : Bool
  pub homework : Option String
  pub schedule : List PunishmentSlot

pub record Acquisition : Type 0 where
  pub id : String
  pub name : Option String
  pub level : Option String
  pub abbreviation : Option String
  pub coefficient : Option Decimal
  pub domain : Option String
  pub pillar : Option String

pub record Evaluation : Type 0 where
  pub id : String
  pub name : Option String
  pub subject : Option String
  pub subject_id : Option String
  pub teacher : Option String
  pub description : Option String
  pub date : ℕ
  pub acquisitions : List Acquisition

pub record Information : Type 0 where
  pub id : String
  pub title : Option String
  pub author : Option String
  pub category : Option String
  pub read : Bool
  pub survey : Bool
  pub anonymous_response : Bool
  pub created : Datetime
  pub start_date : Option Datetime
  pub end_date : Option Datetime

pub record Message : Type 0 where
  pub id : String
  pub author : Option String
  pub created : Datetime
  pub content : Option String

pub record Discussion : Type 0 where
  pub id : String
  pub subject : Option String
  pub creator : Option String
  pub unread : ℕ
  pub closed : Bool
  pub labels : List String
  pub messages : List Message

pub record AttendanceFacts : Type 0 where
  pub period_id : String
  pub absences : List Absence
  pub delays : List Delay
  pub punishments : List Punishment

pub record Average : Type 0 where
  pub subject : Option String
  pub subject_id : Option String
  pub student : Option Decimal
  pub class_average : Option Decimal
  pub min_average : Option Decimal
  pub max_average : Option Decimal
  pub out_of : Option Decimal
  pub background_color : Option String

pub record ReportSubject : Type 0 where
  pub id : String
  pub name : String
  pub color : Option String
  pub comments : List String
  pub student_average : Option Decimal
  pub class_average : Option Decimal
  pub min_average : Option Decimal
  pub max_average : Option Decimal
  pub coefficient : Option Decimal
  pub teachers : List String

pub record Report : Type 0 where
  pub subjects : List ReportSubject
  pub comments : List String

pub record MarksFacts : Type 0 where
  pub period_id : String
  pub period_index : ℕ
  pub grades : List Grade
  pub averages : List Average
  pub overall_average : Option Decimal
  pub class_overall_average : Option Decimal
  pub report : Option Report

pub record EvaluationsFacts : Type 0 where
  pub period_id : String
  pub evaluations : List Evaluation

-- The facts whose only field is this list, or whose other field is for diagnostics.
pub record HomeworkFacts : Type 0 where
  pub homework : List Homework

pub record NewsFacts : Type 0 where
  pub information : List Information

pub record DiscussionsFacts : Type 0 where
  pub discussions : List Discussion
  pub expanded : List String
