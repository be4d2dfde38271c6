-- ===== src/Delta/Tests.antt =====
-- custom_components/carnet_scolaire/delta.py: concrete snapshots.
use mathlib.Core.List.{Perm}
use ha_pronote_ng.Prelude.{
  ℕ, ◌≡◌, ◌≢◌, ◌↔◌, refl, Bool, true, false, not, ◌&&◌, none, some, List, [], ◌∷◌, ◌++◌, map,
  String, All,
}
use ha_pronote_ng.Prelude.Int.{pos}
use ha_pronote_ng.Models.Text.{Datetime, in_texts}
use ha_pronote_ng.Models.School.{Homework, Message, Discussion, HomeworkFacts}
use ha_pronote_ng.Models.Timetable.{Lesson, TimetableFacts, change_signature, same_signature}
use ha_pronote_ng.Delta.Context.{memo_of, DeltaEvent, EventType, homework_event, message_event}
use ha_pronote_ng.Delta.Detector.{
  same_collection, Collection, DeltaDetector, init, assign, entry, unique, new_ids, remember,
}
use ha_pronote_ng.Delta.Collections.{announce, announce_new, events_of, homework}
use ha_pronote_ng.Delta.Threads.{earlier, message_events}
use ha_pronote_ng.Delta.Lessons.{memos_of, aspects, event_types, changes, all_changes, timetable}
use ha_pronote_ng.Delta.Detection.{NoRepeats, indexed}
use ha_pronote_ng.Delta.History.{Call, replay, carried, last_ids}
use ha_pronote_ng.Delta.Refinement.{member, replay-last_ids, announce-next}
use ha_pronote_ng.Delta.Signatures.{unchanged, event_types-changed, timetable-silent_iff}
use ha_pronote_ng.Delta.Newest.{message_events-newest}

abbrev exercise : String → Homework
exercise i = record {
  id = i;
  subject = some "Maths";
  description = "p. 12";
  description_text = "p. 12";
  due = 20;
  done = false;
  background_color = none;
  attachments = [];
}

abbrev set_of : List Homework → HomeworkFacts
set_of hs = record { homework = hs }

-- Two snapshots of the homework of Léa, and a new name for her between them.
abbrev history : List Call
history =
    Call.renamed "46#a" "46#b"
    ∷ Call.homework_of "46#a" (set_of (exercise "1" ∷ exercise "2" ∷ exercise "1" ∷ []))
    ∷ []

abbrev seen_homework : DeltaDetector
unfolding homework announce new_ids remember unique init
seen_homework = (homework "46#a" (set_of (exercise "1" ∷ exercise "2" ∷ [])) init).0

replay-last_ids_example :
    member "2" ((replay history).seen_ids "46#b" Collection.homework)
    ≡ member "2" (last_ids history "46#b" Collection.homework)
replay-last_ids_example = replay-last_ids "2" "46#b" Collection.homework history

unfoldable third : List Homework
third = exercise "3" ∷ exercise "2" ∷ exercise "3" ∷ []

announce-next_example :
    (xs : List Homework) × ((announce homework_event
        (λ (h : Homework). h.id)
        "46#b"
        Collection.homework
        third
        (replay history)).1
      ≡ map homework_event xs)
    × NoRepeats (map (λ (h : Homework). h.id) xs)
    × ((i : String)
        → in_texts i (map (λ (h : Homework). h.id) xs) ≡ (
            in_texts i (map (λ (h : Homework). h.id) third)
            && not (in_texts i ("1" ∷ "2" ∷ "1" ∷ []))))
    × All (λ (h : Homework). entry h.id (indexed (λ (h : Homework). h.id) third) ≡ some h) xs
unfolding last_ids carried same_collection
announce-next_example =
    announce-next homework_event (λ (h : Homework). h.id) history "46#b" Collection.homework third
      ("1" ∷ "2" ∷ "1" ∷ []) refl

-- What a second snapshot announces: the new identifier, once.
announced_once :
    map
      (λ (e : DeltaEvent). e.entity_key)
      (announce homework_event
        (λ (h : Homework). h.id)
        "46#a"
        Collection.homework
        third
        seen_homework).1
    ≡ "new_homework" ∷ []
unfolding announce announce_new events_of new_ids remember unique homework_event seen_homework
    same_collection third
announced_once = refl

abbrev at_hour : ℕ → Datetime
at_hour h = record { local = h; offset = pos 1 }

abbrev lesson : String → List String → List String → Bool → Lesson
lesson i rooms teachers canceled = record {
  id = i;
  subject = some "Maths";
  subject_id = none;
  teachers = teachers;
  classrooms = rooms;
  groups = [];
  start = at_hour 8;
  end = at_hour 9;
  canceled = canceled;
  status = none;
  detention = false;
  outing = false;
  exempted = false;
  test = false;
  memo = none;
  background_color = none;
  virtual_classrooms = [];
  num = 0;
  place = 1;
  duration = 1;
  end_inferred = false;
}

abbrev algebra : Lesson
algebra = lesson "1" ("A" ∷ "B" ∷ []) ("Noether" ∷ []) false

abbrev geometry : Lesson
geometry = lesson "2" ("C" ∷ []) ("Euler" ∷ "Gauss" ∷ []) false

abbrev first_week : List Lesson
first_week = algebra ∷ geometry ∷ []

abbrev next_week : List Lesson
next_week =
    lesson "1" ("B" ∷ "A" ∷ []) ("Noether" ∷ []) false
    ∷ lesson "2" ("C" ∷ []) ("Gauss" ∷ "Euler" ∷ []) false
    ∷ lesson "3" [] [] true
    ∷ []

abbrev week_facts : List Lesson → TimetableFacts
week_facts ls = record { lessons = ls; all_lessons = ls; weeks_fetched = 12 ∷ [] }

event_types-changed_example :
    event_types (lesson "1" ("B" ∷ []) ("Noether" ∷ []) true) (memo_of algebra) ≢ []
unfolding same_signature change_signature
event_types-changed_example =
    event_types-changed (lesson "1" ("B" ∷ []) ("Noether" ∷ []) true) algebra refl

-- A canceled lesson in fewer rooms: one event for each.
changed_twice :
    event_types (lesson "1" ("B" ∷ []) ("Noether" ∷ []) true) (memo_of algebra)
    ≡ EventType.lesson_canceled ∷ EventType.room_changed ∷ []
unfolding event_types aspects memo_of
changed_twice = refl

abbrev seen_week : DeltaDetector
unfolding init memo_of change_signature
seen_week = record init {
  lesson_signatures = assign "46" (memos_of first_week) init.lesson_signatures;
}

timetable-silent_iff_example :
    ((timetable "46" (week_facts next_week) seen_week).1 ≡ [])
    ↔ All (λ (l : Lesson). unchanged first_week l ≡ true) next_week
unfolding seen_week
timetable-silent_iff_example =
    timetable-silent_iff "46" (week_facts next_week) seen_week first_week refl
      (refl, (refl, (refl, tt)))

-- Rooms and teachers in another order are no change, and a lesson that is new is none.
reordered : (timetable "46" (week_facts next_week) seen_week).1 ≡ []
unfolding seen_week timetable all_changes changes memo_of change_signature same_signature
reordered = refl

abbrev note : String → ℕ → Message
note i h = record { id = i; author = some i; created = at_hour h; content = none }

abbrev thread : Discussion
thread = record {
  id = "t";
  subject = some "Trip";
  creator = none;
  unread = 5;
  closed = false;
  labels = [];
  messages = note "c" 3 ∷ note "a" 1 ∷ note "b" 2 ∷ note "d" 4 ∷ [];
}

message_events-newest_example :
    (older : List Message) × (newest : List Message) × Perm
      (older ++ newest)
      (note "c" 3 ∷ note "a" 1 ∷ note "b" 2 ∷ note "d" 4 ∷ [])
    × (message_events thread 3
        ≡ map (λ (n : Message). message_event thread n.author (some n.created)) newest)
    × All (λ (o : Message). All (λ (n : Message). earlier n.created o.created ≡ false) newest) older
message_events-newest_example =
    message_events-newest thread 3 (note "c" 3) (note "a" 1 ∷ note "b" 2 ∷ note "d" 4 ∷ []) refl
