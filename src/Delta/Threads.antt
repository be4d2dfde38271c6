-- ===== src/Delta/Threads.antt =====
-- custom_components/carnet_scolaire/delta.py: the messages of the discussions, by the unread counts.
use ha_pronote_ng.Prelude.{
  ℕ, ◌+◌, ◌-◌, Option, none, some, List, [], ◌∷◌, ◌++◌, map, String, leb, ltb, if◌then◌else◌, Bool,
}
use ha_pronote_ng.Prelude.Int.{pos_part, neg_part}
use ha_pronote_ng.Models.Text.{Datetime}
use ha_pronote_ng.Models.School.{Message, Discussion, DiscussionsFacts}
use ha_pronote_ng.Models.Lifetime.{last_ones}
use ha_pronote_ng.Delta.Context.{DeltaEvent, message_event}
use ha_pronote_ng.Delta.Detector.{DeltaDetector, assign, entry}

-- `_NEW_THREAD_CAP`
abbrev pub new_thread_cap : ℕ
new_thread_cap = 3

-- `a < b`, for aware datetimes
abbrev pub earlier : Datetime → Datetime → Bool
earlier a b =
    ltb (a.local + neg_part a.offset + pos_part b.offset)
      (b.local + neg_part b.offset + pos_part a.offset)

-- `sorted(messages, key=lambda message: message.created)`, which is stable
unfoldable pub insert_message : Message → List Message → List Message
insert_message m [] = m ∷ []
insert_message m (n ∷ ms) =
    let rest = insert_message m ms in if earlier n.created m.created then n ∷ rest else m ∷ n ∷ ms

unfoldable pub by_created : List Message → List Message
by_created [] = []
by_created (m ∷ ms) = insert_message m (by_created ms)

-- `_message_events`
unfoldable pub message_events : Discussion → ℕ → List DeltaEvent
message_events thread before = elim thread.messages [
  | [] ↦ message_event thread none none ∷ []
  | m ∷ ms ↦
      map (λ (n : Message). message_event thread n.author (some n.created))
        (last_ones (thread.unread - before) (by_created (m ∷ ms)))
]

-- One round of the loop of `discussions`, on what was remembered of the thread
unfoldable pub thread_events : Discussion → Option ℕ → List DeltaEvent
thread_events thread none =
    if leb thread.unread 0 then [] else message_events thread (thread.unread - new_thread_cap)
thread_events thread (some before) =
    if leb thread.unread before then [] else message_events thread before

unfoldable pub threads_events : List (String × ℕ) → List Discussion → List DeltaEvent
threads_events previous [] = []
threads_events previous (thread ∷ threads) =
    thread_events thread (entry thread.id previous) ++ threads_events previous threads

-- `{thread.id: thread.unread for thread in threads}`
abbrev pub unread_counts : List Discussion → List (String × ℕ)
unread_counts = map (λ (t : Discussion). (t.id, t.unread))

unfoldable pub discussions :
    String → DiscussionsFacts → DeltaDetector → DeltaDetector × List DeltaEvent
discussions student facts d = (
  record d { unread = assign student (unread_counts facts.discussions) d.unread },
  elim (d.unread student) [ none ↦ [] | some previous ↦ threads_events previous facts.discussions ],
)
