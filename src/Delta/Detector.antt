-- ===== src/Delta/Detector.antt =====
-- custom_components/carnet_scolaire/delta.py: what `DeltaDetector` remembers, and what becomes of it when
-- a student is renamed or forgotten.
use ha_pronote_ng.Prelude.{
  ℕ, Bool, true, false, not, ◌&&◌, Option, none, some, is_some, List, [], ◌∷◌, String, str_eq, keep,
  if◌then◌else◌,
}
use ha_pronote_ng.Models.Text.{in_texts}
use ha_pronote_ng.Delta.Context.{LessonMemo}

-- The name of a collection: `f"grades:{period_id}"`, `"homework"` and so on, of which no two are equal.
pub data Collection : Type 0 where
  grades absences delays punishments evaluations : String → Collection
  homework news : Collection

-- `a == b`
unfoldable pub same_collection : Collection → Collection → Bool
same_collection (grades p) (grades q) = str_eq p q
same_collection (absences p) (absences q) = str_eq p q
same_collection (delays p) (delays q) = str_eq p q
same_collection (punishments p) (punishments q) = str_eq p q
same_collection (evaluations p) (evaluations q) = str_eq p q
same_collection homework homework = true
same_collection news news = true
same_collection _ _ = false

-- A dictionary is a function from its keys; one of lessons or threads lists its assignments.
pub record DeltaDetector : Type 0 where
  pub seen_ids : String → Collection → Option (List String)
  pub lesson_signatures : String → Option (List (String × LessonMemo))
  pub unread : String → Option (List (String × ℕ))

-- `DeltaDetector.__init__`
unfoldable pub init : DeltaDetector
init = record {
  seen_ids = λ student collection. none;
  lesson_signatures = λ student. none;
  unread = λ student. none;
}

-- `d[k] = v`
abbrev pub assign {ℓ} : {A : Type ℓ} → String → A → (String → Option A) → String → Option A
assign k v d k' = if str_eq k k' then some v else d k'

-- `d.get(k)`, for a dictionary that lists its assignments: the last one to a key counts
abbrev pub entry {ℓ} : {A : Type ℓ} → String → List (String × A) → Option A
entry k [] = none
entry k ((j, v) ∷ d) = elim (entry k d) [
  | none ↦ if str_eq k j then some v else none
  | some w ↦ some w
]

-- `dict.fromkeys(ids)`, from the identifiers that are already in it: each once, in the order in which
-- they first come
unfoldable pub unique : List String → List String → List String
unique seen [] = []
unique seen (x ∷ xs) = if in_texts x seen then unique seen xs else x ∷ unique (x ∷ seen) xs

-- `self._seen_ids[key] = ids`
unfoldable pub remember : String → Collection → List String → DeltaDetector → DeltaDetector
remember student collection ids d = record d {
  seen_ids =
      λ s c. if str_eq student s && same_collection collection c then some ids else d.seen_ids s c;
}

-- `_new_ids`: the new state, and the identifiers not seen before, or `none` on the first pass
unfoldable pub new_ids :
    String → Collection → List String → DeltaDetector → DeltaDetector × Option (List String)
new_ids student collection ids d =
    let fresh = unique [] ids in
    (
      remember student collection fresh d,
      elim (d.seen_ids student collection) [
        | none ↦ none
        | some previous ↦ some (keep (λ x. not (in_texts x previous)) fresh)
      ],
    )

-- What `rename` leaves of a dictionary by student: what the old name had goes to the new one.
abbrev pub moved {ℓ} : {A : Type ℓ} → String → String → (String → Option A) → String → Option A
moved old new d s =
    if is_some (d old) && not (str_eq old new)
    then (if str_eq s new then d old else if str_eq s old then none else d s)
    else d s

-- `rename`
unfoldable pub rename : String → String → DeltaDetector → DeltaDetector
rename old new d = record {
  seen_ids = λ s c. moved old new (λ s'. d.seen_ids s' c) s;
  lesson_signatures = moved old new d.lesson_signatures;
  unread = moved old new d.unread;
}

-- `forget`
unfoldable pub forget : String → DeltaDetector → DeltaDetector
forget student d = record {
  seen_ids = λ s c. if str_eq student s then none else d.seen_ids s c;
  lesson_signatures = λ s. if str_eq student s then none else d.lesson_signatures s;
  unread = λ s. if str_eq student s then none else d.unread s;
}
