-- ===== src/ChildKeys.antt =====
-- custom_components/carnet_scolaire/child_keys.py: the pairing of the children that an account announces
-- with the records of those seen before. A record is known to have a key; the dictionaries of a record
-- are shared with `by_resource`, so a change through it is a change of the table.
pub mod Laws
pub mod Owner
pub mod Sharing
pub mod Placing
mod Tests
use ha_pronote_ng.Prelude.{
  ℕ, ◌+◌, max, Bool, true, false, not, ◌&&◌, Option, none, some, List, [], ◌∷◌, ◌++◌, String, ◌==◌,
  is_some, str_eq, if◌then◌else◌,
}

-- A key: `minted n` is the text "child-n", and `foreign` one that does not match `_KEY_NUMBER`.
pub data Key : Type 0 where
  minted : ℕ → Key
  foreign : String → Key

-- `a == b`
unfoldable pub same_key : Key → Key → Bool
same_key (minted n) (minted m) = n == m
same_key (foreign a) (foreign b) = str_eq a b
same_key _ _ = false

-- `key in keys`
unfoldable pub has_key : Key → List Key → Bool
has_key k [] = false
has_key k (x ∷ xs) = if same_key k x then true else has_key k xs

pub record Child : Type 0 where
  pub key : Key
  pub resource_id : Option String
  pub name : Option String

-- `is_minted`
unfoldable pub is_minted : Key → Bool
is_minted (minted n) = true
is_minted (foreign a) = false

-- `max(used, default=0)`
unfoldable pub highest : List Child → ℕ
highest [] = 0
highest (c ∷ cs) = let rest = highest cs in elim c.key [ minted n ↦ max n rest | foreign a ↦ rest ]

-- `_next_key`
unfoldable pub next_key : List Child → Key
next_key records = minted (highest records + 1)

-- `record.get(field) == value`
abbrev pub reads : Option String → String → Bool
reads none value = false
reads (some v) value = str_eq v value

-- `by_resource.get(resource_id)`: of several records with one identifier, the last; an empty identifier
-- is not in the dictionary
unfoldable pub by_resource : String → List Child → Option Child
by_resource id [] = none
by_resource id (c ∷ cs) =
    let rest = by_resource id cs in
    if is_some rest
    then rest
    else if reads c.resource_id id && not (str_eq id "")
    then some c
    else none

-- `record[CHILD_NAME] = name`, for the record that `by_resource` finds
unfoldable pub rename : String → String → List Child → List Child
rename id name [] = []
rename id name (c ∷ cs) =
    let rest = rename id name cs in
    if is_some (by_resource id cs)
    then c ∷ rest
    else if reads c.resource_id id && not (str_eq id "")
    then record c { name = some name } ∷ cs
    else c ∷ cs

-- The test of the search by name.
unfoldable pub answers : String → List Key → Child → Bool
answers name claimed c = reads c.name name && not (has_key c.key claimed)

-- The search by name: the first record that is not claimed.
unfoldable pub by_name : String → List Key → List Child → Option Child
by_name name claimed [] = none
by_name name claimed (c ∷ cs) =
    let rest = by_name name claimed cs in if answers name claimed c then some c else rest

-- `match[CHILD_RESOURCE_ID] = resource_id`, for the record that `by_name` finds
unfoldable pub move : String → String → List Key → List Child → List Child
move id name claimed [] = []
move id name claimed (c ∷ cs) =
    let rest = move id name claimed cs in
    if answers name claimed c then record c { resource_id = some id } ∷ cs else c ∷ rest

-- What is said of a child: another name, a child never seen before, another resource identifier.
pub data Note : Type 0 where
  another_name new_child another_id : Key → Note

pub record Pairing : Type 0 where
  pub records : List Child
  pub keys : List (String × Key)
  pub claimed : List Key
  pub notes : List Note

-- The first loop, for a child whose identifier is known.
unfoldable pub place_known : String → String → Child → Pairing → Pairing
place_known id name c y = record {
  records = if reads c.name name then y.records else rename id name y.records;
  keys = (id, c.key) ∷ y.keys;
  claimed = c.key ∷ y.claimed;
  notes = if reads c.name name then y.notes else y.notes ++ another_name c.key ∷ [];
}

abbrev pub place_if :
    String
    → String
    → Option Child
    → Pairing
    → List (String × String)
    → Pairing × List (String × String)
place_if id name none y unplaced = (y, unplaced ++ (id, name) ∷ [])
place_if id name (some c) y unplaced = (place_known id name c y, unplaced)

-- The first loop: the pairing so far, and the children that it does not place.
unfoldable pub place :
    List (String × String) → Pairing → List (String × String) → Pairing × List (String × String)
place [] y unplaced = (y, unplaced)
place ((id, name) ∷ rest) y unplaced =
    let (y', unplaced') = place_if id name (by_resource id y.records) y unplaced in
    place rest y' unplaced'

-- The second loop, for one child: a record that is found by name, or a new one.
unfoldable pub settle : String → String → Option Child → Pairing → Pairing
settle id name none y =
    let k = next_key y.records in
    record {
      records = y.records ++ record { key = k; resource_id = some id; name = some name } ∷ [];
      keys = (id, k) ∷ y.keys;
      claimed = k ∷ y.claimed;
      notes = y.notes ++ new_child k ∷ [];
    }
settle id name (some c) y = record {
  records = move id name y.claimed y.records;
  keys = (id, c.key) ∷ y.keys;
  claimed = c.key ∷ y.claimed;
  notes = y.notes ++ another_id c.key ∷ [];
}

-- The second loop.
unfoldable pub settle_all : List (String × String) → Pairing → Pairing
settle_all [] y = y
settle_all ((id, name) ∷ rest) y =
    settle_all rest (settle id name (by_name name y.claimed y.records) y)

-- `pair`; `keys` lists its dictionary, the latest assignment first
unfoldable pub pair : List Child → List (String × String) → Pairing
pair stored announced =
    let (y, unplaced) =
      place announced (record { records = stored; keys = []; claimed = []; notes = [] }) [] in
    settle_all unplaced y
