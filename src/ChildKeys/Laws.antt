-- ===== src/ChildKeys/Laws.antt =====
-- custom_components/carnet_scolaire/child_keys.py: the keys of the table of records.
use ha_pronote_ng.Prelude.{
  str_eq_iff, ◌||◌, ℕ, ◌+◌, ◌<◌, ◌≡◌, refl, sym, ap, ◌∙◌, true, false, Option, none, some, List, [],
  ◌∷◌, ◌++◌, map, String, str_eq, arith,
}
use ha_pronote_ng.ChildKeys.{
  Key, minted, foreign, same_key, has_key, Child, highest, next_key, by_resource, rename, by_name,
  move, Pairing, place_known, place_if, place, settle, settle_all, pair,
}

abbrev pub keys_of : List Child → List Key
keys_of cs = map (λ c. c.key) cs

pub rename-keys_of : (id name : String) (cs : List Child) → keys_of (rename id name cs) ≡ keys_of cs
unfolding rename
rename-keys_of id name [] = refl
rename-keys_of id name (c ∷ cs) = ground (arith, rename-keys_of id name cs)

pub move-keys_of :
    (id name : String) (claimed : List Key) (cs : List Child)
    → keys_of (move id name claimed cs) ≡ keys_of cs
unfolding move
move-keys_of id name claimed [] = refl
move-keys_of id name claimed (c ∷ cs) = ground (arith, move-keys_of id name claimed cs)

pub append-keys_of : (cs ds : List Child) → keys_of (cs ++ ds) ≡ keys_of cs ++ keys_of ds
append-keys_of [] ds = refl
append-keys_of (c ∷ cs) ds = ap (λ (ks : List Key). c.key ∷ ks) (append-keys_of cs ds)

-- A number above the highest is above that of each record.
above_each :
    (n : ℕ) (k : Key) (r name : Option String) (cs : List Child)
    → highest (record { key = k; resource_id = r; name = name } ∷ cs) < n
    → (same_key (minted n) k ≡ false) × (highest cs < n)
unfolding highest same_key
above_each n (minted m) r name cs h = ground arith
above_each n (foreign a) r name cs h = (refl, h)

-- A key whose number is above the highest is in no record.
pub fresh_above :
    (n : ℕ) (cs : List Child) → highest cs < n → has_key (minted n) (keys_of cs) ≡ false
unfolding has_key
fresh_above n [] h = refl
fresh_above n (c ∷ cs) h =
    let (other, below) = above_each n c.key c.resource_id c.name cs h in
    rw (other, fresh_above n cs below) refl

-- No key comes twice.
abbrev pub Distinct : List Key → Type 0
Distinct [] = Unit
Distinct (k ∷ ks) = (has_key k ks ≡ false) × Distinct ks

pub has_key-append :
    (k : Key) (xs ys : List Key) → has_key k (xs ++ ys) ≡ (has_key k xs || has_key k ys)
unfolding has_key
has_key-append k [] ys = refl
has_key-append k (x ∷ xs) ys = ground (arith, has_key-append k xs ys)

pub str_sym : (a b : String) → str_eq a b ≡ true → str_eq b a ≡ true
str_sym a b h = (str_eq_iff b a).1 (sym ((str_eq_iff a b).0 h))

pub same_key_sym : (a b : Key) → same_key a b ≡ same_key b a
unfolding same_key
same_key_sym (minted n) (minted m) = ground arith
same_key_sym (minted n) (foreign b) = refl
same_key_sym (foreign a) (minted m) = refl
same_key_sym (foreign a) (foreign b) = ground (arith, str_sym a b, str_sym b a)

Distinct-append_one :
    (xs : List Key) (k : Key) → Distinct xs → has_key k xs ≡ false → Distinct (xs ++ k ∷ [])
unfolding has_key
Distinct-append_one [] k d h = (refl, tt)
Distinct-append_one (x ∷ xs) k d h = (
  ground (arith, has_key-append x xs (k ∷ []), same_key_sym k x),
  Distinct-append_one xs k d.1 ground arith,
)

place_if-keys_of :
    (id name : String) (o : Option Child) (y : Pairing) (unplaced : List (String × String))
    → keys_of (place_if id name o y unplaced).0.records ≡ keys_of y.records
unfolding place_known
place_if-keys_of id name none y unplaced = refl
place_if-keys_of id name (some c) y unplaced = ground (arith, rename-keys_of id name y.records)

place-keys_of :
    (announced unplaced : List (String × String)) (y : Pairing)
    → keys_of (place announced y unplaced).0.records ≡ keys_of y.records
unfolding place
place-keys_of [] unplaced y = refl
place-keys_of ((id, name) ∷ rest) unplaced y =
    let (y', unplaced') = place_if id name (by_resource id y.records) y unplaced in
    place-keys_of rest unplaced' y' ∙ place_if-keys_of id name (by_resource id y.records) y unplaced

pub settle-Distinct :
    (id name : String) (o : Option Child) (y : Pairing)
    → Distinct (keys_of y.records)
    → Distinct (keys_of (settle id name o y).records)
unfolding settle next_key
settle-Distinct id name none y d = rw append-keys_of (
    Distinct-append_one (keys_of y.records) (next_key y.records) d
      (fresh_above (highest y.records + 1) y.records (omega arith)))
settle-Distinct id name (some c) y d = rw move-keys_of d

settle_all-Distinct :
    (unplaced : List (String × String)) (y : Pairing)
    → Distinct (keys_of y.records)
    → Distinct (keys_of (settle_all unplaced y).records)
unfolding settle_all
settle_all-Distinct [] y d = d
settle_all-Distinct ((id, name) ∷ rest) y d =
    settle_all-Distinct rest _ (settle-Distinct id name (by_name name y.claimed y.records) y d)

-- No key is ever issued twice: where no two stored records have the same key, no two of the table that
-- `pair` returns have, whatever children are announced.
pub pair-Distinct :
    (stored : List Child) (announced : List (String × String))
    → Distinct (keys_of stored)
    → Distinct (keys_of (pair stored announced).records)
unfolding pair
pair-Distinct stored announced d =
    let y : Pairing = record { records = stored; keys = []; claimed = []; notes = [] } in
    settle_all-Distinct (place announced y []).1 (place announced y []).0
      (rw (place-keys_of announced [] y) d)

-- The keys of the table: those that were there, in their order, then new ones.
pub record Extends (ks ks' : List Key) : Type 0 where
  pub added : List Key
  pub same_start : ks' ≡ ks ++ added

append_assoc : (xs ys zs : List Key) → (xs ++ ys) ++ zs ≡ xs ++ (ys ++ zs)
append_assoc [] ys zs = refl
append_assoc (x ∷ xs) ys zs = ap (λ (ks : List Key). x ∷ ks) (append_assoc xs ys zs)

append_nil : (xs : List Key) → xs ++ [] ≡ xs
append_nil [] = refl
append_nil (x ∷ xs) = ap (λ (ks : List Key). x ∷ ks) (append_nil xs)

settle-Extends :
    (id name : String) (o : Option Child) (y : Pairing)
    → Extends (keys_of y.records) (keys_of (settle id name o y).records)
unfolding settle
settle-Extends id name none y = record {
  added = next_key y.records ∷ [];
  same_start = append-keys_of y.records _;
}
settle-Extends id name (some c) y = record {
  added = [];
  same_start = move-keys_of id name y.claimed y.records ∙ sym (append_nil (keys_of y.records));
}

settle_all-Extends :
    (unplaced : List (String × String)) (y : Pairing)
    → Extends (keys_of y.records) (keys_of (settle_all unplaced y).records)
unfolding settle_all
settle_all-Extends [] y = record { added = []; same_start = sym (append_nil (keys_of y.records)) }
settle_all-Extends ((id, name) ∷ rest) y =
    let y' = settle id name (by_name name y.claimed y.records) y in
    let first = settle-Extends id name (by_name name y.claimed y.records) y in
    let later = settle_all-Extends rest y' in
    record {
      added = first.added ++ later.added;
      same_start =
          later.same_start
          ∙ ap (λ (ks : List Key). ks ++ later.added) first.same_start
          ∙ append_assoc (keys_of y.records) first.added later.added;
    }

-- No record is lost, moved or given another key: the keys of the table that `pair` returns are those of
-- the stored table, in their order, and then new ones.
pub pair-Extends :
    (stored : List Child) (announced : List (String × String))
    → Extends (keys_of stored) (keys_of (pair stored announced).records)
unfolding pair
pair-Extends stored announced =
    let y : Pairing = record { records = stored; keys = []; claimed = []; notes = [] } in
    let later = settle_all-Extends (place announced y []).1 (place announced y []).0 in
    record {
      added = later.added;
      same_start =
          later.same_start
          ∙ ap (λ (ks : List Key). ks ++ later.added) (place-keys_of announced [] y);
    }
