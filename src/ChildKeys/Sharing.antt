-- ===== src/ChildKeys/Sharing.antt =====
-- custom_components/carnet_scolaire/child_keys.py: the keys of different children.
use ha_pronote_ng.Prelude.{
  ◌+◌, ◌≡◌, refl, sym, ap, ◌∙◌, true, false, Option, none, some, List, [], ◌∷◌, map, String,
  str_eq_iff, arith, Bool-cases, Option-cases, inl, inr, if◌then◌else◌, subst,
}
use ha_pronote_ng.ChildKeys.{
  Key, same_key, has_key, Child, highest, next_key, reads, by_resource, rename, answers, by_name,
  Pairing, place_known, place, settle, settle_all, pair,
}
use ha_pronote_ng.ChildKeys.Laws.{
  keys_of, Distinct, fresh_above, rename-keys_of, move-keys_of, append-keys_of, has_key-append,
  settle-Distinct,
}
use ha_pronote_ng.ChildKeys.Owner.{
  announces, DistinctIds, owner, key_of, same_key-eq, owner-by_resource, has_key-owner, owner_apart,
  same_key_refl, other_id, owner-renamed,
}

-- What holds of a pairing while children are still to be placed by their identifiers.
record Unshared (y : Pairing) (rest : List (String × String)) : Type 0 where
  table : Distinct (keys_of y.records)
  apart : Distinct y.claimed
  given : map (λ (p : String × Key). p.1) y.keys ≡ y.claimed
  within : (k : Key) → has_key k y.claimed ≡ true → has_key k (keys_of y.records) ≡ true
  free :
      (id : String) (k : Key)
      → announces id rest ≡ true
      → owner id y.records ≡ some k
      → has_key k y.claimed ≡ false

place_known-Unshared :
    (id name : String) (c : Child) (y : Pairing) (rest : List (String × String))
    → by_resource id y.records ≡ some c
    → announces id rest ≡ false
    → Unshared y ((id, name) ∷ rest)
    → Unshared (place_known id name c y) rest
unfolding place_known has_key
place_known-Unshared id name c y rest found once u =
    let own : owner id y.records ≡ some c.key = owner-by_resource id y.records ∙ ap key_of found in
    let records' = if reads c.name name then y.records else rename id name y.records in
    let same : keys_of records' ≡ keys_of y.records =
      ground (arith, rename-keys_of id name y.records) in
    let mine = (str_eq_iff id id).1 refl in
    record {
      table = subst Distinct (sym same) u.table;
      apart = (u.free id c.key (ground arith) own, u.apart);
      given = ap (λ (ks : List Key). c.key ∷ ks) u.given;
      within = λ k h. rw same (elim (Bool-cases (same_key k c.key)) [
        | inl e ↦
            subst (λ (x : Key). has_key x (keys_of y.records) ≡ true) (sym (same_key-eq k c.key e))
              (has_key-owner id c.key y.records own)
        | inr e ↦ u.within k (ground arith)
      ]);
      free = λ other k a o.
          let differ = other_id other id rest a once in
          let o' : owner other y.records ≡ some k = sym (owner-renamed other id name c y) ∙ o in
          let apart' = owner_apart other id k c.key y.records u.table o' own differ in
          let before = u.free other k (ground arith) o' in ground arith;
    }

place-Unshared :
    (announced unplaced : List (String × String)) (y : Pairing)
    → DistinctIds announced
    → Unshared y announced
    → Unshared (place announced y unplaced).0 []
unfolding place
place-Unshared [] unplaced y d u = u
place-Unshared ((id, name) ∷ rest) unplaced y d u = elim (Option-cases (by_resource id y.records)) [
  | inl e ↦
      rw (e, place)
        (place-Unshared rest _ y d.1 (record {
          table = u.table;
          apart = u.apart;
          given = u.given;
          within = u.within;
          free = λ other k a o. u.free other k (ground arith) o;
        }))
  | inr (c, e) ↦
      rw (e, place)
        (place-Unshared rest unplaced (place_known id name c y) d.1
          (place_known-Unshared id name c y rest e d.0 u))
]

some_eq : (a b : Child) → some a ≡ some b → a ≡ b
some_eq a b h = cc

by_name-free :
    (name : String) (claimed : List Key) (c : Child) (cs : List Child)
    → by_name name claimed cs ≡ some c
    → (has_key c.key claimed ≡ false) × (has_key c.key (keys_of cs) ≡ true)
unfolding by_name answers has_key
by_name-free name claimed c [] h = cc
by_name-free name claimed c (x ∷ xs) h = elim (Bool-cases (answers name claimed x)) [
  | inl e ↦
      let k : some x ≡ some c = rw e at h in
      subst
        (λ (z : Child). (has_key z.key claimed ≡ false) × (has_key z.key (keys_of (x ∷ xs)) ≡ true))
        (some_eq x c k) (ground (arith, same_key_refl x.key))
  | inr e ↦
      let k : by_name name claimed xs ≡ some c = rw e at h in
      ground (arith, by_name-free name claimed c xs k)
]

-- A key that stands in no record is not claimed.
unclaimed :
    (k : Key) (y : Pairing)
    → Unshared y []
    → has_key k (keys_of y.records) ≡ false
    → has_key k y.claimed ≡ false
unclaimed k y u h = elim (Bool-cases (has_key k y.claimed)) [
  | inl e ↦ let e' = u.within k e in cc
  | inr e ↦ e
]

settle-Unshared :
    (id name : String) (o : Option Child) (y : Pairing)
    → by_name name y.claimed y.records ≡ o
    → Unshared y []
    → Unshared (settle id name o y) []
unfolding settle next_key has_key
settle-Unshared id name none y e u =
    let k = next_key y.records in
    let fresh = fresh_above (highest y.records + 1) y.records (omega arith) in
    let keys =
      append-keys_of y.records (record { key = k; resource_id = some id; name = some name } ∷ []) in
    record {
      table = settle-Distinct id name none y u.table;
      apart = (unclaimed k y u fresh, u.apart);
      given = ap (λ (ks : List Key). k ∷ ks) u.given;
      within = λ l h.
          rw (keys, has_key-append)
            (elim (Bool-cases (has_key l y.claimed)) [
              | inl e ↦ rw (u.within l e) refl
              | inr e ↦ ground (arith, has_key-append l (keys_of y.records) (k ∷ []))
            ]);
      free = λ other l a o. cc;
    }
settle-Unshared id name (some c) y e u =
    let (free, there) = by_name-free name y.claimed c y.records e in
    record {
      table = settle-Distinct id name (some c) y u.table;
      apart = (free, u.apart);
      given = ap (λ (ks : List Key). c.key ∷ ks) u.given;
      within = λ l h. rw move-keys_of (elim (Bool-cases (same_key l c.key)) [
        | inl e ↦
            subst (λ (x : Key). has_key x (keys_of y.records) ≡ true) (sym (same_key-eq l c.key e))
              there
        | inr e ↦ u.within l (ground arith)
      ]);
      free = λ other l a o. cc;
    }

settle_all-Unshared :
    (unplaced : List (String × String)) (y : Pairing)
    → Unshared y []
    → Unshared (settle_all unplaced y) []
unfolding settle_all
settle_all-Unshared [] y u = u
settle_all-Unshared ((id, name) ∷ rest) y u =
    settle_all-Unshared rest _ (settle-Unshared id name _ y refl u)

-- No two children share a key: where no identifier is announced twice, and no two stored records have the
-- same key, the keys that `pair` gives to the announced children are all different.
pub pair_shares_nothing :
    (stored : List Child) (announced : List (String × String))
    → DistinctIds announced
    → Distinct (keys_of stored)
    → Distinct (map (λ (p : String × Key). p.1) (pair stored announced).keys)
unfolding pair has_key
pair_shares_nothing stored announced once d =
    let y : Pairing = record { records = stored; keys = []; claimed = []; notes = [] } in
    let u : Unshared y announced = record {
      table = d;
      apart = tt;
      given = refl;
      within = λ k h. cc;
      free = λ id k a o. refl;
    } in
    let v =
      settle_all-Unshared (place announced y []).1 (place announced y []).0
        (place-Unshared announced [] y once u) in
    subst Distinct (sym v.given) v.apart
