-- ===== src/ChildKeys/Placing.antt =====
-- custom_components/carnet_scolaire/child_keys.py: which identifiers get a key.
use ha_pronote_ng.Prelude.{
  ◌≡◌, refl, Bool, true, false, ◌||◌, Option, none, some, List, [], ◌∷◌, ◌++◌, String, str_eq,
  arith, if◌then◌else◌,
}
use ha_pronote_ng.ChildKeys.{
  Key, Child, by_resource, by_name, Pairing, place_known, place_if, place, settle, settle_all, pair,
}
use ha_pronote_ng.ChildKeys.Owner.{announces}

-- `id in keys`
abbrev pub assigned : String → List (String × Key) → Bool
assigned id [] = false
assigned id ((other, k) ∷ rest) = if str_eq id other then true else assigned id rest

announces-append :
    (id : String) (xs ys : List (String × String))
    → announces id (xs ++ ys) ≡ (announces id xs || announces id ys)
announces-append id [] ys = refl
announces-append id ((other, name) ∷ xs) ys = ground (arith, announces-append id xs ys)

-- A child is placed or stands among those that are not.
abbrev handled : String → Pairing × List (String × String) → Bool
handled id (y, unplaced) = assigned id y.keys || announces id unplaced

place_if-handled :
    (x id name : String) (o : Option Child) (y : Pairing) (unplaced : List (String × String))
    → handled x (place_if id name o y unplaced)
      ≡ (handled x (y, unplaced) || announces x ((id, name) ∷ []))
unfolding place_known
place_if-handled x id name none y unplaced =
    ground (arith, announces-append x unplaced ((id, name) ∷ []))
place_if-handled x id name (some c) y unplaced = ground arith

place-handled :
    (x : String) (announced unplaced : List (String × String)) (y : Pairing)
    → handled x (place announced y unplaced) ≡ (handled x (y, unplaced) || announces x announced)
unfolding place
place-handled x [] unplaced y = ground arith
place-handled x ((id, name) ∷ rest) unplaced y =
    let (y', unplaced') = place_if id name (by_resource id y.records) y unplaced in
    ground (
      arith,
      place-handled x rest unplaced' y',
      place_if-handled x id name (by_resource id y.records) y unplaced,
    )

settle-assigned :
    (x id name : String) (o : Option Child) (y : Pairing)
    → assigned x (settle id name o y).keys ≡ (assigned x y.keys || announces x ((id, name) ∷ []))
unfolding settle
settle-assigned x id name none y = ground arith
settle-assigned x id name (some c) y = ground arith

settle_all-assigned :
    (x : String) (unplaced : List (String × String)) (y : Pairing)
    → assigned x (settle_all unplaced y).keys ≡ (assigned x y.keys || announces x unplaced)
unfolding settle_all
settle_all-assigned x [] y = ground arith
settle_all-assigned x ((id, name) ∷ rest) y =
    let y' = settle id name (by_name name y.claimed y.records) y in
    ground (
      arith,
      settle_all-assigned x rest y',
      settle-assigned x id name (by_name name y.claimed y.records) y,
    )

-- Every announced child gets a key, and no other identifier does.
pub assigned-pair :
    (stored : List Child) (announced : List (String × String)) (id : String)
    → assigned id (pair stored announced).keys ≡ announces id announced
unfolding pair
assigned-pair stored announced id =
    let y : Pairing = record { records = stored; keys = []; claimed = []; notes = [] } in
    ground (
      arith,
      place-handled id announced [] y,
      settle_all-assigned id (place announced y []).1 (place announced y []).0,
    )
