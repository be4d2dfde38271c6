-- ===== src/ChildKeys/Tests.antt =====
-- custom_components/carnet_scolaire/child_keys.py: concrete pairings.
use ha_pronote_ng.ChildKeys.Owner.{announces}
use ha_pronote_ng.ChildKeys.Placing.{assigned, assigned-pair}
use ha_pronote_ng.ChildKeys.Sharing.{pair_shares_nothing}
use ha_pronote_ng.Prelude.{map, ◌≡◌, refl, some, List, [], ◌∷◌, String}
use ha_pronote_ng.ChildKeys.{
  Key, minted, Child, pair, place, place_known, settle, settle_all, by_resource, by_name, rename,
  move, answers, has_key, same_key, highest, next_key,
}
use ha_pronote_ng.ChildKeys.Laws.{Distinct}

abbrev twins : List Child
twins =
    record { key = minted 1; resource_id = some "46#a"; name = some "Marie" }
    ∷ record { key = minted 2; resource_id = some "46#b"; name = some "Marie" }
    ∷ []

-- Both identifiers rotate and a third child arrives.
abbrev rotated : List (String × String)
rotated = ("46#c", "Marie") ∷ ("46#d", "Marie") ∷ ("46#e", "Paul") ∷ []

pair-rotated :
    (pair twins rotated).keys ≡ ("46#e", minted 3) ∷ ("46#d", minted 2) ∷ ("46#c", minted 1) ∷ []
unfolding pair place place_known settle settle_all by_resource by_name rename move answers has_key
    same_key highest next_key
pair-rotated = refl

pair_shares_nothing_example : Distinct (map (λ (p : String × Key). p.1) (pair twins rotated).keys)
unfolding has_key same_key
pair_shares_nothing_example =
    pair_shares_nothing twins rotated (refl, (refl, (refl, tt))) (refl, (refl, tt))

assigned-pair_example : assigned "46#d" (pair twins rotated).keys ≡ announces "46#d" rotated
assigned-pair_example = assigned-pair twins rotated "46#d"
