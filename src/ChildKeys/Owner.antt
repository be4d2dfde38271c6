-- ===== src/ChildKeys/Owner.antt =====
-- custom_components/carnet_scolaire/child_keys.py: the key that an identifier leads to.
use ha_pronote_ng.Prelude.{
  ◌⊎◌, ℕ, ◌≡◌, refl, sym, ap, ◌∙◌, Bool, true, false, not, ◌&&◌, Option, none, some, List, [], ◌∷◌,
  String, ◌==◌, is_some, str_eq, str_eq_iff, arith, Bool-cases, Option-cases, inl, inr,
  if◌then◌else◌, subst,
}
use ha_pronote_ng.ChildKeys.{
  Key, minted, foreign, same_key, has_key, Child, reads, by_resource, rename, Pairing,
}
use ha_pronote_ng.ChildKeys.Laws.{keys_of, Distinct, same_key_sym}

-- `resource_id` stands among the announced identifiers.
abbrev pub announces : String → List (String × String) → Bool
announces id [] = false
announces id ((other, name) ∷ rest) = if str_eq id other then true else announces id rest

-- No identifier is announced twice.
abbrev pub DistinctIds : List (String × String) → Type 0
DistinctIds [] = Unit
DistinctIds ((id, name) ∷ rest) = (announces id rest ≡ false) × DistinctIds rest

nat_eq : (a b : ℕ) → (a == b) ≡ true → a ≡ b
nat_eq a b h = ground arith

pub same_key-eq : (a b : Key) → same_key a b ≡ true → a ≡ b
unfolding same_key
same_key-eq (minted n) (minted m) h = ap (λ (x : ℕ). minted x) (nat_eq n m h)
same_key-eq (minted n) (foreign b) h = cc
same_key-eq (foreign a) (minted m) h = cc
same_key-eq (foreign a) (foreign b) h = ap (λ (x : String). foreign x) ((str_eq_iff a b).0 h)

-- The key of the record that `by_resource` finds.
unfoldable pub owner : String → List Child → Option Key
owner id [] = none
owner id (c ∷ cs) =
    let rest = owner id cs in
    if is_some rest
    then rest
    else if reads c.resource_id id && not (str_eq id "")
    then some c.key
    else none

abbrev pub key_of : Option Child → Option Key
key_of none = none
key_of (some c) = some c.key

pub owner-by_resource : (id : String) (cs : List Child) → owner id cs ≡ key_of (by_resource id cs)
unfolding owner by_resource
owner-by_resource id [] = refl
owner-by_resource id (c ∷ cs) = ground (arith, owner-by_resource id cs)

found_alike : (id : String) (cs : List Child) → is_some (owner id cs) ≡ is_some (by_resource id cs)
found_alike id cs = ground (arith, owner-by_resource id cs)

pub owner-rename :
    (id other name : String) (cs : List Child) → owner id (rename other name cs) ≡ owner id cs
unfolding owner rename
owner-rename id other name [] = refl
owner-rename id other name (c ∷ cs) = ground (arith, owner-rename id other name cs)

pub same_key_refl : (k : Key) → same_key k k ≡ true
unfolding same_key
same_key_refl (minted n) = ground arith
same_key_refl (foreign a) = (str_eq_iff a a).1 refl

reads_one :
    (r : Option String) (a b : String) → reads r a ≡ true → reads r b ≡ true → str_eq a b ≡ true
reads_one none a b ha hb = cc
reads_one (some v) a b ha hb =
    (str_eq_iff a b).1 (sym ((str_eq_iff v a).0 ha) ∙ (str_eq_iff v b).0 hb)

-- The owner is a later record or the first one.
owner-first :
    (id : String) (k : Key) (c : Child) (cs : List Child)
    → owner id (c ∷ cs) ≡ some k
    → (owner id cs ≡ some k) ⊎ ((c.key ≡ k) × (reads c.resource_id id ≡ true))
unfolding owner
owner-first id k c cs h = elim (Option-cases (owner id cs)) [
  | inl e ↦ inr (ground arith, ground arith)
  | inr (l, e) ↦ inl (ground arith)
]

pub has_key-owner :
    (id : String) (k : Key) (cs : List Child) → owner id cs ≡ some k → has_key k (keys_of cs) ≡ true
unfolding owner has_key
has_key-owner id k [] h = cc
has_key-owner id k (c ∷ cs) h = elim (owner-first id k c cs h) [
  | inl e ↦ ground (arith, has_key-owner id k cs e)
  | inr (e, f) ↦
      ground (arith, e, subst (λ (x : Key). same_key k x ≡ true) (sym e) (same_key_refl k))
]

-- Two keys of which one is in a list and the other is not.
in_apart :
    (k l : Key) (ks : List Key) → has_key k ks ≡ true → has_key l ks ≡ false → same_key k l ≡ false
in_apart k l ks h n = elim (Bool-cases (same_key k l)) [
  | inl e ↦ let h' = subst (λ (x : Key). has_key x ks ≡ true) (same_key-eq k l e) h in cc
  | inr e ↦ e
]

pub owner_apart :
    (a b : String) (k l : Key) (cs : List Child)
    → Distinct (keys_of cs)
    → owner a cs ≡ some k
    → owner b cs ≡ some l
    → str_eq a b ≡ false
    → same_key k l ≡ false
unfolding owner
owner_apart a b k l [] d ha hb n = cc
owner_apart a b k l (c ∷ cs) d ha hb n = elim (owner-first a k c cs ha) [
  | inl e ↦ elim (owner-first b l c cs hb) [
    | inl e' ↦ owner_apart a b k l cs d.1 e e' n
    | inr (e', f') ↦
        in_apart k l (keys_of cs) (has_key-owner a k cs e)
          (subst (λ (x : Key). has_key x (keys_of cs) ≡ false) e' d.0)
  ]
  | inr (e, f) ↦ elim (owner-first b l c cs hb) [
    | inl e' ↦
        same_key_sym k l
        ∙ in_apart l k (keys_of cs) (has_key-owner b l cs e')
            (subst (λ (x : Key). has_key x (keys_of cs) ≡ false) e d.0)
    | inr (e', f') ↦ let same = reads_one c.resource_id a b f f' in cc
  ]
]

pub other_id :
    (a b : String) (rest : List (String × String))
    → announces a rest ≡ true
    → announces b rest ≡ false
    → str_eq a b ≡ false
other_id a b rest h n = elim (Bool-cases (str_eq a b)) [
  | inl e ↦ let h' = subst (λ (x : String). announces x rest ≡ true) ((str_eq_iff a b).0 e) h in cc
  | inr e ↦ e
]

pub owner-renamed :
    (other id name : String) (c : Child) (y : Pairing)
    → owner other (if reads c.name name then y.records else rename id name y.records)
      ≡ owner other y.records
owner-renamed other id name c y = ground (arith, owner-rename other id name y.records)
