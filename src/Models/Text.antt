-- ===== src/Models/Text.antt =====
-- custom_components/carnet_scolaire/models.py: instants, decimals, and the texts and sets of texts that
-- the models are compared by.
use ha_pronote_ng.Prelude.{
  ℕ, ◌+◌, Bool, true, false, not, ◌&&◌, ◌||◌, Option, none, some, List, [], ◌∷◌, String, ◌==◌,
  str_eq,
}
use ha_pronote_ng.Prelude.Int.{ℤ, pos_part, neg_part}

-- `datetime`, with its offset to UTC in microseconds
pub record Datetime : Type 0 where
  pub local : ℕ
  pub offset : ℤ

-- `a - offset(a) == b - offset(b)`, the equality of two aware datetimes
abbrev pub same_instant : Datetime → Datetime → Bool
same_instant a b =
    a.local + neg_part a.offset + pos_part b.offset
    == b.local + neg_part b.offset + pos_part a.offset

-- `a.isoformat() == b.isoformat()`
abbrev pub same_iso : Datetime → Datetime → Bool
same_iso a b =
    a.local == b.local
    && (pos_part a.offset == pos_part b.offset && neg_part a.offset == neg_part b.offset)

-- `mantissa * 10 ** -scale`
pub record Decimal : Type 0 where
  pub mantissa : ℤ
  pub scale : ℕ

-- `a == b` for `str | None`
abbrev pub same_text : Option String → Option String → Bool
same_text none none = true
same_text none (some b) = false
same_text (some a) none = false
same_text (some a) (some b) = str_eq a b

-- `a == b` for Booleans
abbrev pub same_bool : Bool → Bool → Bool
same_bool true b = b
same_bool false b = not b

-- `x in xs`
abbrev pub in_texts : String → List String → Bool
in_texts x [] = false
in_texts x (y ∷ ys) = str_eq x y || in_texts x ys

abbrev pub covered : List String → List String → Bool
covered [] ys = true
covered (x ∷ xs) ys = in_texts x ys && covered xs ys

-- `frozenset(xs) == frozenset(ys)`
abbrev pub same_set : List String → List String → Bool
same_set xs ys = covered xs ys && covered ys xs
