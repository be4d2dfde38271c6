-- ===== src/Options/Clamp.antt =====
-- custom_components/carnet_scolaire/options.py: the range in which a bounded option lies.
use ha_pronote_ng.Prelude.{
  ℕ, ◌≤◌, ◌≡◌, refl, sym, ap, ◌∙◌, inl, inr, Bool, true, false, Option, none, some, arith,
  Bool-cases, Option-cases,
}
use ha_pronote_ng.Prelude.Int.{pos, negsuc}
use ha_pronote_ng.Options.Read.{
  Key, Number, finite, plus_infinity, minus_infinity, nan, Stored, number, unreadable, too_large,
  less, larger, smaller, clamped, range_of, bounded_option,
}

-- What is stored, if anything is, is neither `nan` nor an integer past the largest float.
abbrev pub is_clean : Option Stored → Bool
is_clean none = true
is_clean (some (number (finite z))) = true
is_clean (some (number plus_infinity)) = true
is_clean (some (number minus_infinity)) = true
is_clean (some (number nan)) = false
is_clean (some unreadable) = true
is_clean (some too_large) = false

-- A number between two.
abbrev pub Within : ℕ → ℕ → Option Number → Type 0
Within low high x = (n : ℕ) × (x ≡ some (finite (pos n))) × (low ≤ n) × (n ≤ high)

smaller-Within :
    (low high m : ℕ)
    → low ≤ m
    → low ≤ high
    → Within low high (some (smaller (finite (pos m)) (finite (pos high))))
unfolding less
smaller-Within low high m h k = elim (Bool-cases (less (finite (pos high)) (finite (pos m)))) [
  | inl e ↦ rw (e, smaller) (high, refl, k, omega arith)
  | inr e ↦ rw (e, smaller) (m, refl, h, ground arith)
]

clamped-Within :
    (low high : ℕ) (x : Number)
    → low ≤ high
    → is_clean (some (number x)) ≡ true
    → Within low high (some (clamped (some (low, high)) x))
unfolding clamped less
clamped-Within low high (finite (pos n)) h c =
    elim (Bool-cases (less (finite (pos n)) (finite (pos low)))) [
      | inl e ↦ rw (e, larger) (smaller-Within low high low (omega arith) h)
      | inr e ↦ rw (e, larger) (smaller-Within low high n (ground arith) h)
    ]
clamped-Within low high (finite (negsuc n)) h c =
    elim (Bool-cases (less (finite (negsuc n)) (finite (pos low)))) [
      | inl e ↦ rw (e, larger) (smaller-Within low high low (omega arith) h)
      | inr e ↦ ground arith
    ]
clamped-Within low high plus_infinity h c = (high, refl, h, omega arith)
clamped-Within low high minus_infinity h c = smaller-Within low high low (omega arith) h
clamped-Within low high nan h c = cc

-- What is read of a clean option with a range lies in the range, whatever is stored.
pub bounded_option-Within :
    (options : Key → Option Stored) (key : Key) (bounds : Option (ℕ × ℕ)) (default low high : ℕ)
    → range_of bounds key ≡ some (low, high)
    → low ≤ default
    → default ≤ high
    → is_clean (options key) ≡ true
    → Within low high (bounded_option options key default bounds)
unfolding bounded_option
bounded_option-Within options key bounds default low high r h k c =
    elim (Option-cases (options key)) [
      | inl e ↦
          rw (e, bounded_option, r)
            (clamped-Within low high (finite (pos default)) (omega arith) refl)
      | inr (number x, e) ↦
          rw (e, bounded_option, r)
            (clamped-Within low high x (omega arith) (ap is_clean (sym e) ∙ c))
      | inr (unreadable, e) ↦ rw (e, bounded_option) (default, refl, h, k)
      | inr (too_large, e) ↦ let q = ap is_clean (sym e) ∙ c in cc
    ]
