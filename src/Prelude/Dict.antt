-- ===== src/Prelude/Dict.antt =====
-- Python's `dict` with text keys and counts as values, in insertion order.
use Prim.Native.Nat.{ℕ, ◌+◌}
use Prim.Native.String.{String}
use mathlib.Core.Path.{◌≡◌}
use mathlib.Core.List.{List, [], ◌∷◌}
use native.Mathlib.Omega.{arith}
use text.Mathlib.Text.{◌==◌}
use text.Mathlib.TextEquality.{eq_iff}
use ha_pronote_ng.Prelude.Tests.{if◌then◌else◌}

abbrev pub Counts : Type 0
Counts = List (String × ℕ)

-- `d.get(k, 0)`
unfoldable pub get : String → Counts → ℕ
get k [] = 0
get k ((j, n) ∷ d) = if j == k then n else get k d

-- `d[k] = d.get(k, 0) + n`
unfoldable pub bump : String → ℕ → Counts → Counts
bump k n [] = (k, n) ∷ []
bump k n ((j, m) ∷ d) = if j == k then (j, m + n) ∷ d else (j, m) ∷ bump k n d

unfoldable pub total : Counts → ℕ
total [] = 0
total ((_, n) ∷ d) = n + total d

pub total-bump : (k : String) (n : ℕ) (d : Counts) → total (bump k n d) ≡ total d + n
unfolding total bump
total-bump k n [] = omega arith
total-bump k n ((j, m) ∷ d) = ground (arith, total-bump k n d)

pub get-bump :
    (k j : String) (n : ℕ) (d : Counts)
    → get j (bump k n d) ≡ (if k == j then get j d + n else get j d)
unfolding get bump
get-bump k j n [] = ground (arith, eq_iff k j)
get-bump k j n ((i, m) ∷ d) = ground (arith, eq_iff k j, eq_iff i k, eq_iff i j, get-bump k j n d)
