-- ===== src/Base/Holders.antt =====
-- Slots that hold pointers: how many of them hold a given one. 0 is the null pointer.
use Prim.Native.Nat.{ℕ, zero, suc, ◌+◌, ◌<◌}
use mathlib.Core.Path.{◌≡◌, refl}
use mathlib.Core.Logic.{◌≢◌, inl, inr}
use mathlib.Core.List.{List, [], ◌∷◌}
use native.Mathlib.Omega.{arith}
use chakra_jxx.Base.Tests.{◌==◌, if◌then◌else◌, Bool-cases, ==_iff}
use chakra_jxx.Base.Lists.{length, get_or, set, get_or-set_self, get_or-set_ne}

abbrev pub one_if : ℕ → ℕ → ℕ
one_if v w = if v == w then 1 else 0

-- How many slots hold `v`.
unfoldable pub holders : ℕ → List ℕ → ℕ
holders v [] = 0
holders v (w ∷ ws) = one_if v w + holders v ws

pub holders-set :
    (v w : ℕ) (xs : List ℕ) (i : ℕ)
    → i < length xs
    → holders v (set xs i w) + one_if v (get_or xs i 0) ≡ holders v xs + one_if v w
unfolding holders
holders-set v w [] i h = absurd (omega arith)
holders-set v w (x ∷ xs) zero h = omega arith
holders-set v w (x ∷ xs) (suc i) h = omega (arith, holders-set v w xs i (omega arith))

pub get_or-set_of_get_or :
    (xs : List ℕ) (i r : ℕ) → r < length xs → get_or (set xs i (get_or xs r 0)) r 0 ≡ get_or xs r 0
get_or-set_of_get_or xs i r h = elim (Bool-cases (i == r)) [
  | inl same ↦ rw ((==_iff i r).0 same) (get_or-set_self xs r _ 0 h)
  | inr other ↦ get_or-set_ne xs i r _ 0 (λ e. ground arith)
]

pub holders-held : (xs : List ℕ) (i : ℕ) → get_or xs i 0 ≢ 0 → 0 < holders (get_or xs i 0) xs
unfolding holders
holders-held [] i h = absurd (h refl)
holders-held (x ∷ xs) zero h = ground arith
holders-held (x ∷ xs) (suc i) h = ground (arith, holders-held xs i h)
