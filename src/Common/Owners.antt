-- ===== src/Common/Owners.antt =====
-- Counting who owns a numbered object: in lists, and over goroutines.
use Prim.Native.Nat.{ℕ, zero, suc, ◌+◌}
use mathlib.Core.Path.{◌≡◌}
use mathlib.Core.Option.{some}
use mathlib.Core.List.{List, [], ◌∷◌, ◌++◌}
use native.Mathlib.Omega.{arith}
use outline_cli_ws.Common.Tests.{ltb, ◌==◌, if◌then◌else◌}
use outline_cli_ws.Common.Lists.{get_elem?, set}

abbrev pub one : ℕ → ℕ → ℕ
one x c = if x == c then 1 else 0

abbrev pub in_list : ℕ → List ℕ → ℕ
in_list x [] = 0
in_list x (c ∷ cs) = one x c + in_list x cs

-- One where the object has been made, zero before.
abbrev pub made : ℕ → ℕ → ℕ
made x n = if ltb x n then 1 else 0

pub in_list-append : (x : ℕ) (cs ds : List ℕ) → in_list x (cs ++ ds) ≡ in_list x cs + in_list x ds
in_list-append x [] ds = omega arith
in_list-append x (c ∷ cs) ds = omega (arith, in_list-append x cs ds)

module _ {ℓ} {A : Type ℓ} where
  -- The sum of a count over the goroutines.
  abbrev pub total : (A → ℕ) → List A → ℕ
  total count [] = 0
  total count (t ∷ ts) = count t + total count ts

  pub total-set :
      (count : A → ℕ) (ts : List A) (i : ℕ) (t u : A)
      → get_elem? ts i ≡ some t
      → total count (set ts i u) + count t ≡ total count ts + count u
  total-set count [] i t u e = cc
  total-set count (v ∷ ts) zero t u e = let same : v ≡ t = cc in rw same (omega arith)
  total-set count (v ∷ ts) (suc i) t u e = omega (arith, total-set count ts i t u e)
