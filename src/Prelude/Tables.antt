-- ===== src/Prelude/Tables.antt =====
-- std::map and std::unordered_map from pointers to numbers, as association lists.
use Prim.Native.Nat.{ℕ}
use mathlib.Core.Path.{◌≡◌, refl}
use mathlib.Core.Option.{Option, none, some}
use mathlib.Core.List.{List, [], ◌∷◌}
use native.Mathlib.Omega.{arith}
use noelle_public.Prelude.Tests.{◌==◌, if◌then◌else◌}

unfoldable pub lookup : ℕ → List (ℕ × ℕ) → Option ℕ
lookup s [] = none
lookup s ((k, v) ∷ m) = if k == s then some v else lookup s m

unfoldable pub assign : ℕ → ℕ → List (ℕ × ℕ) → List (ℕ × ℕ)
assign k v [] = (k, v) ∷ []
assign k v ((j, w) ∷ m) = let rest = assign k v m in if j == k then (k, v) ∷ m else (j, w) ∷ rest

pub lookup-assign :
    (k v s : ℕ) (m : List (ℕ × ℕ))
    → lookup s (assign k v m) ≡ (if k == s then some v else lookup s m)
unfolding lookup assign
lookup-assign k v s [] = refl
lookup-assign k v s ((j, w) ∷ m) = ground (arith, lookup-assign k v s m)
