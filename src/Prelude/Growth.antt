-- ===== src/Prelude/Growth.antt =====
-- A set that is extended by others keeps its size exactly when it keeps its members.
use Prim.Native.Nat.{ℕ, ◌+◌, ◌<◌}
use mathlib.Core.Path.{◌≡◌, refl, ◌∙◌}
use mathlib.Core.Logic.{◌⊎◌, inl, inr}
use mathlib.Core.Bool.{true, false}
use mathlib.Core.List.{List, [], ◌∷◌}
use native.Mathlib.Omega.{arith}
use noelle_public.Prelude.Tests.{Bool-cases, ==_refl}
use noelle_public.Prelude.Lists.{length, has, has-insert, insert, insert_all, has-insert_all}

-- Either nothing is new, or some number is, and the size says which.
abbrev pub Grown : List ℕ → List ℕ → Type 0
Grown s t =
    ((length t ≡ length s) × ((a : ℕ) → has a t ≡ has a s))
    ⊎ ((length s < length t) × ((a : ℕ) × (has a s ≡ false) × (has a t ≡ true)))

pub insert_all-Grown : (xs s : List ℕ) → Grown s (insert_all xs s)
unfolding insert_all insert
insert_all-Grown [] s = inl (refl, λ a. refl)
insert_all-Grown (x ∷ xs) s = elim (Bool-cases (has x (insert_all xs s))) [
  | inl old ↦ elim (insert_all-Grown xs s) [
    | inl (same, members) ↦ inl (rw (old, insert) same, λ a. rw (old, insert) (members a))
    | inr (more, (a, new, there)) ↦ inr (rw (old, insert) more, (a, new, rw (old, insert) there))
  ]
  | inr new ↦
      let longer : length (insert x (insert_all xs s)) ≡ length (insert_all xs s) + 1 =
        rw (new, insert) (omega arith) in
      let not_before : has x s ≡ false = ground (arith, has-insert_all x xs s) in
      inr (
        elim (insert_all-Grown xs s) [
          | inl (same, members) ↦ omega arith
          | inr (more, rest) ↦ omega arith
        ],
        (x, not_before, ground (arith, has-insert x x (insert_all xs s), ==_refl x)),
      )
]

pub Grown-trans :
    (s t u : List ℕ)
    → Grown s t
    → ((a : ℕ) → has a t ≡ true → has a u ≡ true)
    → Grown t u
    → Grown s u
Grown-trans s t u (inl (same, members)) keep (inl (same', members')) =
    inl (same' ∙ same, λ a. members' a ∙ members a)
Grown-trans s t u (inl (same, members)) keep (inr (more, (a, new, there))) =
    inr (omega arith, (a, ground (arith, members a), there))
Grown-trans s t u (inr (more, (a, new, there))) keep (inl (same', members')) =
    inr (omega arith, (a, new, keep a there))
Grown-trans s t u (inr (more, (a, new, there))) keep (inr (more', rest)) =
    inr (omega arith, (a, new, keep a there))
