-- ===== src/Prelude/Lists.antt =====
-- Lists of native numbers: as sequences, and as the sets of the source.
use Prim.Native.Nat.{ℕ, suc, ◌+◌}
use mathlib.Core.Path.{◌≡◌, refl}
use mathlib.Core.Logic.{◌⊎◌, inl, inr}
use mathlib.Core.Bool.{Bool, true, false, ◌||◌}
use mathlib.Core.List.{List, [], ◌∷◌, ◌++◌}
use native.Mathlib.Omega.{arith}
use noelle_public.Prelude.Tests.{◌==◌, if◌then◌else◌, ==_iff}

module _ {ℓ} {A : Type ℓ} where
  abbrev pub length : List A → ℕ
  length [] = 0
  length (x ∷ xs) = suc (length xs)

  pub length-append : (xs ys : List A) → length (xs ++ ys) ≡ length xs + length ys
  length-append [] ys = omega arith
  length-append (x ∷ xs) ys = omega (arith, length-append xs ys)

  pub List-cases : (xs : List A) → (xs ≡ []) ⊎ ((x : A) × (rest : List A) × (xs ≡ x ∷ rest))
  List-cases [] = inl refl
  List-cases (x ∷ xs) = inr (x, xs, refl)

-- Whether a set or a work list holds a number.
unfoldable pub has : ℕ → List ℕ → Bool
has a [] = false
has a (x ∷ xs) = a == x || has a xs

pub has-nil : (a : ℕ) → has a [] ≡ false
unfolding has
has-nil a = refl

pub has-cons : (a x : ℕ) (xs : List ℕ) → has a (x ∷ xs) ≡ (if a == x then true else has a xs)
unfolding has
has-cons a x xs = ground arith

pub has-append : (a : ℕ) (xs ys : List ℕ) → has a (xs ++ ys) ≡ (has a xs || has a ys)
unfolding has
has-append a [] ys = refl
has-append a (x ∷ xs) ys = ground (arith, has-append a xs ys)

-- `insert` of a set: a member stays where it is.
unfoldable pub insert : ℕ → List ℕ → List ℕ
insert a xs = if has a xs then xs else a ∷ xs

pub has-insert : (a b : ℕ) (xs : List ℕ) → has a (insert b xs) ≡ (if a == b then true else has a xs)
unfolding insert has
has-insert a b xs = ground (arith, ==_iff a b)

-- `erase` of a set by key.
unfoldable pub erase : ℕ → List ℕ → List ℕ
erase a [] = []
erase a (x ∷ xs) = let rest = erase a xs in if a == x then rest else x ∷ rest

pub has-erase : (a b : ℕ) (xs : List ℕ) → has a (erase b xs) ≡ (if a == b then false else has a xs)
unfolding erase has
has-erase a b [] = ground arith
has-erase a b (x ∷ xs) = ground (arith, has-erase a b xs)

pub insert-new : (a : ℕ) (xs : List ℕ) → has a xs ≡ false → insert a xs ≡ a ∷ xs
unfolding insert
insert-new a xs e = rw e refl

-- A set extended by the members of another.
unfoldable pub insert_all : List ℕ → List ℕ → List ℕ
insert_all [] s = s
insert_all (x ∷ xs) s = insert x (insert_all xs s)

pub has-insert_all : (a : ℕ) (xs s : List ℕ) → has a (insert_all xs s) ≡ (has a xs || has a s)
unfolding insert_all has
has-insert_all a [] s = refl
has-insert_all a (x ∷ xs) s =
    ground (arith, has-insert a x (insert_all xs s), has-insert_all a xs s)
