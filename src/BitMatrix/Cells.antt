-- ===== src/BitMatrix/Cells.antt =====
-- set, test and resize of BitMatrix.cpp as an array of cells.
use noelle_public.BitVector.{BitVector}
use noelle_public.BitMatrix.{BitMatrix, u32, idx, set, test, resize}
use noelle_public.BitMatrix.Access.{bit, IsSized, test_lem, set_lem, index-lt}
use noelle_public.Prelude.{
  ℕ, ◌+◌, ◌*◌, ◌%◌, ◌^◌, ◌<◌, ◌≡◌, ◌∙◌, ap, inl, inr, Bool, true, false, ◌&&◌, none, some, arith,
  ltb, ◌==◌, if◌then◌else◌, >>=-eq-some, Bool-cases, subst,
}

module _ (B : BitVector) where
  idx-eq-some : (m : BitMatrix B) (a b i : ℕ) → idx B m a b ≡ some i → (a < m.n) × (b < m.n)
  unfolding idx
  idx-eq-some m a b i e = ground arith

  test_outside :
      (m : BitMatrix B) (a b : ℕ) → (ltb a m.n && ltb b m.n) ≡ false → test B m a b ≡ none
  unfolding test
  test_outside m a b e = rw e

  both : (a b n : ℕ) → (ltb a n && ltb b n) ≡ true → (a < n) × (b < n)
  both a b n e = ground arith

  set-inside :
      (m m' : BitMatrix B) (a b : ℕ) (v : Bool) → set B m a b v ≡ some m' → (a < m.n) × (b < m.n)
  unfolding set
  set-inside m m' a b v e = let (i, e', _) = >>=-eq-some (idx B m a b) _ e in idx-eq-some m a b i e'

  -- In a matrix of fewer than 2^31 bits a successful write at (a, b) is read back there, leaves every
  -- other cell as it was, and does not change which positions are outside the matrix, where a read
  -- fails its assertion.
  pub test-set :
      (m m' : BitMatrix B) (a b : ℕ) (v : Bool)
      → IsSized B m
      → set B m a b v ≡ some m'
      → (c d : ℕ) → test B m' c d ≡ (if (c == a) && (d == b) then some v else test B m c d)
  test-set m m' a b v h e c d =
      let (la, lb) = set-inside m m' a b v e in
      let (m₁, e₁, same, sized, law) = set_lem B m a b v h la lb in
      let is_same : m₁ ≡ m' = cc (e, e₁) in
      subst (λ x. test B x c d ≡ (if (c == a) && (d == b) then some v else test B m c d)) is_same
        (elim (Bool-cases (ltb c m.n && ltb d m.n)) [
          | inl inside ↦
              let (lc, ld) = both c d m.n inside in
              test_lem B m₁ c d sized (rw same lc) (rw same ld)
              ∙ rw (test_lem B m c d h lc ld, law c d ld) (ground arith)
          | inr outside ↦
              rw (test_outside m c d outside, test_outside m₁ c d (rw same outside)) (ground arith)
        ])

  -- A matrix resized to n rows, where n * n is below 2^31, is well formed and has every cell clear,
  -- whatever it held.
  pub test-resize :
      (m : BitMatrix B) (n : ℕ)
      → n * n < 2 ^ 31
      → IsSized B (resize B m n)
        × ((a b : ℕ)
            → test B (resize B m n) a b ≡ (if ltb a n && ltb b n then some false else none))
  unfolding resize
  test-resize m n small = (
    sized,
    λ a b. elim (Bool-cases (ltb a n && ltb b n)) [
      | inl inside ↦
          let (la, lb) = both a b n inside in
          rw inside (test_lem B (resize B m n) a b sized la lb ∙ ap some (clear_at a b la lb))
      | inr outside ↦ rw outside (test_outside (resize B m n) a b outside)
    ],
  )
    where
      small_size : n * n % u32 ≡ n * n
      small_size = omega arith

      sized : IsSized B (resize B m n)
      sized = record { small = small; filled = B.size_resize _ _ ∙ small_size }

      clear_at : (a b : ℕ) → a < n → b < n → bit B (resize B m n) a b ≡ false
      clear_at a b la lb =
          B.get_resize (B.clear m.bv) (n * n % u32) (a * n + b)
            (rw small_size (index-lt a b n la lb))
          ∙ rw B.size_clear (ground arith)
