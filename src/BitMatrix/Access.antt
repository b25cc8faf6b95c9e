-- ===== src/BitMatrix/Access.antt =====
-- Reading and writing one bit of BitMatrix.cpp: the rows do not overlap in the bit vector.
use noelle_public.BitVector.{BitVector}
use noelle_public.BitMatrix.{BitMatrix, idx, set, test}
use noelle_public.Prelude.{
  ℕ, ◌+◌, ◌*◌, ◌^◌, ◌≤◌, ◌<◌, ◌≡◌, refl, ap, Bool, true, false, ◌&&◌, some, arith, ◌==◌,
  if◌then◌else◌,
}

pub index-lt : (a b n : ℕ) → a < n → b < n → a * n + b < n * n
index-lt a b n p q = grind arith

row-le : (a c n : ℕ) → a < c → (a + 1) * n ≤ c * n
row-le a c n p = grind arith

row_before : (a b c d n : ℕ) → b < n → a < c → a * n + b < c * n + d
row_before a b c d n p q = omega (arith, row-le a c n q)

pub index_injective : (a b c d n : ℕ) → b < n → d < n → a * n + b ≡ c * n + d → (a ≡ c) × (b ≡ d)
index_injective a b c d n p q e = (same_row, omega (arith, ap (λ (t : ℕ). t * n) same_row))
  where
    same_row : a ≡ c
    same_row = ground (arith, row_before a b c d n p, row_before c d a b n q)

-- Two positions of the vector are equal exactly when their rows and columns are.
pub index-== : (a b c d n : ℕ) → b < n → d < n → (c * n + d == a * n + b) ≡ ((c == a) && (d == b))
index-== a b c d n p q = ground (arith, index_injective c d a b n)

module _ (B : BitVector) where
  -- The bit in row a, column b.
  abbrev pub bit : BitMatrix B → ℕ → ℕ → Bool
  bit m a b = B.get m.bv (a * m.n + b)

  pub record IsSized (m : BitMatrix B) : Type 0 where
    pub small : m.n * m.n < 2 ^ 31
    pub filled : B.size m.bv ≡ m.n * m.n

  pub idx_lem :
      (m : BitMatrix B) (a b : ℕ) → IsSized m → a < m.n → b < m.n → idx B m a b ≡ some (a * m.n + b)
  unfolding idx
  idx_lem m a b h p q = ground (arith, index-lt a b m.n p q)

  pub test_lem :
      (m : BitMatrix B) (a b : ℕ) → IsSized m → a < m.n → b < m.n → test B m a b ≡ some (bit m a b)
  unfolding test
  test_lem m a b h p q = rw (idx_lem m a b h p q)

  -- A write changes one bit and nothing else.
  pub set_lem :
      (m : BitMatrix B) (a b : ℕ) (v : Bool)
      → IsSized m
      → a < m.n
      → b < m.n
      → (m' : BitMatrix B) × (set B m a b v ≡ some m')
        × (m'.n ≡ m.n)
        × IsSized m'
        × ((c d : ℕ) → d < m.n → bit m' c d ≡ (if (c == a) && (d == b) then v else bit m c d))
  unfolding set
  set_lem m a b true h p q = (
    record m { bv = B.set m.bv (a * m.n + b) },
    rw (idx_lem m a b h p q),
    refl,
    record { small = h.small; filled = rw B.size_set h.filled },
    λ c d r. rw (
      B.get_set m.bv (a * m.n + b) (c * m.n + d) (rw h.filled (index-lt a b m.n p q)),
      index-== a b c d m.n q r,
    ),
  )
  set_lem m a b false h p q = (
    record m { bv = B.reset m.bv (a * m.n + b) },
    rw (idx_lem m a b h p q),
    refl,
    record { small = h.small; filled = rw B.size_reset h.filled },
    λ c d r. rw (
      B.get_reset m.bv (a * m.n + b) (c * m.n + d) (rw h.filled (index-lt a b m.n p q)),
      index-== a b c d m.n q r,
    ),
  )
