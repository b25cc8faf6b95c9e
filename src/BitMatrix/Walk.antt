-- ===== src/BitMatrix/Walk.antt =====
-- The specification of BitMatrix::transitiveClosure: the directed paths of at least one edge.
use noelle_public.BitVector.{BitVector}
use noelle_public.BitMatrix.{BitMatrix}
use noelle_public.BitMatrix.Access.{bit}
use noelle_public.Prelude.{ℕ, ◌<◌, ◌≡◌, true}

module _ (B : BitVector) where
  pub data Walk (m : BitMatrix B) (a : ℕ) : ℕ → Type 0 where
    first : {b : ℕ} → b < m.n → bit B m a b ≡ true → Walk m a b
    onward : {b c : ℕ} → Walk m a b → c < m.n → bit B m b c ≡ true → Walk m a c

  pub Walk-trans : (m : BitMatrix B) {a b c : ℕ} → Walk m a b → Walk m b c → Walk m a c
  Walk-trans m w (first l e) = onward w l e
  Walk-trans m w (onward v l e) = onward (Walk-trans m w v) l e

  pub Walk-lt : (m : BitMatrix B) {a b : ℕ} → Walk m a b → b < m.n
  Walk-lt m (first l e) = l
  Walk-lt m (onward w l e) = l

  -- Edges that are walks of another matrix make walks of it.
  pub Walk-lift :
      (m m' : BitMatrix B)
      → ((a b : ℕ) → a < m.n → b < m.n → bit B m a b ≡ true → Walk m' a b)
      → {a b : ℕ} → a < m.n
      → Walk m a b
      → Walk m' a b
  Walk-lift m m' lift la (first {b} l e) = lift _ b la l e
  Walk-lift m m' lift la (onward {b} {c} w l e) =
      Walk-trans m' (Walk-lift m m' lift la w) (lift b c (Walk-lt m w) l e)
