-- ===== src/BitMatrix/Measure.antt =====
-- Why the work list of BitMatrix::transitiveClosure runs empty.
use noelle_public.BitVector.{BitVector}
use noelle_public.BitMatrix.{BitMatrix}
use noelle_public.BitMatrix.Access.{bit}
use noelle_public.BitMatrix.Relax.{Extends-mono}
use noelle_public.BitMatrix.Rounds.{Round}
use noelle_public.Prelude.{
  ℕ, suc, ◌+◌, ◌*◌, ◌≤◌, ◌<◌, ◌≡◌, sym, ap, inl, inr, true, false, List, arith, if◌then◌else◌,
  subst, length, total, total_mono, total_lt, total-le,
}

scale_le : (x y c : ℕ) → x ≤ y → x * c ≤ y * c
scale_le x y c h = grind arith

scale_lt : (x y c : ℕ) → x < y → x * c + c ≤ y * c
scale_lt x y c h = omega (arith, scale_le (suc x) y c h)

module _ (B : BitVector) where
  -- The bits that are not set: each round that changes the matrix lowers their number.
  pub gap_at : BitMatrix B → ℕ → ℕ → ℕ
  gap_at m a b = if bit B m a b then 0 else 1

  pub gaps : ℕ → BitMatrix B → ℕ
  gaps n m = total n (λ a. total n (gap_at m a))

  pub gaps-le : (n : ℕ) (m : BitMatrix B) → gaps n m ≤ n * n
  unfolding gaps gap_at
  gaps-le n m =
      total-le n n _ (λ a la. omega (arith, total-le n 1 (gap_at m a) (λ b lb. ground arith)))

  module _ (r : ℕ) (worklist worklist' : List ℕ) (m m' : BitMatrix B)
      (round : Round B r m m' worklist worklist') where
    gap_at-le : (a b : ℕ) → b < m.n → gap_at m' a b ≤ gap_at m a b
    unfolding gap_at
    gap_at-le a b lb = ground (arith, Extends-mono B r m m' a b round.ext lb)

    gaps_mono : gaps m'.n m' ≤ gaps m.n m
    unfolding gaps
    gaps_mono =
        subst (λ z. gaps z m' ≤ gaps m.n m) (sym round.ext.same_n)
          (total_mono m.n _ _ (λ a la. total_mono m.n _ _ (λ c lc. gap_at-le a c lc)))

    gaps-lt :
        (b : ℕ)
        → r < m.n
        → b < m.n
        → bit B m r b ≡ false
        → bit B m' r b ≡ true
        → gaps m'.n m' < gaps m.n m
    unfolding gaps
    gaps-lt b lr lb was now =
        subst (λ z. gaps z m' < gaps m.n m) (sym round.ext.same_n)
          (total_lt m.n _ _ r (λ a la. total_mono m.n _ _ (λ c lc. gap_at-le a c lc)) lr
            (total_lt m.n _ _ b (λ c lc. gap_at-le r c lc) lb lower))
      where
        lower : gap_at m' r b < gap_at m r b
        lower = unfold gap_at in ground arith

    -- The work that is left: every round lowers it.
    pub work_falls :
        r < m.n
        → gaps m'.n m' * (m'.n + 1) + length worklist'
          < gaps m.n m * (m.n + 1) + suc (length worklist)
    work_falls lr =
        subst
          (λ z.
            gaps m'.n m' * (z + 1) + length worklist'
            < gaps m.n m * (m.n + 1) + suc (length worklist))
          (sym round.ext.same_n)
          (elim round.progress [
            | inl same ↦ omega (arith, ap length same, scale_le _ _ (m.n + 1) gaps_mono)
            | inr (b, lb, was, now, few) ↦
                omega (arith, scale_lt _ _ (m.n + 1) (gaps-lt b lr lb was now))
          ])
