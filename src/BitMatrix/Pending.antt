-- ===== src/BitMatrix/Pending.antt =====
-- Why the work list of BitMatrix::transitiveClosure may drop a row: where i → k and k → l but not
-- yet i → l, row i waits itself, or it has k from a row j that lacks l as well and is to be redone.
use noelle_public.BitVector.{BitVector}
use noelle_public.BitMatrix.{BitMatrix}
use noelle_public.BitMatrix.Access.{bit}
use noelle_public.BitMatrix.Relax.{Extends-mono}
use noelle_public.BitMatrix.Rounds.{Round}
use noelle_public.Prelude.{
  ℕ, ◌<◌, ◌≡◌, sym, inl, inr, true, false, List, [], ◌∷◌, arith, ◌==◌, Bool-cases, eq_of_==,
  ne_of_==, has, has-cons, subst,
}

module _ (B : BitVector) where
  pub data Pending (worklist : List ℕ) (m : BitMatrix B) (k l : ℕ) : ℕ → Type 0 where
    waiting : {i : ℕ} → has i worklist ≡ true → Pending worklist m k l i
    through :
        {i : ℕ} (j : ℕ)
        → j < m.n
        → bit B m i j ≡ true
        → bit B m j k ≡ true
        → bit B m j l ≡ false
        → Pending worklist m k l j
        → Pending worklist m k l i

  -- Each gap in the closure will be looked at again.
  abbrev pub Covered : List ℕ → BitMatrix B → Type 0
  Covered worklist m =
      (i k l : ℕ)
      → i < m.n
      → k < m.n
      → l < m.n
      → bit B m i k ≡ true
      → bit B m k l ≡ true
      → bit B m i l ≡ false
      → Pending worklist m k l i

  pub Pending-nil : (m : BitMatrix B) (k l i : ℕ) → ¬ Pending [] m k l i
  unfolding has
  Pending-nil m k l i (waiting e) = cc
  Pending-nil m k l i (through j lj e f g p) = Pending-nil m k l j p

  module _ (r : ℕ) (worklist worklist' : List ℕ) (m m' : BitMatrix B) (lr : r < m.n)
      (round : Round B r m m' worklist worklist') where
    -- No gap is left at a row with an old edge to k: row r has been redone.
    pub no_gap :
        (k l : ℕ)
        → k < m.n
        → l < m.n
        → bit B m r k ≡ true
        → bit B m k l ≡ true
        → bit B m' r l ≡ true
    no_gap k l lk ll e f = round.relaxed.full k l (omega arith) lk ll e f

    pub Pending-round :
        (k l i : ℕ)
        → i < m.n
        → k < m.n
        → l < m.n
        → bit B m i k ≡ true
        → bit B m k l ≡ true
        → bit B m' i l ≡ false
        → Pending (r ∷ worklist) m k l i
        → Pending worklist' m' k l i
    Pending-round k l i li lk ll e f gap (waiting w) = elim (Bool-cases (i == r)) [
      | inl own ↦
          let here = eq_of_== i r own in
          cc (
            no_gap k l lk ll (subst (λ x. bit B m x k ≡ true) here e) f,
            subst (λ x. bit B m' x l ≡ false) here gap,
          )
      | inr other ↦ waiting (round.kept i (ground (arith, has-cons i r worklist, other, w)))
    ]
    Pending-round k l i li lk ll e f gap (through j lj g₁ g₂ g₃ p) =
        elim (Bool-cases (bit B m' j l)) [
          | inl filled ↦ elim (Bool-cases (j == r)) [
            | inl own ↦
                let here = eq_of_== j r own in
                waiting (
                  round.notified l ll (subst (λ x. bit B m x l ≡ false) here g₃)
                    (subst (λ x. bit B m' x l ≡ true) here filled) i li
                    (subst (λ x. bit B m' i x ≡ true) here
                      (Extends-mono B r m m' i j round.ext lj g₁)))
            | inr other ↦ cc (round.ext.others j l (ne_of_== j r other) ll, g₃, filled)
          ]
          | inr still ↦
              through j (subst (λ x. j < x) (sym round.ext.same_n) lj)
                (Extends-mono B r m m' i j round.ext lj g₁)
                (Extends-mono B r m m' j k round.ext lk g₂) still
                (Pending-round k l j lj lk ll g₂ f still p)
        ]
