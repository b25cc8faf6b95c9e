-- ===== src/BitMatrix/Closure.antt =====
-- BitMatrix::transitiveClosure as a whole: it ends, no assertion fails, and the result relates
-- exactly the rows that a walk of the given matrix joins.
use noelle_public.BitMatrix.Cover.{Covered-round}
use noelle_public.BitMatrix.Measure.{gaps, gaps-le, work_falls}
use noelle_public.BitVector.{BitVector}
use noelle_public.BitMatrix.{BitMatrix, indices, close, test, transitive_closure}
use noelle_public.BitMatrix.Access.{bit, IsSized, test_lem}
use noelle_public.BitMatrix.Walk.{Walk, first, onward, Walk-lift, Walk-lt}
use noelle_public.BitMatrix.Relax.{Extends-mono}
use noelle_public.BitMatrix.Rounds.{Below, Round, close_row_lem}
use noelle_public.BitMatrix.Pending.{waiting, Covered, Pending-nil}
use noelle_public.Prelude.{
  ℕ, zero, suc, ◌+◌, ◌*◌, ◌≤◌, ◌<◌, ◌≡◌, refl, sym, ◌∙◌, ap, inl, inr, true, List, [], ◌∷◌, some,
  ◌↔◌, arith, ◌==◌, Bool-cases, eq_of_==, ne_of_==, has, has-cons, subst, length, ==_refl,
}

scale_le : (x y c : ℕ) → x ≤ y → x * c ≤ y * c
scale_le x y c h = grind arith

module _ (B : BitVector) where
  -- What a run of the work list achieves.
  pub record Closes (m m' : BitMatrix B) : Type 0 where
    pub sized : IsSized B m'
    pub same_n : m'.n ≡ m.n
    pub grows : (a b : ℕ) → b < m.n → bit B m a b ≡ true → bit B m' a b ≡ true
    pub sound : (a b : ℕ) → a < m.n → b < m.n → bit B m' a b ≡ true → Walk B m a b
    pub closed :
        (i k l : ℕ)
        → i < m.n
        → k < m.n
        → l < m.n
        → bit B m' i k ≡ true
        → bit B m' k l ≡ true
        → bit B m' i l ≡ true

  Closes-done : (m : BitMatrix B) → IsSized B m → Covered B [] m → Closes m m
  Closes-done m h cov = record {
    sized = h;
    same_n = refl;
    grows = λ a b l e. e;
    sound = λ a b la lb e. first lb e;
    closed = λ i k l li lk ll e f. elim (Bool-cases (bit B m i l)) [
      | inl t ↦ t
      | inr gap ↦ absurd (Pending-nil B m k l i (cov i k l li lk ll e f gap))
    ];
  }

  sound_lift :
      (r : ℕ) (worklist worklist' : List ℕ) (m m' : BitMatrix B)
      → Round B r m m' worklist worklist'
      → (a b : ℕ) → b < m.n
      → bit B m' a b ≡ true
      → Walk B m a b
  sound_lift r worklist worklist' m m' round a b lb e = elim (Bool-cases (a == r)) [
    | inl own ↦
        let here = eq_of_== a r own in
        subst (λ x. Walk B m x b) (sym here)
          (round.relaxed.sound b lb (subst (λ x. bit B m' x b ≡ true) here e))
    | inr other ↦ first lb (sym (round.ext.others a b (ne_of_== a r other) lb) ∙ e)
  ]

  Closes-step :
      (r : ℕ) (worklist worklist' : List ℕ) (m m' m'' : BitMatrix B)
      → Round B r m m' worklist worklist'
      → Closes m' m''
      → Closes m m''
  Closes-step r worklist worklist' m m' m'' round c =
      let up = λ (x : ℕ) (l : x < m.n). subst (λ z. x < z) (sym round.ext.same_n) l in
      record {
        sized = c.sized;
        same_n = c.same_n ∙ round.ext.same_n;
        grows = λ a b l e. c.grows a b (up b l) (Extends-mono B r m m' a b round.ext l e);
        sound = λ a b la lb e.
            Walk-lift B m' m
              (λ x y lx ly t.
                sound_lift r worklist worklist' m m' round x y
                  (subst (λ z. y < z) round.ext.same_n ly) t)
              (up a la) (c.sound a b (up a la) (up b lb) e);
        closed = λ i k l li lk ll. c.closed i k l (up i li) (up k lk) (up l ll);
      }

  close_lem :
      (fuel : ℕ) (m : BitMatrix B) (worklist : List ℕ)
      → IsSized B m
      → Below m.n worklist
      → Covered B worklist m
      → gaps B m.n m * (m.n + 1) + length worklist ≤ fuel
      → (m' : BitMatrix B) × (close B fuel m worklist ≡ some m') × Closes m m'
  unfolding close
  close_lem fuel m [] h below cov enough = (m, refl, Closes-done m h cov)
  close_lem zero m (i ∷ worklist) h below cov enough = absurd (omega arith)
  close_lem (suc fuel) m (i ∷ worklist) h below cov enough =
      let li = below i (rw (has-cons i i worklist, ==_refl i)) in
      let (m', worklist', e, round) = close_row_lem B m i worklist h li in
      let (m'', e', c) =
        close_lem fuel m' worklist' round.ext.sized
          (subst (λ z. Below z worklist') (sym round.ext.same_n)
            (round.below (λ a t. below a (ground (arith, has-cons a i worklist)))))
          (Covered-round B i worklist worklist' m m' li round cov)
          (omega (arith, work_falls B i worklist worklist' m m' round li)) in
      (m'', rw e e', Closes-step i worklist worklist' m m' m'' round c)

  has-indices : (left i a : ℕ) → (has a (indices B left i) ≡ true) ↔ ((i ≤ a) × (a < i + left))
  unfolding indices has
  has-indices zero i a = ground arith
  has-indices (suc left) i a = ground (arith, has-indices left (i + 1) a)

  length-indices : (left i : ℕ) → length (indices B left i) ≡ left
  unfolding indices
  length-indices zero i = refl
  length-indices (suc left) i = ap suc (length-indices left (i + 1))

  closure-Closes :
      (m : BitMatrix B)
      → IsSized B m
      → (m' : BitMatrix B) × (transitive_closure B m ≡ some m') × Closes m m'
  unfolding transitive_closure
  closure-Closes m h =
      close_lem _ m (indices B m.n 0) h (λ a t. omega (arith, (has-indices m.n 0 a).0 t))
        (λ i k l li lk ll e f gap. waiting ((has-indices m.n 0 i).1 (omega arith, omega arith)))
        (omega (arith, length-indices m.n 0, scale_le _ _ (m.n + 1) (gaps-le B m.n m)))

  Walk-Closes :
      (m m' : BitMatrix B) {a b : ℕ} → Closes m m' → a < m.n → Walk B m a b → bit B m' a b ≡ true
  Walk-Closes m m' c la (first {b} l e) = c.grows _ b l e
  Walk-Closes m m' c la (onward {b} {c = d} w l e) =
      c.closed _ b d la (Walk-lt B m w) l (Walk-Closes m m' c la w) (c.grows b d l e)

  -- For a matrix of fewer than 2^31 bits the work list runs empty within its rounds and no assertion
  -- fails; in the result a is related to b exactly when a walk of at least one edge of the given
  -- matrix leads from a to b.
  pub transitive_closure_correct :
      (m : BitMatrix B)
      → IsSized B m
      → (m' : BitMatrix B) × (transitive_closure B m ≡ some m')
        × (m'.n ≡ m.n)
        × ((a b : ℕ) → a < m.n → b < m.n → (test B m' a b ≡ some true) ↔ Walk B m a b)
  transitive_closure_correct m h =
      let (m', e, c) = closure-Closes m h in
      (
        m',
        e,
        c.same_n,
        λ a b la lb.
            let read = test_lem B m' a b c.sized (rw c.same_n la) (rw c.same_n lb) in
            (λ t. c.sound a b la lb (cc (read, t)), λ w. read ∙ ap some (Walk-Closes m m' c la w)),
      )
