-- ===== src/BitMatrix/Cover.antt =====
-- A round of BitMatrix::transitiveClosure keeps every gap in the closure covered.
use noelle_public.BitVector.{BitVector}
use noelle_public.BitMatrix.{BitMatrix}
use noelle_public.BitMatrix.Access.{bit}
use noelle_public.BitMatrix.Relax.{Extends-mono}
use noelle_public.BitMatrix.Rounds.{Round}
use noelle_public.BitMatrix.Pending.{Pending, waiting, through, Covered, no_gap, Pending-round}
use noelle_public.Prelude.{
  ℕ, ◌<◌, ◌≡◌, sym, ◌∙◌, ◌⊎◌, inl, inr, true, false, List, ◌∷◌, ◌==◌, Bool-cases, eq_of_==,
  ne_of_==, has, subst,
}

module _ (B : BitVector) where
  module _ (r : ℕ) (worklist worklist' : List ℕ) (m m' : BitMatrix B) (lr : r < m.n)
      (round : Round B r m m' worklist worklist') where
    old_row : (a b : ℕ) → (a == r) ≡ false → b < m.n → bit B m' a b ≡ bit B m a b
    old_row a b ne l = round.ext.others a b (ne_of_== a r ne) l

    -- The edge into l that was there before this round, or row r has gained it.
    old_or_notified :
        (i k l : ℕ)
        → i < m.n
        → k < m.n
        → l < m.n
        → bit B m' i k ≡ true
        → bit B m' k l ≡ true
        → (bit B m k l ≡ true) ⊎ (has i worklist' ≡ true)
    old_or_notified i k l li lk ll e f = elim (Bool-cases (bit B m k l)) [
      | inl old ↦ inl old
      | inr was ↦ elim (Bool-cases (k == r)) [
        | inl own ↦
            let here = eq_of_== k r own in
            inr (
              round.notified l ll (subst (λ x. bit B m x l ≡ false) here was)
                (subst (λ x. bit B m' x l ≡ true) here f) i li
                (subst (λ x. bit B m' i x ≡ true) here e))
        | inr other ↦ cc (old_row k l other ll, f, was)
      ]
    ]

    not_before : (i l : ℕ) → l < m.n → bit B m' i l ≡ false → bit B m i l ≡ false
    not_before i l ll gap = elim (Bool-cases (bit B m i l)) [
      | inl was ↦ cc (Extends-mono B r m m' i l round.ext ll was, gap)
      | inr not_was ↦ not_was
    ]

    others-Covered :
        Covered B (r ∷ worklist) m
        → (i k l : ℕ) → (i == r) ≡ false
        → i < m.n
        → k < m.n
        → l < m.n
        → bit B m' i k ≡ true
        → bit B m' k l ≡ true
        → bit B m' i l ≡ false
        → Pending B worklist' m' k l i
    others-Covered cov i k l other li lk ll e f gap = elim (old_or_notified i k l li lk ll e f) [
      | inl old ↦
          let e' = sym (old_row i k other lk) ∙ e in
          Pending-round B r worklist worklist' m m' lr round k l i li lk ll e' old gap
            (cov i k l li lk ll e' old (not_before i l ll gap))
      | inr queued ↦ waiting queued
    ]

    own-Covered :
        Covered B (r ∷ worklist) m
        → (k l : ℕ) → k < m.n
        → l < m.n
        → bit B m' r k ≡ true
        → bit B m' k l ≡ true
        → bit B m' r l ≡ false
        → Pending B worklist' m' k l r
    own-Covered cov k l lk ll e f gap = elim (Bool-cases (k == r)) [
      | inl own ↦ cc (subst (λ x. bit B m' x l ≡ true) (eq_of_== k r own) f, gap)
      | inr other ↦
          let f' = sym (old_row k l other ll) ∙ f in
          elim (round.relaxed.reason k lk e) [
            | inl old ↦ cc (no_gap B r worklist worklist' m m' lr round k l lk ll old f', gap)
            | inr (j, a, g) ↦
                let still : bit B m' j l ≡ false = elim (Bool-cases (bit B m' j l)) [
                  | inl filled ↦ elim (Bool-cases (j == r)) [
                    | inl same ↦
                        cc (subst (λ x. bit B m' x l ≡ true) (eq_of_== j r same) filled, gap)
                    | inr apart ↦ cc (a.whole l ll (sym (old_row j l apart ll) ∙ filled), gap)
                  ]
                  | inr open_still ↦ open_still
                ] in
                through j (subst (λ x. j < x) (sym round.ext.same_n) a.bound) a.edge
                  (Extends-mono B r m m' j k round.ext lk g) still
                  (Pending-round B r worklist worklist' m m' lr round k l j a.bound lk ll g f' still
                    (cov j k l a.bound lk ll g f' (not_before j l ll still)))
          ]
    ]

    pub Covered-round : Covered B (r ∷ worklist) m → Covered B worklist' m'
    Covered-round cov i k l li lk ll e f gap =
        let down = λ (x : ℕ) (lx : x < m'.n). subst (λ z. x < z) round.ext.same_n lx in
        elim (Bool-cases (i == r)) [
          | inl own ↦
              let here = eq_of_== i r own in
              subst (λ x. Pending B worklist' m' k l x) (sym here)
                (own-Covered cov k l (down k lk) (down l ll)
                  (subst (λ x. bit B m' x k ≡ true) here e) f
                  (subst (λ x. bit B m' x l ≡ false) here gap))
          | inr other ↦ others-Covered cov i k l other (down i li) (down k lk) (down l ll) e f gap
        ]
