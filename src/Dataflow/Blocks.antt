-- ===== src/Dataflow/Blocks.antt =====
-- DataFlowEngine.cpp: the loops over the predecessors and along a block, for the analysis of
-- DataFlowAnalysis.cpp.
use noelle_public.Dataflow.State.{Function, DataFlowResult}
use noelle_public.Dataflow.Engine.{backward, head, meet_predecessors, propagate}
use noelle_public.Dataflow.Iterator.{is_empty}
use noelle_public.Dataflow.Outcome.{done, ◌>>=◌}
use noelle_public.Dataflow.Analysis.{reachable_equations}
use noelle_public.Dataflow.Settled.{
  Sub, Extends, Extends-refl, Extends-trans, Frame, IsSound, Unique, Fits, Settled, Linked, met,
  transferred, has-met, met-Extends, transferred-Extends, transferred-Fits, met-IsSound,
  transferred-IsSound,
}
use noelle_public.Prelude.{
  ℕ, ◌≡◌, refl, ◌∙◌, inl, inr, Bool, true, false, zero, suc, ◌≤◌, some, List, [], ◌∷◌, has,
  has-cons, has-nil, ◌==◌, ==_refl, eq_of_==, Bool-cases, subst, length, arith,
}

-- The own equation of an instruction whose sets did not change.
pub Fits-same :
    (df df' : DataFlowResult) (i : ℕ)
    → df'.outs i ≡ df.outs i
    → df'.ins i ≡ df.ins i
    → df'.gens i ≡ df.gens i
    → Fits df i
    → Fits df' i
Fits-same df df' i o n g fits = rw (o, n, g) fits

pub Settled-same :
    (df df' : DataFlowResult) (next : ℕ) (is : List ℕ)
    → ((i : ℕ) → has i (next ∷ is) ≡ true → (df'.outs i ≡ df.outs i) × (df'.ins i ≡ df.ins i))
    → ((i : ℕ) → df'.gens i ≡ df.gens i)
    → Settled df next is
    → Settled df' next is
Settled-same df df' next [] same gens s = s
Settled-same df df' next (i ∷ is) same gens (sub, fits, rest) =
    let at_next = same next (ground (arith, has-cons next next (i ∷ is), ==_refl next)) in
    let at_i = same i (ground (arith, has-cons i next (i ∷ is), has-cons i i is, ==_refl i)) in
    (
      rw (at_next.1, at_i.0) sub,
      Fits-same df df' i at_i.0 at_i.1 (gens i) fits,
      Settled-same df df' i is (λ j l. same j (ground (arith, has-cons j next (i ∷ is)))) gens rest,
    )

module _ (filter : ℕ → Bool) (f : Function) (P Q : ℕ → ℕ → Type 0)
    (weaken : (i a : ℕ) → P i a → Q i a) (R : ℕ → ℕ → Type 0)
    (step : (i j a : ℕ) → R i j → Q j a → P i a) where
  step-Frame :
      (df : DataFlowResult) (i next j : ℕ)
      → (i == j) ≡ false
      → ((transferred filter f (met filter f df i next) i).outs j ≡ df.outs j)
        × ((transferred filter f (met filter f df i next) i).ins j ≡ df.ins j)
  step-Frame df i next j other = (rw other refl, rw other refl)

  pub propagate_lem :
      (fuel b : ℕ) (is after : List ℕ) (next : ℕ) (df : DataFlowResult)
      → length is ≤ fuel
      → Unique (next ∷ is)
      → Linked R next is
      → IsSound P Q df
      → (df' : DataFlowResult) × (propagate
            (reachable_equations filter)
            (backward f)
            fuel
            df
            next
            (record { block = b; before = is; after = after })
          ≡ done df')
        × Extends df df'
        × Frame is df df'
        × Settled df' next is
        × IsSound P Q df'
  unfolding propagate is_empty
  propagate_lem zero b [] after next df enough u l s =
      (df, refl, Extends-refl df, λ i e. (refl, refl), tt, s)
  propagate_lem (suc fuel) b [] after next df enough u l s =
      (df, refl, Extends-refl df, λ i e. (refl, refl), tt, s)
  propagate_lem zero b (i ∷ is) after next df enough u l s = absurd (omega arith)
  propagate_lem (suc fuel) b (i ∷ is) after next df enough (apart, u) (r, l) s =
      let d₁ = met filter f df i next in
      let d₂ = transferred filter f d₁ i in
      let sound =
        transferred-IsSound filter f P Q weaken R step d₁ i
          (met-IsSound filter f P Q weaken R step df i next r s) in
      let (df', run, grown, frame, settled, sound') =
        propagate_lem fuel b is (i ∷ after) i d₂ (omega arith) u l sound in
      let at_i = frame i u.0 in
      let not_i : (i == next) ≡ false =
        ground (arith, has-cons next i is, eq_of_== i next, ==_refl next) in
      let at_next = frame next (ground (arith, has-cons next i is)) in
      let ext =
        Extends-trans df d₁ d₂ (met-Extends filter f df i next)
          (transferred-Extends filter f d₁ i) in
      (
        df',
        run,
        Extends-trans df d₂ df' ext grown,
        λ j e.
            let here = frame j (ground (arith, has-cons j i is)) in
            let old =
              step-Frame df i next j (ground (arith, has-cons j i is, eq_of_== i j, ==_refl j)) in
            (here.0 ∙ old.0, here.1 ∙ old.1),
        (
          λ a h.
              let before = rw (at_next.1 ∙ (step-Frame df i next next not_i).1) at h in
              rw at_i.0 (ground (arith, has-met filter f df i next i a, ==_refl i)),
          Fits-same d₂ df' i at_i.0 at_i.1 (grown.same_gens i) (transferred-Fits filter f d₁ i),
          settled,
        ),
        sound',
      )

  -- IN of the successors is gathered in OUT of the last instruction of a block.
  pub meet_predecessors_lem :
      (inst : ℕ) (bs : List ℕ) (df : DataFlowResult)
      → ((b : ℕ) → has b bs ≡ true → (j : ℕ) × (head (f.insts b) ≡ some j) × R inst j)
      → IsSound P Q df
      → (df' : DataFlowResult) × (meet_predecessors
            (reachable_equations filter)
            (backward f)
            df
            inst
            bs
          ≡ done df')
        × Extends df df'
        × ((j : ℕ) → (inst == j) ≡ false → df'.outs j ≡ df.outs j)
        × ((j : ℕ) → df'.ins j ≡ df.ins j)
        × ((b j : ℕ) → has b bs ≡ true → head (f.insts b) ≡ some j → Sub (df.ins j) (df'.outs inst))
        × IsSound P Q df'
  unfolding meet_predecessors
  meet_predecessors_lem inst [] df firsts s =
      (df, refl, Extends-refl df, λ j e. refl, λ j. refl, λ b j e. absurd (cc (has-nil b, e)), s)
  meet_predecessors_lem inst (b ∷ bs) df firsts s =
      let (j, first, r) = firsts b (ground (arith, has-cons b b bs, ==_refl b)) in
      let d₁ = met filter f df inst j in
      let (df', run, grown, outs, ins, got, sound) =
        meet_predecessors_lem inst bs d₁ (λ c e. firsts c (ground (arith, has-cons c b bs)))
          (met-IsSound filter f P Q weaken R step df inst j r s) in
      (
        df',
        rw (first, ◌>>=◌) run,
        Extends-trans df d₁ df' (met-Extends filter f df inst j) grown,
        λ k e. outs k e ∙ rw e refl,
        ins,
        λ c k e at_c a h. elim (Bool-cases (c == b)) [
          | inr other ↦ got c k (ground (arith, has-cons c b bs)) at_c a h
          | inl same ↦
              let is_j : k ≡ j = cc (at_c, first, eq_of_== c b same) in
              let new = subst (λ z. has a (df.ins z) ≡ true) is_j h in
              grown.outs_grow inst a
                (ground (arith, has-met filter f df inst j inst a, ==_refl inst))
        ],
        sound,
      )
