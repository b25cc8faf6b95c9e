-- ===== src/Dataflow/Fixpoint.antt =====
-- DataFlowEngine.cpp: a run of the work list ends, and its result solves the equations of
-- DataFlowAnalysis.cpp along every step of the execution.
use mathlib.Core.List.{reverse, reverse-cons}
use noelle_public.Dataflow.State.{Function, DataFlowResult}
use noelle_public.Dataflow.Engine.{backward, head, iterate}
use noelle_public.Dataflow.Analysis.{reachable_equations}
use noelle_public.Dataflow.Settled.{Sub, Fits, Settled, Unique}
use noelle_public.Dataflow.Flow.{
  Next, inner, jump, IsFunction, Linked-from, has-reverse, reverse_split,
}
use noelle_public.Dataflow.Rounds.{IsSettled, process_lem}
use noelle_public.Dataflow.Invariant.{Inv, round-Inv}
use noelle_public.Dataflow.Iteration.{work, work_falls}
use noelle_public.Dataflow.Outcome.{done, ◌>>=◌}
use noelle_public.Prelude.{
  ℕ, zero, suc, ◌≤◌, ◌<◌, ◌≡◌, refl, sym, ◌∙◌, ap, inl, inr, Bool, true, some, List, [], ◌∷◌, ◌++◌,
  has, has-cons, has-nil, ◌==◌, ==_refl, eq_of_==, Bool-cases, subst, arith,
}
use mathlib.Core.List.{reverse-reverse}

module _ (filter : ℕ → Bool) (P Q : ℕ → ℕ → Type 0) (f : Function) (n m : ℕ) (w : IsFunction f n m)
    (small : (i a : ℕ) → Q i a → a < n) (weaken : (i a : ℕ) → P i a → Q i a)
    (step : (i j a : ℕ) → Next f i j → Q j a → P i a)
    (not_empty_at : (b : ℕ) → has b f.blocks ≡ true → (j : ℕ) × (head (f.insts b) ≡ some j)) where
  head_of :
      (b i : ℕ) (is : List ℕ) → reverse (f.insts b) ≡ i ∷ is → head (reverse (f.insts b)) ≡ some i
  unfolding head
  head_of b i is shape = ap head shape

  -- From enough rounds the work list runs empty.
  pub iterate_lem :
      (fuel : ℕ) (df : DataFlowResult) (computed worklist : List ℕ)
      → Inv P Q f df computed worklist
      → work P Q f n m w small df computed worklist ≤ fuel
      → (df' : DataFlowResult) × (computed' : List ℕ) × (iterate
            (reachable_equations filter)
            (backward f)
            fuel
            df
            computed
            worklist
          ≡ done df')
        × Inv P Q f df' computed' []
        × ((i : ℕ) → df'.gens i ≡ df.gens i)
  unfolding iterate
  iterate_lem fuel df computed [] inv enough = (df, computed, refl, inv, λ i. refl)
  iterate_lem zero df computed (b ∷ worklist) inv enough = absurd (omega arith)
  iterate_lem (suc fuel) df computed (b ∷ worklist) inv enough =
      let member = inv.within b (ground (arith, has-cons b b worklist, ==_refl b)) in
      let (i, is, shape) = w.not_empty b member in
      let unique = subst Unique shape (w.once b member) in
      let whole : f.insts b ≡ reverse is ++ (i ∷ []) =
        sym (reverse-reverse (f.insts b)) ∙ (ap reverse shape ∙ reverse-cons i is) in
      let (df₁, computed₁, worklist₁, run, round) =
        process_lem filter f P Q weaken (Next f) step b i is shape unique
          (Linked-from f b is i [] member whole)
          (λ s to_s.
            let (j, at_s) = not_empty_at s (w.successors_in b s member to_s) in
            (j, at_s, jump b s member to_s (head_of b i is shape) at_s))
          df computed worklist inv.sound (λ known. inv.settled b i is member known shape) in
      let inv₁ =
        round-Inv P Q f n m w df df₁ computed computed₁ worklist worklist₁ b i is shape inv round in
      let (df₂, computed₂, run₂, inv₂, gens₂) = iterate_lem fuel df₁ computed₁ worklist₁ inv₁ (
        omega (
          arith,
          work_falls P Q f n m w small df df₁ computed computed₁ worklist worklist₁ b i is member
              shape round,
        )) in
      (df₂, computed₂, rw (run, ◌>>=◌) run₂, inv₂, λ k. gens₂ k ∙ round.grown.same_gens k)

-- Within a settled block.
Fits-in :
    (df : DataFlowResult) (k : ℕ) (ks : List ℕ) (i : ℕ)
    → IsSettled df k ks
    → has i (k ∷ ks) ≡ true
    → Fits df i
Fits-in df k ks i (fits, rest) e = elim (Bool-cases (i == k)) [
  | inl same ↦ subst (Fits df) (sym (eq_of_== i k same)) fits
  | inr other ↦ later ks k rest (ground (arith, has-cons i k ks))
]
  where
    later : (ks : List ℕ) (k : ℕ) → Settled df k ks → has i ks ≡ true → Fits df i
    later [] k s e = absurd (cc (has-nil i, e))
    later (j ∷ js) k (_, fits, rest) e = elim (Bool-cases (i == j)) [
      | inl same ↦ subst (Fits df) (sym (eq_of_== i j same)) fits
      | inr other ↦ later js j rest (ground (arith, has-cons i j js))
    ]

not_short : (k j i : ℕ) (before after : List ℕ) → (k ∷ []) ≡ before ++ (j ∷ i ∷ after) → ⊥
not_short k j i [] after e = cc
not_short k j i (x ∷ []) after e = cc
not_short k j i (x ∷ y ∷ before) after e = cc

settled_next :
    (df : DataFlowResult) (ks : List ℕ) (k i j : ℕ) (before after : List ℕ)
    → Settled df k ks
    → (k ∷ ks) ≡ before ++ (j ∷ i ∷ after)
    → Sub (df.ins j) (df.outs i)
settled_next df [] k i j before after s e = absurd (not_short k j i before after e)
settled_next df (l ∷ ks) k i j [] after (sub, _, _) e =
    let is_k : k ≡ j = cc e in
    let is_l : l ≡ i = cc e in
    subst (λ z. Sub (df.ins z) (df.outs i)) is_k (subst (λ z. Sub (df.ins k) (df.outs z)) is_l sub)
settled_next df (l ∷ ks) k i j (x ∷ before) after (_, _, rest) e =
    settled_next df ks l i j before after rest (cc e)

-- When the work list is empty the equations hold along every step and at every instruction.
module _ (P Q : ℕ → ℕ → Type 0) (f : Function) (n m : ℕ) (w : IsFunction f n m)
    (df : DataFlowResult) (computed : List ℕ) (inv : Inv P Q f df computed []) where
  all_done : (b : ℕ) → has b f.blocks ≡ true → has b computed ≡ true
  all_done b member = ground (arith, inv.queued b member, has-nil b)

  pub all_Fits : (b i : ℕ) → has b f.blocks ≡ true → has i (f.insts b) ≡ true → Fits df i
  all_Fits b i member inside =
      let (k, ks, shape) = w.not_empty b member in
      Fits-in df k ks i (inv.settled b k ks member (all_done b member) shape)
        (sym (ap (has i) shape) ∙ (has-reverse i (f.insts b) ∙ inside))

  pub next_holds : (i j : ℕ) → Next f i j → Sub (df.ins j) (df.outs i)
  next_holds i j (jump b s member to_s at_i at_j) =
      inv.met b s i j member (all_done b member) (has-nil b) to_s at_i at_j
  next_holds i j (inner b before after member split) =
      let (k, ks, shape) = w.not_empty b member in
      let turned : reverse (f.insts b) ≡ reverse after ++ (j ∷ i ∷ reverse before) =
        ap reverse split ∙ reverse_split before after i j in
      settled_next df ks k i j (reverse after) (reverse before)
        (inv.settled b k ks member (all_done b member) shape).1 (sym shape ∙ turned)
