-- ===== src/Dataflow/Rounds.antt =====
-- DataFlowEngine.cpp: one round of the work list, for the analysis of DataFlowAnalysis.cpp.
use mathlib.Core.List.{reverse}
use noelle_public.Dataflow.State.{Function, DataFlowResult}
use noelle_public.Dataflow.Engine.{
  Equations, Customization, transfer, backward, head, meet_predecessors, propagate, process,
}
use noelle_public.Dataflow.Analysis.{reachable_equations}
use noelle_public.Dataflow.Settled.{
  Sub, Extends, Extends-trans, Frame, IsSound, Unique, Fits, Settled, Linked, transferred,
  transferred-Extends, transferred-Fits, transferred-IsSound,
}
use noelle_public.Dataflow.Blocks.{Fits-same, Settled-same, propagate_lem, meet_predecessors_lem}
use noelle_public.Dataflow.Iterator.{Iterator}
use noelle_public.Dataflow.Outcome.{done, ◌>>=◌}
use noelle_public.Dataflow.Locating.{iterator_at_last}
use noelle_public.Prelude.{
  ℕ, ◌≡◌, refl, sym, ◌∙◌, ap, ◌⊎◌, inl, inr, Bool, true, false, not, ◌||◌, none, some, List, [],
  ◌∷◌, ◌++◌, length, has, has-cons, insert, insert_all, Grown, Grown-trans, insert_all-Grown,
  has-insert_all, ◌==◌, ==_refl, eq_of_==, Bool-cases, subst, ◌+◌, arith,
}

-- The equations inside a block, whose instructions from its end on are `i` and `is`.
abbrev pub IsSettled : DataFlowResult → ℕ → List ℕ → Type 0
IsSettled df i is = Fits df i × Settled df i is

-- What one round for a block achieves.
pub record Round (P Q : ℕ → ℕ → Type 0) (f : Function) (df : DataFlowResult)
    (computed worklist : List ℕ) (b i : ℕ) (is : List ℕ) (df' : DataFlowResult)
    (computed' worklist' : List ℕ) : Type 0 where
  pub grown : Extends df df'
  pub frame : Frame (i ∷ is) df df'
  pub sound : IsSound P Q df'
  pub settled : IsSettled df' i is
  pub met :
      (s j : ℕ)
      → has s (f.successors b) ≡ true
      → head (f.insts s) ≡ some j
      → Sub (df.ins j) (df'.outs i)
  pub outcome :
      ((computed' ≡ insert b computed)
        × (worklist' ≡ worklist ++ f.predecessors b)
        × ((has b computed ≡ false)
            ⊎ ((a : ℕ) × (has a (df.ins i) ≡ false) × (has a (df'.ins i) ≡ true))))
      ⊎ ((computed' ≡ computed)
          × (worklist' ≡ worklist)
          × (has b computed ≡ true)
          × ((j a : ℕ) → has a (df'.ins j) ≡ has a (df.ins j)))

-- The rest of a block stays settled where the sets of the instruction behind it keep their members.
Settled-quiet :
    (df df' : DataFlowResult) (i : ℕ) (is : List ℕ)
    → ((j : ℕ) → (i == j) ≡ false → (df'.outs j ≡ df.outs j) × (df'.ins j ≡ df.ins j))
    → ((j : ℕ) → df'.gens j ≡ df.gens j)
    → ((a : ℕ) → has a (df'.ins i) ≡ has a (df.ins i))
    → has i is ≡ false
    → Settled df i is
    → Settled df' i is
Settled-quiet df df' i [] same gens members apart s = s
Settled-quiet df df' i (w ∷ is) same gens members apart (sub, fits, rest) =
    let not_w : (i == w) ≡ false = ground (arith, has-cons i w is) in
    let at_w = same w not_w in
    (
      λ a h. rw at_w.0 (sub a (sym (members a) ∙ h)),
      Fits-same df df' w at_w.0 at_w.1 (gens w) fits,
      Settled-same df df' w is (λ j l. same j (ground (arith, eq_of_== i j, ==_refl i))) gens rest,
    )

-- A set that is of another size has something new, and one of the same size nothing.
changed :
    (old new : List ℕ) (known : Bool)
    → Grown old new
    → (not known || not (length new == length old)) ≡ true
    → (known ≡ false) ⊎ ((a : ℕ) × (has a old ≡ false) × (has a new ≡ true))
changed old new false grown on = inl refl
changed old new true (inl (same, members)) on = absurd (ground arith)
changed old new true (inr (more, a)) on = inr a

unchanged :
    (old new : List ℕ) (known : Bool)
    → Grown old new
    → (not known || not (length new == length old)) ≡ false
    → (known ≡ true) × ((a : ℕ) → has a new ≡ has a old)
unchanged old new false grown off = absurd (ground arith)
unchanged old new true (inl (same, members)) off = (refl, members)
unchanged old new true (inr (more, a)) off = absurd (ground arith)

-- The two ends of a round, as the engine computes them.
module _ (q : Equations) (c : Customization) (df d₁ : DataFlowResult) (computed worklist : List ℕ)
    (b i : ℕ) (first : c.get_first_instruction b ≡ done i)
    (met : meet_predecessors q c df i (c.get_predecessors b) ≡ done d₁) where
  abbrev changes : Bool
  changes =
      not (has b computed)
      || not (length (c.out_set (transfer q c d₁ i) i) == length (c.out_set d₁ i))

  process_pushed :
      (it : Iterator) (d₃ : DataFlowResult)
      → changes ≡ true
      → c.iterator b i ≡ done it
      → propagate q c (length it.before + length it.after) (transfer q c d₁ i) i it ≡ done d₃
      → process q c df computed worklist b
        ≡ done (d₃, insert b computed, worklist ++ c.get_successors b)
  unfolding process
  process_pushed it d₃ on at run =
      rw (first, ◌>>=◌) (rw (met, ◌>>=◌) (rw on (rw (at, ◌>>=◌) (rw (run, ◌>>=◌) refl))))

  process_quiet :
      changes ≡ false
      → process q c df computed worklist b ≡ done (transfer q c d₁ i, computed, worklist)
  unfolding process
  process_quiet off = rw (first, ◌>>=◌) (rw (met, ◌>>=◌) (rw off refl))

module _ (filter : ℕ → Bool) (f : Function) (P Q : ℕ → ℕ → Type 0)
    (weaken : (i a : ℕ) → P i a → Q i a) (R : ℕ → ℕ → Type 0)
    (step : (i j a : ℕ) → R i j → Q j a → P i a) (b i : ℕ) (is : List ℕ)
    (shape : reverse (f.insts b) ≡ i ∷ is) (unique : Unique (i ∷ is)) (linked : Linked R i is)
    (firsts : (s : ℕ)
      → has s (f.successors b) ≡ true
      → (j : ℕ) × (head (f.insts s) ≡ some j) × R i j) where
  starts_at : head (reverse (f.insts b)) ≡ some i
  unfolding head
  starts_at = ap head shape

  at_end : (backward f).get_first_instruction b ≡ done i
  at_end = ap (λ o. done (elim o as (λ x. ℕ) [ none ↦ f.null | some k ↦ k ])) starts_at

  transferred-Grown : (df : DataFlowResult) → Grown (df.ins i) ((transferred filter f df i).ins i)
  transferred-Grown df =
      let inner = insert_all (df.gens i) (df.ins i) in
      let both =
        Grown-trans (df.ins i) inner (insert_all (df.outs i) inner)
          (insert_all-Grown (df.gens i) (df.ins i))
          (λ a h. ground (arith, has-insert_all a (df.outs i) inner))
          (insert_all-Grown (df.outs i) inner) in
      rw (==_refl i) both

  pub process_lem :
      (df : DataFlowResult) (computed worklist : List ℕ)
      → IsSound P Q df
      → (has b computed ≡ true → IsSettled df i is)
      → (df' : DataFlowResult) × (computed' : List ℕ) × (worklist' : List ℕ) × (process
            (reachable_equations filter)
            (backward f)
            df
            computed
            worklist
            b
          ≡ done (df', computed', worklist'))
        × Round P Q f df computed worklist b i is df' computed' worklist'
  process_lem df computed worklist s body =
      let (d₁, run₁, grown₁, outs₁, ins₁, got, sound₁) =
        meet_predecessors_lem filter f P Q weaken R step i (f.successors b) df firsts s in
      let d₂ = transferred filter f d₁ i in
      let sound₂ = transferred-IsSound filter f P Q weaken R step d₁ i sound₁ in
      let grown₂ = Extends-trans df d₁ d₂ grown₁ (transferred-Extends filter f d₁ i) in
      let (d₃, run₃, grown₃, frame₃, settled₃, sound₃) =
        propagate_lem filter f P Q weaken R step (length is + 1) b is (i ∷ []) i d₂ (omega arith)
          unique linked sound₂ in
      let at_last = iterator_at_last b i is (f.insts b) shape unique.0 in
      let sets = transferred-Grown d₁ in
      let q = reachable_equations filter in
      let at_i = frame₃ i unique.0 in
      let other₂ : (j : ℕ) → (i == j) ≡ false → (d₂.outs j ≡ df.outs j) × (d₂.ins j ≡ df.ins j) =
        (λ j e. (outs₁ j e, rw e (ins₁ j))) in
      elim (Bool-cases (changes q (backward f) df d₁ computed worklist b i at_end run₁)) [
        | inl on ↦ (
          d₃,
          insert b computed,
          worklist ++ f.predecessors b,
          process_pushed q (backward f) df d₁ computed worklist b i at_end run₁
              (record { block = b; before = is; after = i ∷ [] }) d₃ on at_last run₃,
          record {
            grown = Extends-trans df d₂ d₃ grown₂ grown₃;
            frame = λ j e.
                let here = frame₃ j (ground (arith, has-cons j i is)) in
                let old = other₂ j (ground (arith, has-cons j i is, eq_of_== i j, ==_refl j)) in
                (here.0 ∙ old.0, here.1 ∙ old.1);
            sound = sound₃;
            settled = (
              Fits-same d₂ d₃ i at_i.0 at_i.1 (grown₃.same_gens i) (transferred-Fits filter f d₁ i),
              settled₃,
            );
            met = λ t j e at_t a h. grown₃.outs_grow i a (got t j e at_t a h);
            outcome = inl (
              refl,
              refl,
              elim (changed (d₁.ins i) (d₂.ins i) (has b computed) sets on) [
                | inl fresh ↦ inl fresh
                | inr (a, not_yet, now) ↦ inr (a, rw (ins₁ i) at not_yet, grown₃.ins_grow i a now)
              ],
            );
          },
        )
        | inr off ↦
            let (known, same) = unchanged (d₁.ins i) (d₂.ins i) (has b computed) sets off in
            let members : (a : ℕ) → has a (d₂.ins i) ≡ has a (df.ins i) =
              (λ a. same a ∙ ap (has a) (ins₁ i)) in
            (
              d₂,
              computed,
              worklist,
              process_quiet q (backward f) df d₁ computed worklist b i at_end run₁ off,
              record {
                grown = grown₂;
                frame = λ j e. other₂ j (ground (arith, has-cons j i is, eq_of_== i j, ==_refl j));
                sound = sound₂;
                settled = (
                  transferred-Fits filter f d₁ i,
                  Settled-quiet df d₂ i is other₂ grown₂.same_gens members unique.0 (body known).1,
                );
                met = got;
                outcome = inr (
                  refl,
                  refl,
                  known,
                  λ j a. elim (Bool-cases (i == j)) [
                    | inl here ↦
                        subst (λ z. has a (d₂.ins z) ≡ has a (df.ins z)) (eq_of_== i j here)
                          (members a)
                    | inr other ↦ ap (has a) (other₂ j other).1
                  ],
                );
              },
            )
      ]
