-- ===== src/Dataflow/Forward.antt =====
-- DataFlowEngine.cpp: the forward analysis runs past the end of the first block.
use noelle_public.Dataflow.State.{Function, DataFlowResult}
use noelle_public.Dataflow.Iterator.{is_empty, iterator_at}
use noelle_public.Dataflow.Outcome.{Outcome, done, fault, past_end, ◌>>=◌}
use noelle_public.Dataflow.Engine.{
  Equations, forward, head, meet, transfer, initial_list, meet_predecessors, propagate, process,
  iterate, apply_forward, apply_generalized_forward_analysis,
}
use noelle_public.Prelude.{
  ℕ, zero, suc, ◌+◌, ◌≤◌, ◌≡◌, refl, ◌∙◌, ap, none, some, List, [], ◌∷◌, ◌++◌, length, has-nil,
  ==_refl, arith,
}

module _ (q : Equations) (f : Function) where
  -- The iterator is not at the end at the last instruction, and is moved there.
  propagate_runs_off :
      (fuel b i : ℕ) (is before : List ℕ) (df : DataFlowResult) (pred : ℕ)
      → 1 + length is ≤ fuel
      → propagate q (forward f) fuel df pred (record { block = b; before = before; after = i ∷ is })
        ≡ fault (past_end b)
  unfolding propagate is_empty
  propagate_runs_off zero b i is before df pred enough = absurd (omega arith)
  propagate_runs_off (suc fuel) b i [] before df pred enough = refl
  propagate_runs_off (suc fuel) b i (j ∷ is) before df pred enough =
      propagate_runs_off fuel b j is (i ∷ before)
        (transfer q (forward f) (meet q (forward f) df j pred) j) j (omega arith)

  initial_first :
      (bs : List ℕ) (b : ℕ) (l : List ℕ)
      → (rest : List ℕ) × (initial_list q (forward f) (b ∷ l) bs ≡ b ∷ rest)
  unfolding initial_list
  initial_first [] b l = (l, refl)
  initial_first (c ∷ bs) b l = initial_first bs b (l ++ (c ∷ []))

  -- getTerminator never fails, so that the callbacks see every predecessor.
  meet_predecessors_runs :
      (inst : ℕ) (bs : List ℕ) (df : DataFlowResult)
      → (df' : DataFlowResult) × (meet_predecessors q (forward f) df inst bs ≡ done df')
  unfolding meet_predecessors
  meet_predecessors_runs inst [] df = (df, refl)
  meet_predecessors_runs inst (b ∷ bs) df = meet_predecessors_runs inst bs _

  first_is :
      (b i : ℕ) (is : List ℕ) → f.insts b ≡ i ∷ is → (forward f).get_first_instruction b ≡ done i
  unfolding head
  first_is b i is shape =
      ap (λ l. elim (head l) as (λ o. Outcome ℕ) [ none ↦ fault (past_end b) | some k ↦ done k ])
        shape

  iterator_is :
      (b i : ℕ) (is : List ℕ)
      → f.insts b ≡ i ∷ is
      → (forward f).iterator b i ≡ done (record { block = b; before = []; after = i ∷ is })
  unfolding iterator_at
  iterator_is b i is shape = rw shape (rw (==_refl i) refl)

  process_fails :
      (df : DataFlowResult) (worklist : List ℕ) (b i : ℕ) (is : List ℕ)
      → f.insts b ≡ i ∷ is
      → process q (forward f) df [] worklist b ≡ fault (past_end b)
  unfolding process
  process_fails df worklist b i is shape =
      let (d₁, met) = meet_predecessors_runs i (f.predecessors b) df in
      let runs_off =
        propagate_runs_off (0 + length (i ∷ is)) b i is [] (transfer q (forward f) d₁ i) i
          (omega arith) in
      rw (first_is b i is shape, ◌>>=◌)
        (rw (met, ◌>>=◌)
          (rw (has-nil b) (rw (iterator_is b i is shape, ◌>>=◌) (rw (runs_off, ◌>>=◌) refl))))

  -- Whatever the equations, the forward analysis of a function whose first block has an instruction
  -- dereferences the end iterator of that block, as soon as it has one round of the work list.
  pub apply_forward_lem :
      (fuel b i : ℕ) (bs is : List ℕ)
      → f.blocks ≡ b ∷ bs
      → f.insts b ≡ i ∷ is
      → apply_forward q (suc fuel) f ≡ fault (past_end b)
  unfolding apply_forward apply_generalized_forward_analysis initial_list iterate
  apply_forward_lem fuel b i bs is first shape =
      let (rest, starts) = initial_first bs b [] in
      rw (ap (initial_list q (forward f) []) first ∙ starts)
        (rw (process_fails _ rest b i is shape, ◌>>=◌) refl)
