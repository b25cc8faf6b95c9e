-- ===== src/Dataflow/Tests.antt =====
-- A function of one block that leads to itself: the analyses of src/core/dataflow at work.
use noelle_public.Dataflow.State.{Function, DataFlowResult, new_result}
use noelle_public.Dataflow.Engine.{
  apply_forward, head, instructions, initialize, compute_gen_and_kill, initial_list,
  meet_predecessors, propagate, process, iterate, apply_generalized_forward_analysis,
  apply_backward,
}
use noelle_public.Dataflow.Iterator.{is_empty, iterator_at}
use noelle_public.Dataflow.Outcome.{done, fault, past_end, out_of_rounds, ◌>>=◌}
use noelle_public.Dataflow.Analysis.{reachable_equations, run_filtered_analysis}
use noelle_public.Dataflow.Flow.{Later, IsFunction}
use noelle_public.Dataflow.Reachable.{rounds, run_filtered_analysis_lem}
use noelle_public.Dataflow.Forward.{apply_forward_lem}
use noelle_public.Prelude.{
  ℕ, ◌<◌, ◌≤◌, ◌≡◌, refl, sym, ◌∙◌, ap, ◌↔◌, ◌⊎◌, Bool, true, [], ◌∷◌, has, has-cons, has-nil,
  eq_of_==, arith, insert, insert_all, total-le,
}

abbrev loop : Function
loop = record {
  blocks = 0 ∷ [];
  insts = λ b. 0 ∷ 1 ∷ [];
  predecessors = λ b. 0 ∷ [];
  successors = λ b. 0 ∷ [];
  null = 99;
}

only : (b : ℕ) → has b (0 ∷ []) ≡ true → b ≡ 0
only b e = eq_of_== b 0 (ground (arith, has-cons b 0 [], has-nil b))

below_two : (i : ℕ) → has i (0 ∷ 1 ∷ []) ≡ true → i < 2
below_two i e = ground (arith, has-cons i 0 (1 ∷ []), has-cons i 1 [], has-nil i)

loop-IsFunction : IsFunction loop 2 1
unfolding has
loop-IsFunction = record {
  not_empty = λ b e. (1, 0 ∷ [], refl);
  once = λ b e. (refl, (refl, tt));
  owner = λ b c i e e' h h'. only b e ∙ sym (only c e');
  successors_in = λ b s e h. h;
  predecessors_in = λ b p e h. h;
  both_ways = λ b s e h. ap (λ x. has x (0 ∷ [])) (only s h ∙ sym (only b e));
  inst_below = λ b i e h. below_two i h;
  block_below = λ b e. let zeroth = only b e in omega arith;
}

-- From the second instruction the loop leads back to both.
loop_runs :
    ((do df ← run_filtered_analysis (λ i. true) 9 loop; done (df.outs 1)) ≡ done (1 ∷ 0 ∷ []))
    × (run_filtered_analysis (λ i. true) 1 loop ≡ fault out_of_rounds)
unfolding run_filtered_analysis apply_backward apply_generalized_forward_analysis head is_empty
    iterator_at instructions initialize compute_gen_and_kill initial_list meet_predecessors
    propagate process iterate has insert insert_all new_result
loop_runs = (refl, refl)

enough : rounds loop 2 1 loop-IsFunction (λ i. true) ≤ 4
enough = omega (arith, total-le 1 3 (λ b. 3) (λ a l. omega arith))

run_filtered_analysis_lem_example :
    (df : DataFlowResult) × (run_filtered_analysis (λ i. true) 4 loop ≡ done df)
    × ((b i a : ℕ)
        → has b loop.blocks ≡ true
        → has i (loop.insts b) ≡ true
        → ((has a (df.outs i) ≡ true) ↔ (Later loop i a × (◌≡◌ {A = Bool} true true)))
          × ((has a (df.ins i) ≡ true) ↔ (((a ≡ i) ⊎ Later loop i a) × (◌≡◌ {A = Bool} true true))))
run_filtered_analysis_lem_example =
    run_filtered_analysis_lem loop 2 1 loop-IsFunction (λ i. true) 4 enough

apply_forward_lem_example :
    apply_forward (reachable_equations (λ i. true)) 9 loop ≡ fault (past_end 0)
apply_forward_lem_example =
    apply_forward_lem (reachable_equations (λ i. true)) loop 8 0 0 [] (1 ∷ []) refl refl
