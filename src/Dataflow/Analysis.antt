-- ===== src/Dataflow/Analysis.antt =====
-- DataFlowAnalysis.cpp: the instructions that can be executed from each instruction on.
use noelle_public.Dataflow.State.{Function, DataFlowResult, new_result, assign_set}
use noelle_public.Dataflow.Engine.{Equations, apply_backward, instructions}
use noelle_public.Dataflow.Outcome.{Outcome}
use noelle_public.Prelude.{ℕ, Bool, true, List, [], ◌∷◌, insert, insert_all, if◌then◌else◌}

-- The sets of a result that hold every instruction of the function.
unfoldable pub fill : List ℕ → List ℕ → DataFlowResult → DataFlowResult
unfolding insert_all
fill all [] df = df
fill all (i ∷ is) df = fill all is (record df {
  ins = assign_set df.ins i (insert_all all (df.ins i));
  outs = assign_set df.outs i (insert_all all (df.outs i));
})

unfoldable pub get_full_sets : Function → DataFlowResult
unfolding fill instructions new_result
get_full_sets f = let all = instructions f f.blocks in fill all all new_result

-- The callbacks computeGEN, computeKILL, computeOUT and computeIN, in the order of the engine.
abbrev pub reachable_equations : (ℕ → Bool) → Equations
reachable_equations filter = record {
  compute_gen = λ i df.
      if filter i then record df { gens = assign_set df.gens i (insert i (df.gens i)) } else df;
  compute_kill = λ i df. df;
  initialize_in = λ i s. s;
  initialize_out = λ i s. s;
  compute_in = λ inst succ out df. insert_all (df.ins succ) out;
  compute_out = λ inst in_set df. insert_all (df.outs inst) (insert_all (df.gens inst) in_set);
}

unfoldable pub run_filtered_analysis : (ℕ → Bool) → ℕ → Function → Outcome DataFlowResult
run_filtered_analysis filter fuel f = apply_backward (reachable_equations filter) fuel f

unfoldable pub run_reachable_analysis : ℕ → Function → Outcome DataFlowResult
run_reachable_analysis fuel f = run_filtered_analysis (λ i. true) fuel f
