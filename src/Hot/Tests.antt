-- ===== src/Hot/Tests.antt =====
-- Hot.cpp at work on two functions, the second of which was not executed.
use noelle_public.Hot.Counters.{
  Hot, Program, profiled, wrap_64, get_block_invocations, get_function_self_instructions,
  analyze_block_counts,
}
use noelle_public.Hot.Profile.{keys, size_of, executed_in}
use noelle_public.Hot.Analysis.{analyze_block_counts_lem}
use noelle_public.Prelude.{
  ℕ, ◌+◌, ◌≤◌, ◌≡◌, true, false, none, some, [], ◌∷◌, has, ◌==◌, if◌then◌else◌, arith,
}

abbrev two_functions : Program
two_functions = record {
  blocks = λ f. if f == 1 then 10 ∷ 11 ∷ [] else (if f == 2 then 20 ∷ [] else []);
  instructions = λ bb. 100 ∷ 101 ∷ 102 ∷ [];
  parent = λ i. 10;
  is_call = λ i. false;
  called_function = λ i. none;
  profile_count = λ bb. if bb == 20 then none else some (bb + bb);
}

all_filled : (bb : ℕ) → 1 ≤ size_of two_functions bb
all_filled bb = omega arith

analyze_block_counts_lem_example :
    (h : Hot) × (analyze_block_counts two_functions (1 ∷ 2 ∷ []) ≡ some h)
    × ((f bb : ℕ)
        → has f (1 ∷ 2 ∷ []) ≡ true
        → has bb (two_functions.blocks f) ≡ true
        → (get_block_invocations h bb ≡ some (profiled two_functions bb))
          × (get_function_self_instructions h f
              ≡ some (wrap_64 (executed_in two_functions (two_functions.blocks f)))))
    × (h.module_number_of_instructions_executed
        ≡ wrap_64 (executed_in two_functions (keys h.bb_invocations)))
analyze_block_counts_lem_example = analyze_block_counts_lem two_functions all_filled (1 ∷ 2 ∷ [])
