-- ===== src/Dataflow/Engine.antt =====
-- DataFlowEngine.cpp. A callback gets the sets that it reads, and returns the set that it writes.
use mathlib.Core.List.{reverse}
use noelle_public.Dataflow.State.{Function, DataFlowResult, new_result, assign_set}
use noelle_public.Dataflow.Outcome.{Outcome, done, fault, past_end, out_of_rounds, ◌>>=◌}
use noelle_public.Dataflow.Iterator.{
  Iterator, is_end, is_begin, increment, decrement, dereference, iterator_at,
}
use noelle_public.Prelude.{
  ℕ, zero, suc, ◌+◌, Bool, not, ◌||◌, Option, none, some, List, [], ◌∷◌, ◌++◌, length, has, insert,
  ◌==◌, if◌then◌else◌,
}

pub record Equations : Type 0 where
  pub compute_gen : ℕ → DataFlowResult → DataFlowResult
  pub compute_kill : ℕ → DataFlowResult → DataFlowResult
  pub initialize_in : ℕ → List ℕ → List ℕ
  pub initialize_out : ℕ → List ℕ → List ℕ
  pub compute_in : ℕ → ℕ → List ℕ → DataFlowResult → List ℕ
  pub compute_out : ℕ → List ℕ → DataFlowResult → List ℕ

-- What the forward and the backward analysis choose; `stops` is the test against the end iterator.
pub record Customization : Type 0 where
  pub append_bb : List ℕ → ℕ → List ℕ
  pub get_first_instruction : ℕ → Outcome ℕ
  pub get_last_instruction : ℕ → Outcome ℕ
  pub get_predecessors : ℕ → List ℕ
  pub get_successors : ℕ → List ℕ
  pub in_set : DataFlowResult → ℕ → List ℕ
  pub put_in : DataFlowResult → ℕ → List ℕ → DataFlowResult
  pub out_set : DataFlowResult → ℕ → List ℕ
  pub put_out : DataFlowResult → ℕ → List ℕ → DataFlowResult
  pub iterator : ℕ → ℕ → Outcome Iterator
  pub stops : Iterator → Bool
  pub move : Iterator → Iterator

unfoldable pub head : List ℕ → Option ℕ
head [] = none
head (i ∷ is) = some i

-- &*bb->begin()
abbrev pub front : Function → ℕ → Outcome ℕ
front f b = elim (head (f.insts b)) [ none ↦ fault (past_end b) | some i ↦ done i ]

-- bb->getTerminator(): a block without instructions answers the null pointer of the function.
abbrev pub get_terminator : Function → ℕ → ℕ
get_terminator f b = elim (head (reverse (f.insts b))) [ none ↦ f.null | some i ↦ i ]

abbrev pub put_ins : DataFlowResult → ℕ → List ℕ → DataFlowResult
put_ins df i s = record df { ins = assign_set df.ins i s }

abbrev pub put_outs : DataFlowResult → ℕ → List ℕ → DataFlowResult
put_outs df i s = record df { outs = assign_set df.outs i s }

abbrev pub forward : Function → Customization
forward f = record {
  append_bb = λ l b. l ++ b ∷ [];
  get_first_instruction = front f;
  get_last_instruction = λ b. done (get_terminator f b);
  get_predecessors = f.predecessors;
  get_successors = f.successors;
  in_set = λ df i. df.ins i;
  put_in = put_ins;
  out_set = λ df i. df.outs i;
  put_out = put_outs;
  iterator = λ b i. iterator_at b i [] (f.insts b);
  stops = λ it. is_end it;
  move = λ it. increment it;
}

abbrev pub backward : Function → Customization
backward f = record {
  append_bb = λ l b. b ∷ l;
  get_first_instruction = λ b. done (get_terminator f b);
  get_last_instruction = front f;
  get_predecessors = f.successors;
  get_successors = f.predecessors;
  in_set = λ df i. df.outs i;
  put_in = put_outs;
  out_set = λ df i. df.ins i;
  put_out = put_ins;
  iterator = λ b i. iterator_at b i [] (f.insts b);
  stops = λ it. is_begin it;
  move = λ it. decrement it;
}

-- The instructions of a list of blocks.
unfoldable pub instructions : Function → List ℕ → List ℕ
instructions f [] = []
instructions f (b ∷ bs) = f.insts b ++ instructions f bs

module _ (q : Equations) where
  unfoldable pub initialize : DataFlowResult → List ℕ → DataFlowResult
  initialize df [] = df
  initialize df (i ∷ is) =
      initialize
        (record df {
          ins = assign_set df.ins i (q.initialize_in i (df.ins i));
          outs = assign_set df.outs i (q.initialize_out i (df.outs i));
        })
        is

  unfoldable pub compute_gen_and_kill : DataFlowResult → List ℕ → DataFlowResult
  compute_gen_and_kill df [] = df
  compute_gen_and_kill df (i ∷ is) = compute_gen_and_kill (q.compute_kill i (q.compute_gen i df)) is

  module _ (c : Customization) where
    unfoldable pub initial_list : List ℕ → List ℕ → List ℕ
    initial_list l [] = l
    initial_list l (b ∷ bs) = initial_list (c.append_bb l b) bs

    -- IN of an instruction after one of its predecessors, and OUT of an instruction.
    abbrev pub meet : DataFlowResult → ℕ → ℕ → DataFlowResult
    meet df inst pred = c.put_in df inst (q.compute_in inst pred (c.in_set df inst) df)

    abbrev pub transfer : DataFlowResult → ℕ → DataFlowResult
    transfer df inst = c.put_out df inst (q.compute_out inst (c.out_set df inst) df)

    unfoldable pub meet_predecessors : DataFlowResult → ℕ → List ℕ → Outcome DataFlowResult
    meet_predecessors df inst [] = done df
    meet_predecessors df inst (b ∷ bs) = do
      pred ← c.get_last_instruction b
      meet_predecessors (meet df inst pred) inst bs

    -- The loop over the rest of a block, which moves over each instruction at most once.
    unfoldable pub propagate : ℕ → DataFlowResult → ℕ → Iterator → Outcome DataFlowResult
    propagate zero df pred it = if c.stops it then done df else fault out_of_rounds
    propagate (suc fuel) df pred it =
        let it' = c.move it in
        let rest = (do i ← dereference it'; propagate fuel (transfer (meet df i pred) i) i it') in
        if c.stops it then done df else rest

    -- One round of the work list, after `bb` left it.
    unfoldable pub process :
        DataFlowResult → List ℕ → List ℕ → ℕ → Outcome (DataFlowResult × List ℕ × List ℕ)
    process df computed worklist bb = do
      inst ← c.get_first_instruction bb
      df₁ ← meet_predecessors df inst (c.get_predecessors bb)
      let df₂ = transfer df₁ inst
      if not (has bb computed) || not (length (c.out_set df₂ inst) == length (c.out_set df₁ inst))
          then (do
            it ← c.iterator bb inst
            df₃ ← propagate (length it.before + length it.after) df₂ inst it
            done (df₃, insert bb computed, worklist ++ c.get_successors bb))
          else done (df₂, computed, worklist)

    unfoldable pub iterate : ℕ → DataFlowResult → List ℕ → List ℕ → Outcome DataFlowResult
    iterate fuel df computed [] = done df
    iterate zero df computed (bb ∷ worklist) = fault out_of_rounds
    iterate (suc fuel) df computed (bb ∷ worklist) = do
      (df', computed', worklist') ← process df computed worklist bb
      iterate fuel df' computed' worklist'

    unfoldable pub apply_generalized_forward_analysis : ℕ → Function → Outcome DataFlowResult
    apply_generalized_forward_analysis fuel f =
        let all = instructions f f.blocks in
        iterate fuel (compute_gen_and_kill (initialize new_result all) all) []
          (initial_list [] f.blocks)

unfoldable pub apply_forward : Equations → ℕ → Function → Outcome DataFlowResult
apply_forward q fuel f = apply_generalized_forward_analysis q (forward f) fuel f

-- The sets start empty, and IN and OUT are exchanged.
unfoldable pub apply_backward : Equations → ℕ → Function → Outcome DataFlowResult
apply_backward q fuel f =
    apply_generalized_forward_analysis
      (record q { initialize_in = λ i s. s; initialize_out = λ i s. s }) (backward f) fuel f

-- The overloads with an empty KILL.
abbrev pub without_kill : Equations → Equations
without_kill q = record q { compute_kill = λ i df. df }

unfoldable pub apply_forward_without_kill : Equations → ℕ → Function → Outcome DataFlowResult
apply_forward_without_kill q fuel f = apply_forward (without_kill q) fuel f

unfoldable pub apply_backward_without_kill : Equations → ℕ → Function → Outcome DataFlowResult
apply_backward_without_kill q fuel f = apply_backward (without_kill q) fuel f
