-- ===== src/Dataflow/State.antt =====
-- DataFlowResult.cpp, and what LLVM tells of a function: its blocks, the instructions of each, and the
-- edges between them, with the null pointer as a number. A set that was never touched is empty.
use noelle_public.Prelude.{ℕ, List, [], ◌==◌, if◌then◌else◌}

pub record Function : Type 0 where
  pub blocks : List ℕ
  pub insts : ℕ → List ℕ
  pub predecessors : ℕ → List ℕ
  pub successors : ℕ → List ℕ
  pub null : ℕ

pub record DataFlowResult : Type 0 where
  pub gens : ℕ → List ℕ
  pub kills : ℕ → List ℕ
  pub ins : ℕ → List ℕ
  pub outs : ℕ → List ℕ

unfoldable pub new_result : DataFlowResult
new_result = record { gens = λ i. []; kills = λ i. []; ins = λ i. []; outs = λ i. [] }

-- A write through the reference that `operator[]` of a map returns.
abbrev pub assign_set : (ℕ → List ℕ) → ℕ → List ℕ → ℕ → List ℕ
assign_set f i s j = if i == j then s else f j
