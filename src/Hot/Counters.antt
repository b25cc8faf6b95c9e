-- ===== src/Hot/Counters.antt =====
-- Hot.cpp, Hot_BasicBlock.cpp, Hot_Function.cpp, Hot_Instruction.cpp and Hot_Module.cpp: the counters
-- in whole numbers. The blocks of a function, the entry first, the instructions of a block and the
-- profile are data of LLVM; `none` is the exception of `at` or a failed assertion. The frequencies and
-- the totals over callees, which are computed through double, are left out.
use noelle_public.Prelude.{
  ℕ, ◌+◌, ◌*◌, ◌%◌, ◌^◌, Bool, false, Option, none, some, List, [], ◌∷◌, ◌==◌, ltb, not, length,
  if◌then◌else◌, lookup, assign, ◌>>=◌,
}

pub record Hot : Type 0 where
  pub bb_invocations : List (ℕ × ℕ)
  pub function_invocations : List (ℕ × ℕ)
  pub function_self_instructions : List (ℕ × ℕ)
  pub module_number_of_instructions_executed : ℕ

-- What LLVM tells of the program: the blocks of a function, the instructions of a block, the block of
-- an instruction, whether it is a call or an invoke, and the function that it calls, if that is known.
pub record Program : Type 0 where
  pub blocks : ℕ → List ℕ
  pub instructions : ℕ → List ℕ
  pub parent : ℕ → ℕ
  pub is_call : ℕ → Bool
  pub called_function : ℕ → Option ℕ
  pub profile_count : ℕ → Option ℕ

unfoldable pub wrap_64 : ℕ → ℕ
wrap_64 n = n % (2 ^ 64)

abbrev pub blank_hot : Hot
blank_hot = record {
  bb_invocations = [];
  function_invocations = [];
  function_self_instructions = [];
  module_number_of_instructions_executed = 0;
}

unfoldable pub is_entry : List ℕ → ℕ → Bool
is_entry [] bb = false
is_entry (entry ∷ bs) bb = entry == bb

unfoldable pub get_block_invocations : Hot → ℕ → Option ℕ
get_block_invocations h bb = lookup bb h.bb_invocations

unfoldable pub get_function_invocations : Hot → ℕ → Option ℕ
get_function_invocations h f = lookup f h.function_invocations

unfoldable pub get_function_self_instructions : Hot → ℕ → Option ℕ
get_function_self_instructions h f = lookup f h.function_self_instructions

unfoldable pub is_module_executed : Hot → Bool
is_module_executed h = ltb 0 h.module_number_of_instructions_executed

unfoldable pub is_block_executed : Hot → ℕ → Option Bool
unfolding get_block_invocations
is_block_executed h bb = do n ← get_block_invocations h bb; some (not (n == 0))

unfoldable pub is_function_executed : Hot → ℕ → Option Bool
unfolding get_function_invocations
is_function_executed h f = do n ← get_function_invocations h f; some (not (n == 0))

module _ (p : Program) where
  -- `f` is the function that has the block.
  unfoldable pub set_basic_block_invocations : Hot → ℕ → ℕ → ℕ → Hot
  unfolding is_entry
  set_basic_block_invocations h f bb n = record h {
    function_invocations =
        (if is_entry (p.blocks f) bb
          then assign f n h.function_invocations
          else h.function_invocations);
    bb_invocations = assign bb n h.bb_invocations;
  }

  unfoldable pub get_static_instructions : ℕ → Option ℕ
  get_static_instructions bb =
      let n = length (p.instructions bb) in if ltb 0 n then some n else none

  unfoldable pub count_static_instructions : List ℕ → ℕ → Option ℕ
  unfolding wrap_64 get_static_instructions
  count_static_instructions [] t = some t
  count_static_instructions (bb ∷ bbs) t = do
    n ← get_static_instructions bb
    count_static_instructions bbs (wrap_64 (t + n))

  unfoldable pub get_function_static_instructions : ℕ → Option ℕ
  unfolding count_static_instructions
  get_function_static_instructions f = count_static_instructions (p.blocks f) 0

  unfoldable pub get_block_self_instructions : Hot → ℕ → Option ℕ
  unfolding wrap_64 get_static_instructions get_block_invocations
  get_block_self_instructions h bb = do
    n ← get_block_invocations h bb
    size ← get_static_instructions bb
    some (wrap_64 (n * size))

  -- A function without blocks is not part of the program.
  unfoldable pub get_instruction_invocations : Hot → ℕ → Option ℕ
  unfolding get_block_invocations get_function_invocations
  get_instruction_invocations h i = do
    n ← get_block_invocations h (p.parent i)
    let adjust : Option ℕ = elim (p.called_function i) [
      | none ↦ some n
      | some callee ↦ elim (p.blocks callee) [
        | [] ↦ some n
        | entry ∷ bs ↦ do m ← get_function_invocations h callee; some (if ltb m n then m else n)
      ]
    ]
    if p.is_call i then adjust else some n

  -- A block without a count has not been executed.
  abbrev pub profiled : ℕ → ℕ
  profiled bb = elim (p.profile_count bb) [ none ↦ 0 | some v ↦ v ]

  -- The loop over the blocks of a function.
  unfoldable pub set_blocks : ℕ → List ℕ → Hot → Hot
  unfolding set_basic_block_invocations
  set_blocks f [] h = h
  set_blocks f (bb ∷ bbs) h = set_blocks f bbs (set_basic_block_invocations h f bb (profiled bb))

  unfoldable pub set_functions : List ℕ → Hot → Hot
  unfolding set_blocks
  set_functions [] h = h
  set_functions (f ∷ fs) h = set_functions fs (set_blocks f (p.blocks f) h)

  unfoldable pub count_module : List (ℕ × ℕ) → Hot → Option Hot
  unfolding wrap_64 get_static_instructions get_block_invocations
  count_module [] h = some h
  count_module ((bb, _) ∷ rest) h = do
    n ← get_block_invocations h bb
    size ← get_static_instructions bb
    let executed = wrap_64 (h.module_number_of_instructions_executed + wrap_64 (n * size))
    count_module rest (record h { module_number_of_instructions_executed = executed })

  unfoldable pub count_blocks : Hot → List ℕ → ℕ → Option ℕ
  unfolding wrap_64 get_block_self_instructions
  count_blocks h [] c = some c
  count_blocks h (bb ∷ bbs) c = do
    n ← get_block_self_instructions h bb
    count_blocks h bbs (wrap_64 (c + n))

  unfoldable pub count_functions : List (ℕ × ℕ) → Hot → Option Hot
  unfolding count_blocks
  count_functions [] h = some h
  count_functions ((f, _) ∷ rest) h = do
    c ← count_blocks h (p.blocks f) 0
    count_functions rest
        (record h { function_self_instructions = assign f c h.function_self_instructions })

  -- computeProgramInvocations up to its call of computeTotalInstructions.
  unfoldable pub compute_self_instructions : Hot → Option Hot
  unfolding count_module count_functions
  compute_self_instructions h = do
    h₁ ← count_module h.bb_invocations h
    count_functions h₁.function_invocations h₁

  -- analyzeProfiles without the frequencies of branches and the totals over callees.
  unfoldable pub analyze_block_counts : List ℕ → Option Hot
  unfolding set_functions compute_self_instructions
  analyze_block_counts fs = compute_self_instructions (set_functions fs blank_hot)
