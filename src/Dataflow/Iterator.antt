-- ===== src/Dataflow/Iterator.antt =====
-- The iterators of DataFlowEngine.cpp over the instructions of a block, with the operations that it uses.
use noelle_public.Dataflow.Outcome.{Outcome, done, fault, past_end, null_cast}
use noelle_public.Prelude.{ℕ, Bool, true, false, List, [], ◌∷◌, ◌==◌, if◌then◌else◌}

-- BasicBlock::iterator: the block, the instructions before the one that it points to, the nearest
-- first, and those from there on. At the end of the block there is none of these.
pub record Iterator : Type 0 where
  pub block : ℕ
  pub before : List ℕ
  pub after : List ℕ

unfoldable pub is_empty : List ℕ → Bool
is_empty [] = true
is_empty (i ∷ is) = false

-- iter == bb->end(), iter == bb->begin(), iter++ and iter--; nothing moves past either end.
abbrev pub is_end : Iterator → Bool
is_end it = is_empty it.after

abbrev pub is_begin : Iterator → Bool
is_begin it = is_empty it.before

abbrev pub increment : Iterator → Iterator
increment it = elim it.after [
  | [] ↦ it
  | i ∷ is ↦ record { block = it.block; before = i ∷ it.before; after = is }
]

abbrev pub decrement : Iterator → Iterator
decrement it = elim it.before [
  | [] ↦ it
  | i ∷ is ↦ record { block = it.block; before = is; after = i ∷ it.after }
]

abbrev pub dereference : Iterator → Outcome ℕ
dereference it = elim it.after [ [] ↦ fault (past_end it.block) | i ∷ is ↦ done i ]

-- BasicBlock::iterator iter(inst): `before` has the instructions passed. Only a null pointer is not
-- found in its block.
unfoldable pub iterator_at : ℕ → ℕ → List ℕ → List ℕ → Outcome Iterator
iterator_at b inst before [] = fault (null_cast b)
iterator_at b inst before (i ∷ is) =
    let rest = iterator_at b inst (i ∷ before) is in
    if i == inst then done (record { block = b; before = before; after = i ∷ is }) else rest
