-- ===== src/Dominators/Query.antt =====
-- DominatorForest.cpp: the queries on blocks and on instructions. `none` is a failed assertion, a
-- dereference of a node that is not on the heap, or a search out of rounds.
use noelle_public.Dominators.Forest.{
  DominatorForest, get_node, dominates_node, find_nearest_common_dominator_node, top_level,
}
use noelle_public.Prelude.{
  ℕ, zero, suc, ◌+◌, Bool, true, false, not, Option, none, some, List, [], ◌∷◌, has, insert, ◌==◌,
  if◌then◌else◌, ◌>>=◌,
}

unfoldable pub dominates_block : DominatorForest → ℕ → ℕ → Option Bool
unfolding get_node dominates_node
dominates_block f b₁ b₂ = do
  node₁ ← get_node f b₁
  node₂ ← get_node f b₂
  dominates_node f node₁ node₂

unfoldable pub strictly_dominates_block : DominatorForest → ℕ → ℕ → Option Bool
unfolding dominates_block
strictly_dominates_block f b₁ b₂ =
    let answer = dominates_block f b₁ b₂ in if b₁ == b₂ then some false else answer

unfoldable pub find_nearest_common_dominator : DominatorForest → ℕ → ℕ → Option ℕ
unfolding get_node find_nearest_common_dominator_node
find_nearest_common_dominator f b₁ b₂ = do
  n₁ ← get_node f b₁
  n₂ ← get_node f b₂
  r ← find_nearest_common_dominator_node f n₁ n₂
  c ← r
  x ← f.heap c
  some x.b

-- The loop of addDescendants over the children: blocks found before are `ds`.
unfoldable pub add_each : (ℕ → List ℕ → Option (List ℕ)) → List ℕ → List ℕ → Option (List ℕ)
add_each add [] ds = some ds
add_each add (c ∷ cs) ds = do ds' ← add c ds; add_each add cs ds'

unfoldable pub add_descendants : ℕ → DominatorForest → ℕ → List ℕ → Option (List ℕ)
unfolding add_each
add_descendants zero f n ds = none
add_descendants (suc fuel) f n ds = do
  x ← f.heap n
  add_each (add_descendants fuel f) x.children (insert x.b ds)

unfoldable pub get_descendants : DominatorForest → ℕ → Option (List ℕ)
unfolding get_node add_descendants top_level
get_descendants f bb = do n ← get_node f bb; add_descendants (top_level f f.nodes + 1) f n []

-- The blocks of the instructions, and the instructions of the blocks in order, are LLVM's.
module _ (parent : ℕ → ℕ) (instructions : ℕ → List ℕ) where
  -- Whether the walk by getNextNode from i meets j.
  unfoldable pub walk_meets : ℕ → ℕ → List ℕ → Bool
  walk_meets i j [] = false
  walk_meets i j (x ∷ xs) = let rest = walk_meets i j xs in if x == i then has j (x ∷ xs) else rest

  unfoldable pub dominates : DominatorForest → ℕ → ℕ → Option Bool
  unfolding walk_meets dominates_block
  dominates f i j =
      let across = dominates_block f (parent i) (parent j) in
      if parent i == parent j
      then if walk_meets i j (instructions (parent i)) then some (not f.post) else some f.post
      else across

  unfoldable pub strictly_dominates : DominatorForest → ℕ → ℕ → Option Bool
  unfolding dominates
  strictly_dominates f i j = let answer = dominates f i j in if i == j then some false else answer

  unfoldable pub get_dominators_of : DominatorForest → List ℕ → ℕ → Option (List ℕ)
  unfolding dominates_block
  get_dominators_of f [] dominated_bb = some []
  get_dominators_of f (v ∷ vs) dominated_bb = do
    is_dominating ← dominates_block f (parent v) dominated_bb
    rest ← get_dominators_of f vs dominated_bb
    some (if is_dominating then insert v rest else rest)

  -- The inner loop of getInstructionsThatDoNotDominateAnyOther.
  unfoldable pub is_dominating_others : DominatorForest → ℕ → List ℕ → Option Bool
  unfolding dominates
  is_dominating_others f v [] = some false
  is_dominating_others f v (w ∷ ws) =
      let rest = is_dominating_others f v ws in
      let tested = (do
        is_dominating ← dominates f v w
        if is_dominating then some true else rest) in
      if v == w then rest else tested

  unfoldable pub select_dominating_none : DominatorForest → List ℕ → List ℕ → Option (List ℕ)
  unfolding is_dominating_others
  select_dominating_none f s [] = some []
  select_dominating_none f s (v ∷ vs) = do
    is_dominating ← is_dominating_others f v s
    rest ← select_dominating_none f s vs
    some (if is_dominating then rest else insert v rest)

  unfoldable pub get_instructions_that_do_not_dominate_any_other :
      DominatorForest → List ℕ → Option (List ℕ)
  unfolding select_dominating_none
  get_instructions_that_do_not_dominate_any_other f s = select_dominating_none f s s
