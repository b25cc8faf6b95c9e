-- ===== src/Dominators/Forest.antt =====
-- DominatorForest.cpp and DominatorNode.cpp: nodes on a heap, and the functions from nodes to nodes.
-- `none` is the dereference of a node that is not on the heap, or a loop out of rounds: a walk to
-- the roots has one round for each level, a search one for each node below its start.
use noelle_public.Prelude.{
  ℕ, zero, suc, ◌+◌, Bool, true, false, Option, none, some, List, [], ◌∷◌, ◌++◌, has, insert, ltb,
  ◌==◌, if◌then◌else◌, ◌>>=◌,
}

pub record DominatorNode : Type 0 where
  pub b : ℕ
  pub level : ℕ
  pub parent : Option ℕ
  pub children : List ℕ

-- `next` is the address that `new` returns.
pub record DominatorForest : Type 0 where
  pub nodes : List ℕ
  pub bb_node_map : List (ℕ × ℕ)
  pub post : Bool
  pub heap : ℕ → Option DominatorNode
  pub next : ℕ

unfoldable pub find_block : ℕ → List (ℕ × ℕ) → Option ℕ
find_block bb [] = none
find_block bb ((k, p) ∷ m) = if k == bb then some p else find_block bb m

unfoldable pub get_node : DominatorForest → ℕ → Option ℕ
unfolding find_block
get_node f bb = find_block bb f.bb_node_map

unfoldable pub level_at : DominatorForest → ℕ → ℕ
level_at f n = elim (f.heap n) [ none ↦ 0 | some x ↦ x.level ]

-- The highest level of the nodes of a list.
unfoldable pub top_level : DominatorForest → List ℕ → ℕ
unfolding level_at
top_level f [] = 0
top_level f (n ∷ ns) =
    let rest = top_level f ns in if ltb rest (level_at f n) then level_at f n else rest

unfoldable pub children_at : DominatorForest → ℕ → List ℕ
children_at f n = elim (f.heap n) [ none ↦ [] | some x ↦ x.children ]

-- The number of nodes that a search meets below the nodes of a list, down to a depth.
abbrev pub sum_of : (ℕ → ℕ) → List ℕ → ℕ
sum_of w [] = 0
sum_of w (n ∷ ns) = w n + sum_of w ns

unfoldable pub visits : ℕ → DominatorForest → ℕ → ℕ
unfolding children_at
visits zero f n = 1
visits (suc d) f n = 1 + sum_of (visits d f) (children_at f n)

-- The search of `dominates` for a node below those of the queue.
unfoldable pub search : ℕ → DominatorForest → List ℕ → ℕ → Option Bool
search fuel f [] target = some false
search zero f (n ∷ queue) target = none
search (suc fuel) f (n ∷ queue) target =
    let rest = (do x ← f.heap n; search fuel f (queue ++ x.children) target) in
    if n == target then some true else rest

unfoldable pub dominates_node : DominatorForest → ℕ → ℕ → Option Bool
unfolding search visits top_level
dominates_node f node₁ node₂ = search (visits (top_level f f.nodes) f node₁) f (node₁ ∷ []) node₂

unfoldable pub dominators_from : ℕ → DominatorForest → Option ℕ → Option (List ℕ)
dominators_from fuel f none = some []
dominators_from zero f (some n) = none
dominators_from (suc fuel) f (some n) = do
  x ← f.heap n
  rest ← dominators_from fuel f x.parent
  some (insert n rest)

unfoldable pub dominators : DominatorForest → ℕ → Option (List ℕ)
unfolding dominators_from top_level
dominators f n = dominators_from (top_level f f.nodes + 1) f (some n)

-- The walk from a node to its parents up to one of the given nodes; a null pointer is `some none`.
unfoldable pub nearest_from : ℕ → DominatorForest → List ℕ → Option ℕ → Option (Option ℕ)
nearest_from fuel f given none = some none
nearest_from zero f given (some n) = none
nearest_from (suc fuel) f given (some n) =
    let rest = (do x ← f.heap n; nearest_from fuel f given x.parent) in
    if has n given then some (some n) else rest

unfoldable pub find_nearest_common_dominator_node : DominatorForest → ℕ → ℕ → Option (Option ℕ)
unfolding dominators nearest_from
find_nearest_common_dominator_node f node₁ node₂ = do
  dominators_of_2 ← dominators f node₂
  nearest_from (top_level f f.nodes + 1) f dominators_of_2 (some node₁)
