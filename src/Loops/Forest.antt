-- ===== src/Loops/Forest.antt =====
-- src/core/loop_forest/src/LoopForest.cpp, the operations on the trees of a forest.
use noelle_public.Loops.Tree.{
  LoopTree, Instruction, pointer, get_loop, is_included, get_number_of_sub_loops, visit_post_order,
}
use noelle_public.Prelude.{
  ℕ, ◌+◌, ◌%◌, ◌^◌, Bool, true, false, Option, none, some, List, [], ◌∷◌, ◌==◌, if◌then◌else◌,
}

abbrev pub u64 : ℕ
u64 = 2 ^ 64

unfoldable pub count_loops : List LoopTree → ℕ → ℕ
count_loops [] t = t
count_loops (tree ∷ trees) t =
    count_loops trees (((t + 1) % u64 + get_number_of_sub_loops tree) % u64)

unfoldable pub get_number_of_loops : List LoopTree → ℕ
unfolding count_loops
get_number_of_loops trees = count_loops trees 0

-- Whether a set of trees holds a pointer.
unfoldable pub has_tree : ℕ → List LoopTree → Bool
has_tree p [] = false
has_tree p (t ∷ ts) = let rest = has_tree p ts in if pointer t == p then true else rest

unfoldable pub erase_tree : ℕ → List LoopTree → List LoopTree
erase_tree p [] = []
erase_tree p (t ∷ ts) = let rest = erase_tree p ts in if pointer t == p then rest else t ∷ rest

-- `none` is a failed assertion.
unfoldable pub remove_tree : List LoopTree → LoopTree → Option (List LoopTree)
unfolding has_tree erase_tree
remove_tree trees t =
    if has_tree (pointer t) trees
    then (let rest = erase_tree (pointer t) trees in
        if has_tree (pointer t) rest then none else some rest)
    else none

unfoldable pub add_tree : List LoopTree → LoopTree → Option (List LoopTree)
unfolding has_tree
add_tree trees t = if has_tree (pointer t) trees then none else some (t ∷ trees)

-- The visitor of the search: the first node whose loop includes the block ends the visit.
unfoldable pub find_node : ℕ → LoopTree → ℕ → Option LoopTree → Option LoopTree × Bool
unfolding is_included
find_node bb n level innermost =
    if is_included (get_loop n) bb then (some n, true) else (innermost, false)

-- A null pointer is `some none`, a failed assertion `none`.
unfoldable pub get_innermost_node_that_contains :
    List LoopTree → Instruction → Option (Option LoopTree)
unfolding find_node visit_post_order
get_innermost_node_that_contains [] i = some none
get_innermost_node_that_contains (t ∷ ts) i =
    let rest = get_innermost_node_that_contains ts i in
    let innermost = (visit_post_order (find_node i.parent) t none).0 in
    if (get_loop t).function == i.function
    then if is_included (get_loop t) i.parent
      then elim innermost [ none ↦ none | some n ↦ some (some n) ]
      else rest
    else rest
