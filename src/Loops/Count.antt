-- ===== src/Loops/Count.antt =====
-- getNumberOfSubLoops and getNumberOfLoops of src/core/loop_forest count the nodes of the visits.
use noelle_public.Loops.Tree.{
  LoopTree, Children, node, nil, cons, u32, get_number_of_sub_loops, count_sub_loops,
}
use noelle_public.Loops.Forest.{count_loops, get_number_of_loops, u64}
use noelle_public.Loops.Visit.{pre_order, pre_order_children}
use noelle_public.Prelude.{
  ℕ, ◌+◌, ◌-◌, ◌%◌, ◌≤◌, ◌<◌, ◌≡◌, List, [], ◌∷◌, ◌++◌, length, length-append, arith,
}

mutual
  unfolding get_number_of_sub_loops pre_order

  get_number_lem :
      (t : LoopTree) (level : ℕ)
      → get_number_of_sub_loops t ≡ (length (pre_order t level) - 1) % u32
  get_number_lem (node p l ts) level =
      omega (arith, count_lem ts ((level + 1) % u32) 0 (omega arith))

  count_lem :
      (ts : Children) (level k : ℕ)
      → k < u32
      → count_sub_loops ts k ≡ (k + length (pre_order_children ts level)) % u32
  count_lem nil level k l = omega arith
  count_lem (cons t ts) level k l = omega (
    arith,
    count_lem ts level (((k + 1) % u32 + get_number_of_sub_loops t) % u32) (omega arith),
    get_number_lem t level,
    pre_order-pos t level,
    length-append (pre_order t level) (pre_order_children ts level),
  )

  pre_order-pos : (t : LoopTree) (level : ℕ) → 0 < length (pre_order t level)
  pre_order-pos (node p l ts) level = omega arith

-- The nodes of the trees of a forest.
unfoldable pub forest_nodes : List LoopTree → List (LoopTree × ℕ)
forest_nodes [] = []
forest_nodes (t ∷ ts) = pre_order t 1 ++ forest_nodes ts

count_loops_lem :
    (ts : List LoopTree) (k : ℕ)
    → k + length (forest_nodes ts) ≤ u32
    → count_loops ts k ≡ k + length (forest_nodes ts)
unfolding count_loops forest_nodes
count_loops_lem [] k l = omega arith
count_loops_lem (t ∷ ts) k l =
    let both = length-append (pre_order t 1) (forest_nodes ts) in
    let one = get_number_lem t 1 in
    let some_node = pre_order-pos t 1 in
    let here : ((k + 1) % u64 + get_number_of_sub_loops t) % u64 ≡ k + length (pre_order t 1) =
      omega arith in
    rw here (omega (arith, count_loops_lem ts (k + length (pre_order t 1)) (omega arith)))

-- getNumberOfSubLoops of a tree is the number of the other nodes that a visit of it reaches, modulo
-- 2^32.
pub get_number_of_sub_loops_lem :
    (t : LoopTree) → get_number_of_sub_loops t ≡ (length (pre_order t 1) - 1) % u32
get_number_of_sub_loops_lem t = get_number_lem t 1

-- getNumberOfLoops is the number of the nodes that the visits of all trees reach, where these are at
-- most 2^32.
pub get_number_of_loops_lem :
    (ts : List LoopTree)
    → length (forest_nodes ts) ≤ u32
    → get_number_of_loops ts ≡ length (forest_nodes ts)
unfolding get_number_of_loops
get_number_of_loops_lem ts l = omega (arith, count_loops_lem ts 0 (omega arith))
