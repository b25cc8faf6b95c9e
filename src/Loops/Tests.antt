-- ===== src/Loops/Tests.antt =====
-- A nest of four loops: the theorems about src/core/loop_forest at work.
use noelle_public.Loops.Tree.{
  LoopTree, Loop, node, nil, cons, u32, get_loop, is_included, child_includes, collect_node,
  visit_pre_order, visit_post_order, get_innermost_loop_that_contains,
  get_outermost_loop_that_contains, get_nodes, get_number_of_sub_loops, find_loop,
}
use noelle_public.Loops.Forest.{find_node, get_number_of_loops}
use noelle_public.Loops.Nested.{Within, height, IsNested, IsInnermost}
use noelle_public.Loops.Innermost.{searches_agree}
use noelle_public.Loops.Outermost.{outermost_lem}
use noelle_public.Loops.Count.{get_number_of_sub_loops_lem, get_number_of_loops_lem, forest_nodes}
use noelle_public.Loops.Visit.{visits_lem, invoke_all, pre_order, post_order}
use noelle_public.Prelude.{
  if◌then◌else◌, ℕ, ◌-◌, ◌%◌, ◌<◌, ◌≤◌, ◌≡◌, refl, true, none, some, List, [], ◌∷◌, length, has,
  insert, arith,
}

abbrev loop : ℕ → List ℕ → Loop
loop h bbs = record { id = h; header = h; function = 0; bbs = bbs }

abbrev inner : LoopTree
inner = node 3 (loop 3 (3 ∷ [])) nil

abbrev nest : LoopTree
nest =
    node 1 (loop 1 (1 ∷ 2 ∷ 3 ∷ 4 ∷ [])) (
      cons (node 2 (loop 2 (2 ∷ 3 ∷ [])) (cons inner nil))
        (cons (node 4 (loop 4 (4 ∷ [])) nil) nil))

nest-IsNested : IsNested 3 nest
unfolding IsNested is_included child_includes has
nest-IsNested = ((λ e. (refl, refl)), ((λ e. (refl, refl)), refl, refl), ((λ e. cc), refl, refl))

nest_low : height nest < u32
unfolding height
nest_low = omega arith

nest_sees : is_included (get_loop nest) 3 ≡ true
unfolding is_included has
nest_sees = refl

nest_nodes : get_nodes nest ≡ 4 ∷ 3 ∷ 2 ∷ 1 ∷ []
unfolding get_nodes visit_pre_order collect_node has insert
nest_nodes = refl

nest_innermost : get_innermost_loop_that_contains nest 3 ≡ some (some (get_loop inner))
unfolding get_innermost_loop_that_contains visit_pre_order find_loop is_included has
nest_innermost = refl

searches_agree_example :
    (u : LoopTree) × Within u nest
    × IsInnermost 3 u
    × (get_innermost_loop_that_contains nest 3 ≡ some (some (get_loop u)))
    × (visit_post_order (find_node 3) nest none ≡ (some u, true))
searches_agree_example = searches_agree 3 nest nest_sees nest-IsNested nest_low

visits_lem_example :
    (visit_pre_order collect_node nest [] ≡ invoke_all collect_node (pre_order nest 1) [])
    × (visit_post_order collect_node nest [] ≡ invoke_all collect_node (post_order nest 1) [])
visits_lem_example = visits_lem collect_node nest []

get_number_of_sub_loops_lem_example :
    get_number_of_sub_loops nest ≡ (length (pre_order nest 1) - 1) % u32
get_number_of_sub_loops_lem_example = get_number_of_sub_loops_lem nest

few : length (forest_nodes (nest ∷ inner ∷ [])) ≤ u32
unfolding forest_nodes pre_order
few = omega arith

get_number_of_loops_lem_example :
    get_number_of_loops (nest ∷ inner ∷ []) ≡ length (forest_nodes (nest ∷ inner ∷ []))
get_number_of_loops_lem_example = get_number_of_loops_lem (nest ∷ inner ∷ []) few

outermost_lem_example :
    get_outermost_loop_that_contains nest 3
    ≡ some (if is_included (get_loop nest) 3 then some (get_loop nest) else none)
outermost_lem_example = outermost_lem 3 nest nest_low
