-- ===== src/Loops/Tree.antt =====
-- src/core/loop_forest/src/LoopTree.cpp. A tree is its node, with the pointer that identifies it, and
-- the trees of its children; `level` counts in uint32_t. Of a loop and an instruction the model
-- keeps what the code asks for.
use noelle_public.Prelude.{
  ℕ, ◌+◌, ◌%◌, ◌^◌, Bool, true, false, not, Option, none, some, List, [], has, insert, ltb, ◌==◌,
  if◌then◌else◌,
}

abbrev pub u32 : ℕ
u32 = 2 ^ 32

-- LoopStructure: `id` is its pointer.
pub record Loop : Type 0 where
  pub id : ℕ
  pub header : ℕ
  pub function : ℕ
  pub bbs : List ℕ

pub record Instruction : Type 0 where
  pub parent : ℕ
  pub function : ℕ

unfoldable pub is_included : Loop → ℕ → Bool
is_included l bb = has bb l.bbs

mutual
  pub data LoopTree : Type 0 where
    node : ℕ → Loop → Children → LoopTree

  pub data Children : Type 0 where
    nil : Children
    cons : LoopTree → Children → Children

abbrev pub pointer : LoopTree → ℕ
pointer (node p l ts) = p

abbrev pub get_loop : LoopTree → Loop
get_loop (node p l ts) = l

abbrev pub get_children : LoopTree → Children
get_children (node p l ts) = ts

unfoldable pub child_includes : Children → ℕ → Bool
unfolding is_included
child_includes nil bb = false
child_includes (cons t ts) bb =
    let rest = child_includes ts bb in if is_included (get_loop t) bb then true else rest

unfoldable pub is_included_in_its_sub_loops : LoopTree → Instruction → Bool
unfolding child_includes
is_included_in_its_sub_loops t i =
    if not (is_included (get_loop t) i.parent)
    then false
    else child_includes (get_children t) i.parent

unfoldable mutual
  pub get_number_of_sub_loops : LoopTree → ℕ
  get_number_of_sub_loops (node p l ts) = count_sub_loops ts 0

  -- The loop over the children, from a number of loops found before.
  pub count_sub_loops : Children → ℕ → ℕ
  count_sub_loops nil subloops = subloops
  count_sub_loops (cons t ts) subloops =
      count_sub_loops ts (((subloops + 1) % u32 + get_number_of_sub_loops t) % u32)

-- The function to invoke changes the variables it captures, a state, and says whether to stop.
module _ {ℓ} {S : Type ℓ} (invoke : LoopTree → ℕ → S → S × Bool) where
  unfoldable mutual
    pub visit_pre_order_from : LoopTree → ℕ → S → S × Bool
    visit_pre_order_from (node p l ts) level s =
        let (s', stop) = invoke (node p l ts) level s in
        elim stop [ true ↦ (s', true) | false ↦ visit_children_pre_order ts ((level + 1) % u32) s' ]

    pub visit_children_pre_order : Children → ℕ → S → S × Bool
    visit_children_pre_order nil level s = (s, false)
    visit_children_pre_order (cons t ts) level s =
        let (s', stop) = visit_pre_order_from t level s in
        elim stop [ true ↦ (s', true) | false ↦ visit_children_pre_order ts level s' ]

  unfoldable mutual
    pub visit_post_order_from : LoopTree → ℕ → S → S × Bool
    visit_post_order_from (node p l ts) level s =
        let (s', stop) = visit_children_post_order ts ((level + 1) % u32) s in
        elim stop [ true ↦ (s', true) | false ↦ invoke (node p l ts) level s' ]

    pub visit_children_post_order : Children → ℕ → S → S × Bool
    visit_children_post_order nil level s = (s, false)
    visit_children_post_order (cons t ts) level s =
        let (s', stop) = visit_post_order_from t level s in
        elim stop [ true ↦ (s', true) | false ↦ visit_children_post_order ts level s' ]

  unfoldable pub visit_pre_order : LoopTree → S → S × Bool
  unfolding visit_pre_order_from
  visit_pre_order t s = visit_pre_order_from t 1 s

  unfoldable pub visit_post_order : LoopTree → S → S × Bool
  unfolding visit_post_order_from
  visit_post_order t s = visit_post_order_from t 1 s

-- The closures of the functions below.
unfoldable pub collect_node : LoopTree → ℕ → List ℕ → List ℕ × Bool
collect_node n level s = (insert (pointer n) s, false)

unfoldable pub collect_loop : LoopTree → ℕ → List ℕ → List ℕ × Bool
collect_loop n level s = (insert (get_loop n).id s, false)

unfoldable pub collect_other : ℕ → LoopTree → ℕ → List ℕ → List ℕ × Bool
collect_other this n level s = (if pointer n == this then s else insert (pointer n) s, false)

unfoldable pub get_nodes : LoopTree → List ℕ
unfolding visit_pre_order collect_node
get_nodes t = (visit_pre_order collect_node t []).0

unfoldable pub get_loops : LoopTree → List ℕ
unfolding visit_pre_order collect_loop
get_loops t = (visit_pre_order collect_loop t []).0

unfoldable pub get_descendants : LoopTree → List ℕ
unfolding visit_pre_order collect_other
get_descendants t = (visit_pre_order (collect_other (pointer t)) t []).0

-- The loop found so far with its level; `none` is a failed assertion.
abbrev pub Found : Type 0
Found = Option (Option (Loop × ℕ))

-- `better` compares the level of the node with that of the loop found so far.
unfoldable pub find_loop : (ℕ → ℕ → Bool) → ℕ → LoopTree → ℕ → Found → Found × Bool
unfolding is_included
find_loop better bb n level none = (none, false)
find_loop better bb n level (some none) =
    (if is_included (get_loop n) bb then some (some (get_loop n, level)) else some none, false)
find_loop better bb n level (some (some (l, k))) = (
  if is_included (get_loop n) bb
      then if level == k
        then none
        else if better level k
        then some (some (get_loop n, level))
        else some (some (l, k))
      else some (some (l, k)),
  false,
)

abbrev pub found_loop : Found → Option (Option Loop)
found_loop none = none
found_loop (some none) = some none
found_loop (some (some (l, k))) = some (some l)

-- A null pointer is `some none`.
unfoldable pub get_innermost_loop_that_contains : LoopTree → ℕ → Option (Option Loop)
unfolding visit_pre_order find_loop
get_innermost_loop_that_contains t bb =
    if not (is_included (get_loop t) bb)
    then some none
    else found_loop (visit_pre_order (find_loop (λ level k. ltb k level) bb) t (some none)).0

unfoldable pub get_outermost_loop_that_contains : LoopTree → ℕ → Option (Option Loop)
unfolding visit_pre_order find_loop
get_outermost_loop_that_contains t bb =
    if not (is_included (get_loop t) bb)
    then some none
    else found_loop (visit_pre_order (find_loop (λ level k. ltb level k) bb) t (some none)).0
