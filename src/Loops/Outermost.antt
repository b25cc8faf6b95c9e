-- ===== src/Loops/Outermost.antt =====
-- LoopTree::getOutermostLoopThatContains: the pre-order visit keeps the loop of the root.
use noelle_public.Loops.Tree.{
  LoopTree, Children, Loop, Found, node, nil, cons, u32, get_loop, is_included, find_loop,
  found_loop, visit_pre_order_from, visit_children_pre_order, visit_pre_order,
  get_outermost_loop_that_contains,
}
use noelle_public.Loops.Visit.{pre_root_step, pre_step}
use noelle_public.Loops.Nested.{height, height_children, height-pos, first-le}
use noelle_public.Prelude.{
  ℕ, ◌+◌, ◌%◌, ◌≤◌, ◌<◌, ◌≡◌, refl, ap, ◌∙◌, inl, inr, Bool, true, false, none, some, ltb,
  if◌then◌else◌, arith, Bool-cases,
}

module _ (bb : ℕ) where
  abbrev lower : LoopTree → ℕ → Found → Found × Bool
  lower = find_loop (λ level k. ltb level k) bb

  mutual
    unfolding find_loop height visit_pre_order_from

    deeper_kept :
        (t : LoopTree) (level : ℕ) (l₀ : Loop) (k : ℕ)
        → level + height t ≤ u32
        → k < level
        → visit_pre_order_from lower t level (some (some (l₀, k))) ≡ (some (some (l₀, k)), false)
    deeper_kept (node p l ts) level l₀ k room less =
        pre_root_step lower p l ts level (some (some (l₀, k))) (some (some (l₀, k)), false)
          (ground arith)
        ∙ deeper_children_kept ts (level + 1) l₀ k (omega arith) (omega arith)

    deeper_children_kept :
        (ts : Children) (level : ℕ) (l₀ : Loop) (k : ℕ)
        → level + height_children ts ≤ u32
        → k < level
        → visit_children_pre_order lower ts (level % u32) (some (some (l₀, k)))
          ≡ (some (some (l₀, k)), false)
    deeper_children_kept nil level l₀ k room less = refl
    deeper_children_kept (cons t ts) level l₀ k room less =
        let small : level % u32 ≡ level = omega (arith, first-le t ts, height-pos t) in
        pre_step lower t ts (level % u32) (some (some (l₀, k))) (some (some (l₀, k)), false)
          (rw small (deeper_kept t level l₀ k (ground arith) less))
        ∙ deeper_children_kept ts level l₀ k (ground arith) less

  root_found :
      (t : LoopTree)
      → is_included (get_loop t) bb ≡ true
      → height t < u32
      → visit_pre_order_from lower t 1 (some none) ≡ (some (some (get_loop t, 1)), false)
  unfolding find_loop height
  root_found (node p l ts) seen room =
      pre_root_step lower p l ts 1 (some none) (some (some (l, 1)), false) (ground arith)
      ∙ deeper_children_kept ts 2 l 1 (omega arith) (omega arith)

  search_from :
      (t : LoopTree)
      → is_included (get_loop t) bb ≡ true
      → get_outermost_loop_that_contains t bb
        ≡ found_loop (visit_pre_order_from lower t 1 (some none)).0
  unfolding get_outermost_loop_that_contains visit_pre_order
  search_from t seen = rw seen refl

  search_outside :
      (t : LoopTree)
      → is_included (get_loop t) bb ≡ false
      → get_outermost_loop_that_contains t bb ≡ some none
  unfolding get_outermost_loop_that_contains
  search_outside t unseen = rw unseen refl

  -- In a tree of fewer than 2^32 levels getOutermostLoopThatContains fails no assertion: it answers
  -- the loop of the tree itself if that includes the block, and null otherwise.
  pub outermost_lem :
      (t : LoopTree)
      → height t < u32
      → get_outermost_loop_that_contains t bb
        ≡ some (if is_included (get_loop t) bb then some (get_loop t) else none)
  outermost_lem t room = elim (Bool-cases (is_included (get_loop t) bb)) [
    | inr unseen ↦ rw unseen (search_outside t unseen)
    | inl seen ↦
        rw seen
          (search_from t seen ∙ ap (λ (r : Found × Bool). found_loop r.0) (root_found t seen room))
  ]
