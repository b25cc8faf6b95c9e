-- ===== src/Loops/Innermost.antt =====
-- getInnermostLoopThatContains and getOutermostLoopThatContains of src/core/loop_forest: the search
-- of a tree in pre-order for the deepest loop and the search of a forest in post-order for the first
-- loop find the same loop.
use noelle_public.Loops.Tree.{
  LoopTree, Children, Loop, node, nil, cons, u32, get_loop, is_included, Found, found_loop,
  find_loop, visit_pre_order_from, visit_pre_order, visit_post_order, visit_post_order_from,
  visit_children_post_order, get_innermost_loop_that_contains,
}
use noelle_public.Loops.Forest.{find_node}
use noelle_public.Loops.Visit.{pre_root_step, post_root_step, post_step}
use noelle_public.Prelude.{
  ℕ, ◌+◌, ◌%◌, ◌<◌, ◌≡◌, refl, ap, ◌∙◌, inl, inr, Bool, true, false, Option, none, some, ltb, arith,
  Bool-cases, Option-cases, subst,
}
use noelle_public.Loops.Nested.{
  Within, height, IsNested, AreNested, innermost, innermost_child, children_outside,
  innermost-eq-none, innermost-eq-some, innermost_here, innermost_below, IsInnermost,
  innermost-Within,
}
use noelle_public.Loops.Deepest.{pre_order_inside_children}

module _ (bb : ℕ) where
  -- What the post-order search answers, from what the definition above does.
  abbrev answer : Option LoopTree → Option LoopTree → Option LoopTree × Bool
  answer s none = (s, false)
  answer s (some u) = (some u, true)

  mutual
    unfolding innermost visit_post_order_from find_node IsNested

    pub post_order_search :
        (t : LoopTree) (level : ℕ) (s : Option LoopTree)
        → IsNested bb t
        → visit_post_order_from (find_node bb) t level s ≡ answer s (innermost bb t)
    post_order_search (node p l ts) level s h =
        post_root_step (find_node bb) p l ts level s _
          (post_order_search_children l ts ((level + 1) % u32) s h)
        ∙ (elim (Option-cases (innermost_child bb ts)) [
          | inl nowhere ↦ rw nowhere (ground arith)
          | inr (u, below) ↦ rw below (elim (Bool-cases (is_included l bb)) [
            | inl seen ↦ rw seen refl
            | inr unseen ↦ absurd (cc (below, (children_outside bb l ts h unseen).1))
          ])
        ])

    post_order_search_children :
        (l : Loop) (ts : Children) (level : ℕ) (s : Option LoopTree)
        → AreNested bb l ts
        → visit_children_post_order (find_node bb) ts level s ≡ answer s (innermost_child bb ts)
    post_order_search_children l nil level s h = refl
    post_order_search_children l (cons t ts) level s (inside, nested, h) =
        post_step (find_node bb) t ts level s _ (post_order_search t level s nested)
        ∙ (elim (Option-cases (innermost bb t)) [
          | inl nowhere ↦ rw nowhere (post_order_search_children l ts level s h)
          | inr (u, here) ↦ rw here refl
        ])

  abbrev search : LoopTree → Found × Bool
  search t = visit_pre_order_from (find_loop (λ m n. ltb n m) bb) t 1 (some none)

  search_lem :
      (t u : LoopTree)
      → innermost bb t ≡ some u
      → IsNested bb t
      → height t < u32
      → (m : ℕ) × (search t ≡ (some (some (get_loop u, m)), false))
  unfolding find_loop height IsNested
  search_lem (node p l ts) u e h room =
      let seen = innermost-eq-some bb (node p l ts) u e in
      let step =
        pre_root_step (find_loop (λ m n. ltb n m) bb) p l ts 1 (some none)
          (some (some (l, 1)), false) (ground arith) in
      let below = pre_order_inside_children bb l ts 2 l 1 h (omega arith) (omega arith) in
      elim (Option-cases (innermost_child bb ts)) [
        | inl nowhere ↦
            let same : node p l ts ≡ u = cc (innermost_here bb p l ts seen nowhere, e) in
            (
              1,
              subst (λ x. search (node p l ts) ≡ (some (some (get_loop x, 1)), false)) same
                  (step ∙ (rw nowhere at below)),
            )
        | inr (v, there) ↦
            let same : v ≡ u = cc (innermost_below bb p l ts v seen there, e) in
            let (m, le, found) = (rw there at below) in
            (
              m,
              subst (λ x. search (node p l ts) ≡ (some (some (get_loop x, m)), false)) same
                  (step ∙ found),
            )
      ]

  get_innermost_from :
      (t : LoopTree)
      → is_included (get_loop t) bb ≡ true
      → get_innermost_loop_that_contains t bb ≡ found_loop (search t).0
  unfolding get_innermost_loop_that_contains visit_pre_order
  get_innermost_from t seen = rw seen refl

  innermost_lem :
      (t : LoopTree)
      → is_included (get_loop t) bb ≡ true
      → (u : LoopTree) × (innermost bb t ≡ some u)
  innermost_lem t seen = elim (Option-cases (innermost bb t)) [
    | inl nowhere ↦ absurd (cc (seen, innermost-eq-none bb t nowhere))
    | inr found ↦ found
  ]

  -- In a tree of fewer than 2^32 levels whose loops are nested around a block of the outermost loop,
  -- the search of LoopTree in pre-order for the deepest loop fails no assertion, and it and the
  -- search of LoopForest in post-order for the first loop find the same node: a loop of the tree
  -- that includes the block and has no sub-loop that does.
  pub searches_agree :
      (t : LoopTree)
      → is_included (get_loop t) bb ≡ true
      → IsNested bb t
      → height t < u32
      → (u : LoopTree) × Within u t
        × IsInnermost bb u
        × (get_innermost_loop_that_contains t bb ≡ some (some (get_loop u)))
        × (visit_post_order (find_node bb) t none ≡ (some u, true))
  unfolding visit_post_order
  searches_agree t seen h room =
      let (u, e) = innermost_lem t seen in
      let (within, good) = innermost-Within bb t u e in
      let (m, found) = search_lem t u e h room in
      (
        u,
        within,
        good,
        get_innermost_from t seen ∙ ap (λ (r : Found × Bool). found_loop r.0) found,
        post_order_search t 1 none h ∙ rw e refl,
      )
