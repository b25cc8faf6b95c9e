-- ===== src/Loops/Deepest.antt =====
-- LoopTree::getInnermostLoopThatContains: the pre-order visit keeps the deepest loop.
use noelle_public.Loops.Tree.{
  LoopTree, Children, Loop, node, nil, cons, u32, get_loop, is_included, Found, child_includes,
  find_loop, visit_pre_order_from, visit_children_pre_order,
}
use noelle_public.Loops.Visit.{pre_root_step, pre_step}
use noelle_public.Prelude.{
  ℕ, ◌+◌, ◌%◌, ◌≤◌, ◌<◌, ◌≡◌, refl, sym, ◌∙◌, inl, inr, Bool, false, Option, none, some, ltb, arith,
  Bool-cases, Option-cases, subst,
}
use noelle_public.Loops.Nested.{
  height, height_children, height-pos, first-le, IsNested, AreNested, innermost, innermost_child,
  innermost_outside, children_outside, innermost-eq-none, innermost-eq-some, innermost_here,
  innermost_below,
}

module _ (bb : ℕ) where
  -- Where the block is not included the pre-order search changes nothing.
  mutual
    unfolding visit_pre_order_from find_loop IsNested child_includes

    pre_order_outside :
        (better : ℕ → ℕ → Bool) (t : LoopTree) (level : ℕ) (s : Option (Loop × ℕ))
        → IsNested bb t
        → is_included (get_loop t) bb ≡ false
        → visit_pre_order_from (find_loop better bb) t level (some s) ≡ (some s, false)
    pre_order_outside better (node p l ts) level none h e = rw e (
        pre_order_outside_children better l ts ((level + 1) % u32) none h
          (children_outside bb l ts h e).0)
    pre_order_outside better (node p l ts) level (some (l', k)) h e = rw e (
        pre_order_outside_children better l ts ((level + 1) % u32) (some (l', k)) h
          (children_outside bb l ts h e).0)

    pre_order_outside_children :
        (better : ℕ → ℕ → Bool) (l : Loop) (ts : Children) (level : ℕ) (s : Option (Loop × ℕ))
        → AreNested bb l ts
        → child_includes ts bb ≡ false
        → visit_children_pre_order (find_loop better bb) ts level (some s) ≡ (some s, false)
    pre_order_outside_children better l nil level s h e = refl
    pre_order_outside_children better l (cons t ts) level s (inside, nested, h) e =
        pre_step (find_loop better bb) t ts level (some s) _
          (pre_order_outside better t level s nested (ground arith))
        ∙ pre_order_outside_children better l ts level s h (ground arith)

  -- The state after the search of children from a loop l₀ at level k.
  abbrev pub Deeper : ℕ → Loop → ℕ → Option LoopTree → Found × Bool → Type 0
  Deeper level l₀ k none r = r ≡ (some (some (l₀, k)), false)
  Deeper level l₀ k (some u) r = (m : ℕ) × (level ≤ m) × (r ≡ (some (some (get_loop u, m)), false))

  along :
      (level : ℕ) (l₀ : Loop) (k : ℕ) (o o' : Option LoopTree) (r : Found × Bool)
      → o ≡ o'
      → Deeper level l₀ k o' r
      → Deeper level l₀ k o r
  along level l₀ k o o' r e d = subst (λ x. Deeper level l₀ k x r) (sym e) d

  mutual
    unfolding visit_pre_order_from find_loop IsNested child_includes innermost height

    pre_order_inside :
        (t : LoopTree) (level : ℕ) (l₀ : Loop) (k : ℕ)
        → IsNested bb t
        → level + height t ≤ u32
        → k < level
        → Deeper level l₀ k
            (innermost bb t)
            (visit_pre_order_from (find_loop (λ m n. ltb n m) bb) t level (some (some (l₀, k))))
    pre_order_inside (node p l ts) level l₀ k h room less = elim (Bool-cases (is_included l bb)) [
      | inr unseen ↦
          rw (innermost_outside bb (node p l ts) unseen)
            (pre_order_outside _ (node p l ts) level (some (l₀, k)) h unseen)
      | inl seen ↦
          let step =
            pre_root_step (find_loop (λ m n. ltb n m) bb) p l ts level (some (some (l₀, k)))
              (some (some (l, level)), false) (ground arith) in
          let below =
            pre_order_inside_children l ts (level + 1) l level h (omega arith) (omega arith) in
          elim (Option-cases (innermost_child bb ts)) [
            | inl nowhere ↦
                along level l₀ k _ (some (node p l ts)) _ (innermost_here bb p l ts seen nowhere)
                  (level, omega arith, step ∙ (rw nowhere at below))
            | inr (u, there) ↦
                let (m, le, e) = (rw there at below) in
                along level l₀ k _ (some u) _ (innermost_below bb p l ts u seen there)
                  (m, omega arith, step ∙ e)
          ]
    ]

    pub pre_order_inside_children :
        (l : Loop) (ts : Children) (level : ℕ) (l₀ : Loop) (k : ℕ)
        → AreNested bb l ts
        → level + height_children ts ≤ u32
        → k < level
        → Deeper level l₀ k (innermost_child bb ts) (
            visit_children_pre_order
              (find_loop (λ m n. ltb n m) bb)
              ts
              (level % u32)
              (some (some (l₀, k))))
    pre_order_inside_children l nil level l₀ k h room less = refl
    pre_order_inside_children l (cons t ts) level l₀ k h room less =
        let small : level % u32 ≡ level = omega (arith, first-le t ts, height-pos t) in
        elim (Option-cases (innermost bb t)) [
          | inl nowhere ↦ rw nowhere (
              rw
                (pre_step (find_loop (λ m n. ltb n m) bb) t ts (level % u32) (some (some (l₀, k))) _
                  (pre_order_outside _ t (level % u32) (some (l₀, k)) h.1
                    (innermost-eq-none bb t nowhere)))
                (pre_order_inside_children l ts level l₀ k h.2 (ground arith) less))
          | inr (u, there) ↦
              let (m, le, e) =
                (rw there at (pre_order_inside t level l₀ k h.1 (ground arith) less)) in
              rw (there, small)
                (
                  m,
                  le,
                  pre_step (find_loop (λ m n. ltb n m) bb) t ts level (some (some (l₀, k))) _ e
                      ∙ pre_order_outside_children _ l ts level (some (get_loop u, m)) h.2
                          (h.0 (innermost-eq-some bb t u there)).1,
                )
        ]
