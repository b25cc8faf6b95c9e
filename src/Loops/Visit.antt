-- ===== src/Loops/Visit.antt =====
-- The visits of LoopTree.cpp as walks of a list of nodes that end where the function says so.
use noelle_public.Loops.Tree.{
  LoopTree, Loop, Children, node, nil, cons, u32, visit_pre_order_from, visit_children_pre_order,
  visit_pre_order, visit_post_order_from, visit_children_post_order, visit_post_order,
}
use noelle_public.Prelude.{ℕ, ◌+◌, ◌%◌, ◌≡◌, refl, sym, ◌∙◌, Bool, true, false, List, [], ◌∷◌, ◌++◌}

-- The nodes of a tree with their levels, a node before those below it or behind them.
unfoldable mutual
  pub pre_order : LoopTree → ℕ → List (LoopTree × ℕ)
  pre_order (node p l ts) level = (node p l ts, level) ∷ pre_order_children ts ((level + 1) % u32)

  pub pre_order_children : Children → ℕ → List (LoopTree × ℕ)
  pre_order_children nil level = []
  pre_order_children (cons t ts) level = pre_order t level ++ pre_order_children ts level

unfoldable mutual
  pub post_order : LoopTree → ℕ → List (LoopTree × ℕ)
  post_order (node p l ts) level =
      post_order_children ts ((level + 1) % u32) ++ (node p l ts, level) ∷ []

  pub post_order_children : Children → ℕ → List (LoopTree × ℕ)
  post_order_children nil level = []
  post_order_children (cons t ts) level = post_order t level ++ post_order_children ts level

module _ {ℓ} {S : Type ℓ} where
  -- Goes on after a visit that did not stop.
  abbrev pub go_on : S × Bool → (S → S × Bool) → S × Bool
  go_on r f = elim r.1 [ true ↦ (r.0, true) | false ↦ f r.0 ]

  pub go_on_cong :
      (r r' : S × Bool) (f f' : S → S × Bool)
      → r ≡ r'
      → ((s : S) → f s ≡ f' s)
      → go_on r f ≡ go_on r' f'
  go_on_cong r (s, true) f f' e h = rw e refl
  go_on_cong r (s, false) f f' e h = rw e (h s)

  pub go_on_assoc :
      (r : S × Bool) (f f' h : S → S × Bool)
      → ((s : S) → f' s ≡ go_on (f s) h)
      → go_on r f' ≡ go_on (go_on r f) h
  go_on_assoc (s, true) f f' h e = refl
  go_on_assoc (s, false) f f' h e = e s

module _ {ℓ} {S : Type ℓ} (invoke : LoopTree → ℕ → S → S × Bool) where
  -- Invokes the function on the nodes of a list up to the first that stops.
  unfoldable pub invoke_all : List (LoopTree × ℕ) → S → S × Bool
  invoke_all [] s = (s, false)
  invoke_all ((t, level) ∷ ns) s =
      let (s', stop) = invoke t level s in
      elim stop [ true ↦ (s', true) | false ↦ invoke_all ns s' ]

  -- One step of each visit, from what its first part does.
  pub pre_root_step :
      (p : ℕ) (l : Loop) (ts : Children) (level : ℕ) (s : S) (r : S × Bool)
      → invoke (node p l ts) level s ≡ r
      → visit_pre_order_from invoke (node p l ts) level s
        ≡ go_on r (visit_children_pre_order invoke ts ((level + 1) % u32))
  unfolding visit_pre_order_from
  pre_root_step p l ts level s r e =
      go_on_cong _ r (visit_children_pre_order invoke ts ((level + 1) % u32)) _ e (λ x. refl)

  pub pre_step :
      (t : LoopTree) (ts : Children) (level : ℕ) (s : S) (r : S × Bool)
      → visit_pre_order_from invoke t level s ≡ r
      → visit_children_pre_order invoke (cons t ts) level s
        ≡ go_on r (visit_children_pre_order invoke ts level)
  unfolding visit_pre_order_from
  pre_step t ts level s r e =
      go_on_cong _ r (visit_children_pre_order invoke ts level) _ e (λ x. refl)

  pub post_root_step :
      (p : ℕ) (l : Loop) (ts : Children) (level : ℕ) (s : S) (r : S × Bool)
      → visit_children_post_order invoke ts ((level + 1) % u32) s ≡ r
      → visit_post_order_from invoke (node p l ts) level s ≡ go_on r (invoke (node p l ts) level)
  unfolding visit_post_order_from
  post_root_step p l ts level s r e = go_on_cong _ r (invoke (node p l ts) level) _ e (λ x. refl)

  pub post_step :
      (t : LoopTree) (ts : Children) (level : ℕ) (s : S) (r : S × Bool)
      → visit_post_order_from invoke t level s ≡ r
      → visit_children_post_order invoke (cons t ts) level s
        ≡ go_on r (visit_children_post_order invoke ts level)
  unfolding visit_post_order_from
  post_step t ts level s r e =
      go_on_cong _ r (visit_children_post_order invoke ts level) _ e (λ x. refl)

  last : (r : S × Bool) → go_on r (invoke_all []) ≡ r
  unfolding invoke_all
  last (s, true) = refl
  last (s, false) = refl

  pub invoke_all-append :
      (ms ns : List (LoopTree × ℕ)) (s : S)
      → invoke_all (ms ++ ns) s ≡ go_on (invoke_all ms s) (invoke_all ns)
  unfolding invoke_all
  invoke_all-append [] ns s = refl
  invoke_all-append ((t, level) ∷ ms) ns s =
      go_on_assoc (invoke t level s) (invoke_all ms) (invoke_all (ms ++ ns)) (invoke_all ns)
        (invoke_all-append ms ns)

  mutual
    unfolding visit_pre_order_from pre_order invoke_all

    pub pre_order_from_lem :
        (t : LoopTree) (level : ℕ) (s : S)
        → visit_pre_order_from invoke t level s ≡ invoke_all (pre_order t level) s
    pre_order_from_lem (node p l ts) level s =
        go_on_cong (invoke (node p l ts) level s) _ _ _ refl
          (pre_order_children_lem ts ((level + 1) % u32))

    pub pre_order_children_lem :
        (ts : Children) (level : ℕ) (s : S)
        → visit_children_pre_order invoke ts level s ≡ invoke_all (pre_order_children ts level) s
    pre_order_children_lem nil level s = refl
    pre_order_children_lem (cons t ts) level s =
        go_on_cong (visit_pre_order_from invoke t level s) (invoke_all (pre_order t level) s) _ _
          (pre_order_from_lem t level s) (pre_order_children_lem ts level)
        ∙ sym (invoke_all-append (pre_order t level) (pre_order_children ts level) s)

  mutual
    unfolding visit_post_order_from post_order invoke_all

    pub post_order_from_lem :
        (t : LoopTree) (level : ℕ) (s : S)
        → visit_post_order_from invoke t level s ≡ invoke_all (post_order t level) s
    post_order_from_lem (node p l ts) level s =
        go_on_cong (visit_children_post_order invoke ts ((level + 1) % u32) s)
          (invoke_all (post_order_children ts ((level + 1) % u32)) s) _ _
          (post_order_children_lem ts ((level + 1) % u32) s)
          (λ s'. sym (last (invoke (node p l ts) level s')))
        ∙ sym (invoke_all-append (post_order_children ts ((level + 1) % u32)) _ s)

    pub post_order_children_lem :
        (ts : Children) (level : ℕ) (s : S)
        → visit_children_post_order invoke ts level s ≡ invoke_all (post_order_children ts level) s
    post_order_children_lem nil level s = refl
    post_order_children_lem (cons t ts) level s =
        go_on_cong (visit_post_order_from invoke t level s) (invoke_all (post_order t level) s) _ _
          (post_order_from_lem t level s) (post_order_children_lem ts level)
        ∙ sym (invoke_all-append (post_order t level) (post_order_children ts level) s)

  -- visitPreOrder and visitPostOrder invoke the function on the nodes of the tree in pre-order and
  -- in post-order, each with its depth as level, up to the first node where it answers true.
  pub visits_lem :
      (t : LoopTree) (s : S)
      → (visit_pre_order invoke t s ≡ invoke_all (pre_order t 1) s)
        × (visit_post_order invoke t s ≡ invoke_all (post_order t 1) s)
  unfolding visit_pre_order visit_post_order
  visits_lem t s = (pre_order_from_lem t 1 s, post_order_from_lem t 1 s)
