-- ===== src/Dominators/Search.antt =====
-- DominatorForest::dominates(node1, node2): the search below the first node.
use noelle_public.Dominators.Forest.{
  DominatorForest, DominatorNode, top_level, level_at, search, visits, children_at, sum_of,
  dominates_node,
}
use noelle_public.Dominators.Invariant.{
  IsForest, Dominates, itself, parent_of, Dominates-trans, level-le,
}
use noelle_public.Prelude.{
  ℕ, zero, suc, ◌+◌, ◌-◌, ◌≤◌, ◌<◌, ◌≡◌, refl, sym, ◌↔◌, ◌⊎◌, inl, inr, Bool, true, false, some,
  List, [], ◌∷◌, ◌++◌, has, has-nil, has-cons, has-append, ◌==◌, ==_refl, arith, eq_of_==,
  Bool-cases, List-cases, ap, ◌>>=◌, subst,
}

sum_of-append : (w : ℕ → ℕ) (xs ys : List ℕ) → sum_of w (xs ++ ys) ≡ sum_of w xs + sum_of w ys
sum_of-append w [] ys = omega arith
sum_of-append w (x ∷ xs) ys = omega (arith, sum_of-append w xs ys)

sum_of_mono :
    (w w' : ℕ → ℕ) (xs : List ℕ)
    → ((n : ℕ) → has n xs ≡ true → w n ≤ w' n)
    → sum_of w xs ≤ sum_of w' xs
sum_of_mono w w' [] h = omega arith
sum_of_mono w w' (x ∷ xs) h = omega (
  arith,
  h x (ground (arith, has-cons x x xs, ==_refl x)),
  sum_of_mono w w' xs (λ n t. h n (ground (arith, has-cons n x xs))),
)

only : (m n : ℕ) → has m (n ∷ []) ≡ true → (m == n) ≡ true
only m n e = ground (arith, has-cons m n [], has-nil m)

module _ (f : DominatorForest) where
  visits-pos : (d n : ℕ) → 0 < visits d f n
  unfolding visits
  visits-pos zero n = omega arith
  visits-pos (suc d) n = omega arith

  visits_mono : (d e n : ℕ) → d ≤ e → visits d f n ≤ visits e f n
  unfolding visits
  visits_mono zero e n l = visits-pos e n
  visits_mono (suc d) zero n l = absurd (omega arith)
  visits_mono (suc d) (suc e) n l = omega (
    arith,
    sum_of_mono (visits d f) (visits e f) (children_at f n)
        (λ c t. visits_mono d e c (omega arith)),
  )

  -- Some node of a list dominates a node.
  pub data AnyDominates (target : ℕ) : List ℕ → Type 0 where
    any : {n : ℕ} {ns : List ℕ} → has n ns ≡ true → Dominates f n target → AnyDominates target ns

module _ (f : DominatorForest) (v : IsForest f) where
  -- The rounds that a search from a node takes.
  abbrev cost : ℕ → ℕ
  cost n = visits (top_level f f.nodes - level_at f n) f n

  level-at : (n : ℕ) (x : DominatorNode) → f.heap n ≡ some x → level_at f n ≡ x.level
  unfolding level_at
  level-at n x at_n = rw (at_n, level_at) refl

  children-at : (n : ℕ) (x : DominatorNode) → f.heap n ≡ some x → children_at f n ≡ x.children
  unfolding children_at
  children-at n x at_n = rw (at_n, children_at) refl

  child_room :
      (n c : ℕ) (x : DominatorNode)
      → has n f.nodes ≡ true
      → f.heap n ≡ some x
      → has c x.children ≡ true
      → (x.level < level_at f c) × (level_at f c ≤ top_level f f.nodes)
  child_room n c x in_n at_n in_c =
      let (in_nodes, (y, at_c, lower, _)) = v.child_points n c x in_n at_n in_c in
      rw (level-at c y at_c) (lower, level-le f c y f.nodes in_nodes at_c)

  cost_falls :
      (n : ℕ) (x : DominatorNode) (d : ℕ)
      → has n f.nodes ≡ true
      → f.heap n ≡ some x
      → top_level f f.nodes - x.level ≡ d
      → sum_of cost x.children < visits d f n
  unfolding visits
  cost_falls n x zero in_n at_n e = elim (List-cases x.children) [
    | inl leaf ↦ rw leaf (omega arith)
    | inr (c, cs, more) ↦
        let room =
          child_room n c x in_n at_n (rw more (ground (arith, has-cons c c cs, ==_refl c))) in
        absurd (omega (arith, room))
  ]
  cost_falls n x (suc d) in_n at_n e = rw (children-at n x at_n) (
      omega (
        arith,
        sum_of_mono cost (visits d f) x.children
            (λ c t. visits_mono f _ d c (omega (arith, child_room n c x in_n at_n t))),
      ))

  below :
      (n t : ℕ) (x : DominatorNode)
      → f.heap n ≡ some x
      → has t f.nodes ≡ true
      → Dominates f n t
      → (n ≡ t) ⊎ AnyDominates f t x.children
  below n t x at_n in_t itself = inl refl
  below n t x at_n in_t (parent_of {p} y at_t up d) =
      let (in_p, (z, at_p, _, listed)) = v.parent_lists t p y in_t at_t up in
      elim (below n p x at_n in_p d) [
        | inl same ↦
            let is_x : z ≡ x = cc (same, at_n, at_p) in
            inr (any (subst (λ w. has t w.children ≡ true) is_x listed) itself)
        | inr (any in_c d') ↦ inr (any in_c (parent_of y at_t up d'))
      ]

  round_lem :
      (n t : ℕ) (x : DominatorNode) (queue : List ℕ)
      → has n f.nodes ≡ true
      → f.heap n ≡ some x
      → has t f.nodes ≡ true
      → (n == t) ≡ false
      → AnyDominates f t (queue ++ x.children) ↔ AnyDominates f t (n ∷ queue)
  round_lem n t x queue in_n at_n in_t ne = (
    λ a. elim a [
      | any {n = m} in_m d ↦ elim (Bool-cases (has m queue)) [
        | inl waits ↦ any (ground (arith, has-cons m n queue)) d
        | inr new ↦
            let (_, (y, at_m, _, up)) =
              v.child_points n m x in_n at_n (ground (arith, has-append m queue x.children)) in
            any (ground (arith, has-cons n n queue, ==_refl n))
              (Dominates-trans (parent_of y at_m up itself) d)
      ]
    ],
    λ a. elim a [
      | any {n = m} in_m d ↦ elim (Bool-cases (m == n)) [
        | inl same ↦
            elim (below n t x at_n in_t (subst (λ z. Dominates f z t) (eq_of_== m n same) d)) [
              | inl there ↦ absurd (ground arith)
              | inr (any {n = c} in_c d') ↦ any (ground (arith, has-append c queue x.children)) d'
            ]
        | inr other ↦ any (ground (arith, has-cons m n queue, has-append m queue x.children)) d
      ]
    ],
  )

  search_lem :
      (fuel : ℕ) (queue : List ℕ) (t : ℕ)
      → has t f.nodes ≡ true
      → ((n : ℕ) → has n queue ≡ true → has n f.nodes ≡ true)
      → sum_of cost queue ≤ fuel
      → (b : Bool) × (search fuel f queue t ≡ some b) × ((b ≡ true) ↔ AnyDominates f t queue)
  unfolding search
  search_lem fuel [] t in_t all room =
      (false, refl, ((λ e. cc), λ a. elim a [ any {n = m} in_m d ↦ absurd (cc (has-nil m, in_m)) ]))
  search_lem zero (n ∷ queue) t in_t all room = absurd (omega (arith, visits-pos f _ n))
  search_lem (suc fuel) (n ∷ queue) t in_t all room =
      let here = all n (ground (arith, has-cons n n queue, ==_refl n)) in
      elim (Bool-cases (n == t)) [
        | inl found ↦ (
          true,
          rw found refl,
          (
            λ e.
                any (ground (arith, has-cons n n queue, ==_refl n))
                  (subst (λ z. Dominates f n z) (eq_of_== n t found) itself),
            λ a. refl,
          ),
        )
        | inr other ↦
            let (x, at_n) = v.lives n here in
            let (b, run, law) =
              search_lem fuel (queue ++ x.children) t in_t
                (λ m in_m. elim (Bool-cases (has m queue)) [
                  | inl waits ↦ all m (ground (arith, has-cons m n queue))
                  | inr new ↦
                      (v.child_points n m x here at_n
                        (ground (arith, has-append m queue x.children))).0
                ])
                (omega (
                  arith,
                  sum_of-append cost queue x.children,
                  cost_falls n x _ here at_n
                      (ap (λ z. top_level f f.nodes - z) (sym (level-at n x at_n))),
                )) in
            let step = round_lem n t x queue here at_n in_t other in
            (b, rw (other, at_n, ◌>>=◌) run, (λ e. step.0 (law.0 e), λ a. law.1 (step.1 a)))
      ]

  -- In a forest the search below the first node ends, and answers true exactly when the first node
  -- dominates the second: when the walk from the second node to its parents meets it.
  pub dominates_node_lem :
      (n₁ n₂ : ℕ)
      → has n₁ f.nodes ≡ true
      → has n₂ f.nodes ≡ true
      → (b : Bool) × (dominates_node f n₁ n₂ ≡ some b) × ((b ≡ true) ↔ Dominates f n₁ n₂)
  unfolding dominates_node
  dominates_node_lem n₁ n₂ in₁ in₂ =
      let (x, at₁) = v.lives n₁ in₁ in
      let start =
        search_lem (visits (top_level f f.nodes) f n₁) (n₁ ∷ []) n₂ in₂
          (λ m in_m. subst (λ z. has z f.nodes ≡ true) (sym (eq_of_== m n₁ (only m n₁ in_m))) in₁)
          (omega (
            arith,
            visits_mono f (top_level f f.nodes - level_at f n₁) (top_level f f.nodes) n₁
                (omega arith),
          )) in
      let (b, run, law) = start in
      (
        b,
        run,
        (
          λ e. elim (law.0 e) [
            | any {n = m} in_m d ↦ subst (λ z. Dominates f z n₂) (eq_of_== m n₁ (only m n₁ in_m)) d
          ],
          λ d. law.1 (any (ground (arith, has-cons n₁ n₁ [], ==_refl n₁)) d),
        ),
      )
