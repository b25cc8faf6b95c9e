-- ===== src/Dominators/Ancestors.antt =====
-- DominatorForest::dominates(node): the set of the nodes that dominate a node.
use noelle_public.Dominators.Forest.{
  DominatorForest, DominatorNode, top_level, dominators, dominators_from,
}
use noelle_public.Dominators.Invariant.{
  IsForest, Dominates, itself, Dominates-step, Dominates-root, level-le,
}
use noelle_public.Prelude.{
  ℕ, zero, suc, ◌+◌, ◌<◌, ◌≡◌, refl, ◌↔◌, inl, inr, true, some, List, [], has, has-nil, has-insert,
  insert, ◌==◌, arith, eq_of_==, Bool-cases, Option-cases, ◌>>=◌, subst, sym,
}

module _ (f : DominatorForest) (v : IsForest f) where
  ancestors_lem :
      (fuel n : ℕ) (x : DominatorNode)
      → has n f.nodes ≡ true
      → f.heap n ≡ some x
      → x.level < fuel
      → (l : List ℕ) × (dominators_from fuel f (some n) ≡ some l)
        × ((d : ℕ) → (has d l ≡ true) ↔ Dominates f d n)
  unfolding dominators_from
  ancestors_lem zero n x in_n at_n l = absurd (omega arith)
  ancestors_lem (suc fuel) n x in_n at_n l = elim (Option-cases x.parent) [
    | inl root ↦ (
      insert n [],
      rw (at_n, ◌>>=◌) (rw (root, ◌>>=◌) refl),
      λ d. (
        λ t.
            subst (λ z. Dominates f z n)
              (sym (eq_of_== d n (ground (arith, has-insert d n [], has-nil d)))) itself,
        λ dom. ground (arith, has-insert d n [], Dominates-root f d n x at_n root dom),
      ),
    )
    | inr (p, up) ↦
        let (in_p, (y, at_p, lower, _)) = v.parent_lists n p x in_n at_n up in
        let (above, run, law) = ancestors_lem fuel p y in_p at_p (omega arith) in
        let step = λ (d : ℕ). Dominates-step f d n p x at_n up in
        (
          insert n above,
          rw (at_n, ◌>>=◌) (rw (up, run, ◌>>=◌) refl),
          λ d. (
            λ t. (step d).1 (elim (Bool-cases (d == n)) [
              | inl same ↦ inl (eq_of_== d n same)
              | inr other ↦ inr ((law d).0 (ground (arith, has-insert d n above)))
            ]),
            λ dom. elim ((step d).0 dom) [
              | inl same ↦ ground (arith, has-insert d n above)
              | inr dom' ↦ let t = (law d).1 dom' in ground (arith, has-insert d n above)
            ],
          ),
        )
  ]

  -- In a forest the walk to the root ends, and the nodes it collects are exactly those that dominate
  -- the node.
  pub dominators_lem :
      (n : ℕ)
      → has n f.nodes ≡ true
      → (l : List ℕ) × (dominators f n ≡ some l) × ((d : ℕ) → (has d l ≡ true) ↔ Dominates f d n)
  unfolding dominators
  dominators_lem n in_n =
      let (x, at_n) = v.lives n in_n in
      ancestors_lem (top_level f f.nodes + 1) n x in_n at_n
        (omega (arith, level-le f n x f.nodes in_n at_n))
