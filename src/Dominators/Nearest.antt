-- ===== src/Dominators/Nearest.antt =====
-- DominatorForest::findNearestCommonDominator on nodes.
use noelle_public.Dominators.Forest.{
  DominatorForest, DominatorNode, top_level, nearest_from, find_nearest_common_dominator_node,
}
use noelle_public.Dominators.Invariant.{
  IsForest, Dominates, itself, parent_of, Dominates-step, Dominates-root, level-le,
}
use noelle_public.Dominators.Ancestors.{dominators_lem}
use noelle_public.Prelude.{
  ℕ, zero, suc, ◌+◌, ◌<◌, ◌≡◌, refl, ◌↔◌, inl, inr, true, false, Option, none, some, List, has,
  arith, Bool-cases, Option-cases, ◌>>=◌,
}

module _ (f : DominatorForest) (v : IsForest f) where
  -- The answer for a first node n, where the second node is dominated by what a list holds.
  abbrev IsNearest : List ℕ → ℕ → Option ℕ → Type 0
  IsNearest given n none = (d : ℕ) → Dominates f d n → has d given ≡ false
  IsNearest given n (some c) =
      Dominates f c n
      × (has c given ≡ true)
      × ((d : ℕ) → Dominates f d n → has d given ≡ true → Dominates f d c)

  IsNearest-up :
      (given : List ℕ) (n p : ℕ) (x : DominatorNode) (r : Option ℕ)
      → f.heap n ≡ some x
      → x.parent ≡ some p
      → has n given ≡ false
      → IsNearest given p r
      → IsNearest given n r
  IsNearest-up given n p x none at_n up out h = λ d dom.
      elim ((Dominates-step f d n p x at_n up).0 dom) [
        | inl same ↦ rw same out
        | inr dom' ↦ h d dom'
      ]
  IsNearest-up given n p x (some c) at_n up out (dom_p, in_c, h) = (
    parent_of x at_n up dom_p,
    in_c,
    λ d dom in_d. elim ((Dominates-step f d n p x at_n up).0 dom) [
      | inl same ↦ absurd (cc (same, in_d, out))
      | inr dom' ↦ h d dom' in_d
    ],
  )

  nearest_from_lem :
      (given : List ℕ) (fuel n : ℕ) (x : DominatorNode)
      → has n f.nodes ≡ true
      → f.heap n ≡ some x
      → x.level < fuel
      → (r : Option ℕ) × (nearest_from fuel f given (some n) ≡ some r) × IsNearest given n r
  unfolding nearest_from
  nearest_from_lem given zero n x in_n at_n l = absurd (omega arith)
  nearest_from_lem given (suc fuel) n x in_n at_n l = elim (Bool-cases (has n given)) [
    | inl here ↦ (some n, rw here refl, (itself, here, λ d dom in_d. dom))
    | inr out ↦ elim (Option-cases x.parent) [
      | inl root ↦ (
        none,
        rw (out, at_n, ◌>>=◌) (rw root refl),
        λ d dom. rw (Dominates-root f d n x at_n root dom) out,
      )
      | inr (p, up) ↦
          let (in_p, (y, at_p, lower, _)) = v.parent_lists n p x in_n at_n up in
          let (r, run, near) = nearest_from_lem given fuel p y in_p at_p (omega arith) in
          (r, rw (out, at_n, ◌>>=◌) (rw up run), IsNearest-up given n p x r at_n up out near)
    ]
  ]

  -- What findNearestCommonDominator promises of two nodes.
  abbrev pub IsNearestCommon : ℕ → ℕ → Option ℕ → Type 0
  IsNearestCommon n₁ n₂ none = (d : ℕ) → Dominates f d n₁ → Dominates f d n₂ → ⊥
  IsNearestCommon n₁ n₂ (some c) =
      Dominates f c n₁
      × Dominates f c n₂
      × ((d : ℕ) → Dominates f d n₁ → Dominates f d n₂ → Dominates f d c)

  IsNearest-common :
      (given : List ℕ) (n₁ n₂ : ℕ) (r : Option ℕ)
      → ((d : ℕ) → (has d given ≡ true) ↔ Dominates f d n₂)
      → IsNearest given n₁ r
      → IsNearestCommon n₁ n₂ r
  IsNearest-common given n₁ n₂ none law h = λ d dom₁ dom₂. absurd (cc (h d dom₁, (law d).1 dom₂))
  IsNearest-common given n₁ n₂ (some c) law (dom, in_c, h) =
      (dom, (law c).0 in_c, λ d dom₁ dom₂. h d dom₁ ((law d).1 dom₂))

  -- In a forest the search for the nearest common dominator of two nodes ends. It answers a node that
  -- dominates both and is dominated by all others that do, and null only where no node does.
  pub find_nearest_common_dominator_node_lem :
      (n₁ n₂ : ℕ)
      → has n₁ f.nodes ≡ true
      → has n₂ f.nodes ≡ true
      → (r : Option ℕ) × (find_nearest_common_dominator_node f n₁ n₂ ≡ some r)
        × IsNearestCommon n₁ n₂ r
  unfolding find_nearest_common_dominator_node
  find_nearest_common_dominator_node_lem n₁ n₂ in₁ in₂ =
      let (given, run, law) = dominators_lem f v n₂ in₂ in
      let (x, at₁) = v.lives n₁ in₁ in
      let (r, run', near) =
        nearest_from_lem given (top_level f f.nodes + 1) n₁ x in₁ at₁
          (omega (arith, level-le f n₁ x f.nodes in₁ at₁)) in
      (r, rw (run, ◌>>=◌) run', IsNearest-common given n₁ n₂ r law near)
