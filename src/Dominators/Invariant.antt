-- ===== src/Dominators/Invariant.antt =====
-- What makes the nodes of DominatorForest.cpp a forest: parents and children match, and each child
-- stands on a higher level than its parent.
use noelle_public.Dominators.Forest.{DominatorForest, DominatorNode, top_level, level_at}
use noelle_public.Prelude.{
  ℕ, ◌≤◌, ◌<◌, ◌≡◌, refl, ◌↔◌, ◌⊎◌, inl, inr, subst, true, none, some, List, [], ◌∷◌, has, arith,
  eq_of_==,
}

pub record IsForest (f : DominatorForest) : Type 0 where
  pub lives : (n : ℕ) → has n f.nodes ≡ true → (x : DominatorNode) × (f.heap n ≡ some x)
  pub parent_lists :
      (n p : ℕ) (x : DominatorNode)
      → has n f.nodes ≡ true
      → f.heap n ≡ some x
      → x.parent ≡ some p
      → (has p f.nodes ≡ true)
        × ((y : DominatorNode) × (f.heap p ≡ some y)
            × (y.level < x.level)
            × (has n y.children ≡ true))
  pub child_points :
      (n c : ℕ) (x : DominatorNode)
      → has n f.nodes ≡ true
      → f.heap n ≡ some x
      → has c x.children ≡ true
      → (has c f.nodes ≡ true)
        × ((y : DominatorNode) × (f.heap c ≡ some y) × (x.level < y.level) × (y.parent ≡ some n))

-- a is b, or the parent of b is below a.
pub data Dominates (f : DominatorForest) (a : ℕ) : ℕ → Type 0 where
  itself : Dominates f a a
  parent_of :
      {b p : ℕ} (x : DominatorNode)
      → f.heap b ≡ some x
      → x.parent ≡ some p
      → Dominates f a p
      → Dominates f a b

pub Dominates-trans :
    {f : DominatorForest} {a b c : ℕ} → Dominates f a b → Dominates f b c → Dominates f a c
Dominates-trans d itself = d
Dominates-trans d (parent_of x e e' d') = parent_of x e e' (Dominates-trans d d')

pub Dominates-cases :
    {f : DominatorForest} {a b : ℕ}
    → Dominates f a b
    → (a ≡ b)
      ⊎ ((x : DominatorNode) × (p : ℕ) × (f.heap b ≡ some x)
          × (x.parent ≡ some p)
          × Dominates f a p)
Dominates-cases itself = inl refl
Dominates-cases (parent_of {p} x e e' d) = inr (x, p, e, e', d)

-- A node is dominated by itself and by what dominates its parent.
pub Dominates-step :
    (f : DominatorForest) (a b p : ℕ) (x : DominatorNode)
    → f.heap b ≡ some x
    → x.parent ≡ some p
    → Dominates f a b ↔ ((a ≡ b) ⊎ Dominates f a p)
Dominates-step f a b p x at_b up = (
  λ d. elim (Dominates-cases d) [
    | inl same ↦ inl same
    | inr (y, q, at_b', up', d') ↦
        let is_x : y ≡ x = cc (at_b, at_b') in
        let is_p : q ≡ p = cc (is_x, up, up') in inr (subst (λ z. Dominates f a z) is_p d')
  ],
  λ c. elim c [
    | inl same ↦ subst (λ z. Dominates f a z) same itself
    | inr d ↦ parent_of x at_b up d
  ],
)

pub Dominates-root :
    (f : DominatorForest) (a b : ℕ) (x : DominatorNode)
    → f.heap b ≡ some x
    → x.parent ≡ none
    → Dominates f a b
    → a ≡ b
Dominates-root f a b x at_b root d = elim (Dominates-cases d) [
  | inl same ↦ same
  | inr (y, q, at_b', up', d') ↦
      let is_x : y ≡ x = cc (at_b, at_b') in absurd (cc (is_x, up', root))
]

pub level-le :
    (f : DominatorForest) (n : ℕ) (x : DominatorNode) (ns : List ℕ)
    → has n ns ≡ true
    → f.heap n ≡ some x
    → x.level ≤ top_level f ns
unfolding top_level has level_at
level-le f n x [] e at_n = cc
level-le f n x (m ∷ ns) e at_n = ground (arith, level-le f n x ns, eq_of_== n m)
