-- ===== src/Dg/Values.antt =====
-- The values of the nodes of a graph of src/core/dg.
use noelle_public.Dg.Store.{Dg, Node}
use noelle_public.Dg.Build.{fetch_node}
use noelle_public.Prelude.{
  ℕ, ◌≡◌, refl, sym, inl, inr, true, Option, none, some, List, [], ◌∷◌, length, has, has-nil,
  has-cons, ◌==◌, ==_refl, arith, eq_of_==, Bool-cases, subst,
}

-- Every node of the graph is the one that is fetched for its value.
abbrev pub IsRegistered : Dg → Type 0
IsRegistered g =
    (p : ℕ) (n : Node)
    → has p g.all_nodes ≡ true
    → g.nodes p ≡ some n
    → fetch_node g n.the_t ≡ (g, some p)

abbrev pub value_at : Option Node → ℕ
value_at none = 0
value_at (some n) = n.the_t

-- The values of the nodes of a list.
unfoldable pub values : Dg → List ℕ → List ℕ
values g [] = []
values g (p ∷ ps) = value_at (g.nodes p) ∷ values g ps

pub length-values : (g : Dg) (ps : List ℕ) → length (values g ps) ≡ length ps
unfolding values
length-values g [] = refl
length-values g (p ∷ ps) = omega (arith, length-values g ps)

pub values_of :
    (g : Dg) (ps : List ℕ) (p : ℕ)
    → has p ps ≡ true
    → has (value_at (g.nodes p)) (values g ps) ≡ true
unfolding values
values_of g [] p e = absurd (cc (has-nil p, e))
values_of g (q ∷ ps) p e = elim (Bool-cases (p == q)) [
  | inl same ↦
      subst (λ z. has (value_at (g.nodes p)) (value_at (g.nodes z) ∷ values g ps) ≡ true)
        (eq_of_== p q same)
        (ground (
          arith,
          has-cons (value_at (g.nodes p)) (value_at (g.nodes p)) (values g ps),
          ==_refl (value_at (g.nodes p)),
        ))
  | inr other ↦
      let rest = values_of g ps p (ground (arith, has-cons p q ps)) in
      ground (arith, has-cons (value_at (g.nodes p)) (value_at (g.nodes q)) (values g ps))
]

pub of_values :
    (g : Dg) (ps : List ℕ) (s : ℕ)
    → has s (values g ps) ≡ true
    → (p : ℕ) × (has p ps ≡ true) × (value_at (g.nodes p) ≡ s)
unfolding values
of_values g [] s e = absurd (cc (has-nil s, e))
of_values g (q ∷ ps) s e = elim (Bool-cases (s == value_at (g.nodes q))) [
  | inl same ↦ (q, ground (arith, has-cons q q ps, ==_refl q), sym (eq_of_== s _ same))
  | inr other ↦
      let (p, in_ps, at) =
        of_values g ps s (ground (arith, has-cons s (value_at (g.nodes q)) (values g ps))) in
      (p, ground (arith, has-cons p q ps), at)
]
