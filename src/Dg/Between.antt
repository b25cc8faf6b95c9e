-- ===== src/Dg/Between.antt =====
-- DGBase.hpp: fetchEdges on a valid graph.
use mathlib.Core.Option
use noelle_public.Dg.Store.{Dg}
use noelle_public.Dg.Node.{dst_node}
use noelle_public.Dg.Query.{edges_to, fetch_edges}
use noelle_public.Dg.Invariant.{IsValid, starts, ends}
use noelle_public.Prelude.{
  ℕ, ◌≡◌, refl, ap, inl, inr, true, ◌&&◌, some, List, [], ◌∷◌, has, has-nil, has-cons, has-insert,
  insert, ◌==◌, ==_refl, if◌then◌else◌, ◌>>=◌, arith, eq_of_==, Bool-cases,
}

module _ (g : Dg) (v : IsValid g) where
  edges_to_lem :
      (q : ℕ) (es : List ℕ)
      → ((e : ℕ) → has e es ≡ true → has e g.all_edges ≡ true)
      → (l : List ℕ) × (edges_to g q es ≡ some l)
        × ((e : ℕ) → has e l ≡ (has e es && ends (g.edges e) q))
  unfolding edges_to dst_node
  edges_to_lem q [] inside = ([], refl, λ e. ground (arith, has-nil e))
  edges_to_lem q (d ∷ es) inside =
      let (x, at_d) = v.edge_lives d (inside d (ground (arith, has-cons d d es, ==_refl d))) in
      let (l, run, law) = edges_to_lem q es (λ e t. inside e (ground (arith, has-cons e d es))) in
      (
        if x.to == q then insert d l else l,
        rw (at_d, Option.map, ◌>>=◌) (rw (run, ◌>>=◌) refl),
        λ e. elim (Bool-cases (e == d)) [
          | inl same ↦
              let at_e : g.edges e ≡ some x = cc (eq_of_== e d same, at_d) in
              let ends_q = ap (λ o. ends o q) at_e in
              ground (arith, has-insert e d l, has-cons e d es, law e, ends_q)
          | inr other ↦ ground (arith, has-insert e d l, has-cons e d es, law e)
        ],
      )

  -- In a valid graph fetchEdges of two nodes dereferences nothing that is gone, and answers exactly
  -- the edges of the graph from the first node to the second.
  pub fetch_edges_lem :
      (p q : ℕ)
      → has p g.all_nodes ≡ true
      → (l : List ℕ) × (fetch_edges g p q ≡ some l)
        × ((e : ℕ) → has e l ≡ (has e g.all_edges && (starts (g.edges e) p && ends (g.edges e) q)))
  unfolding fetch_edges
  fetch_edges_lem p q in_p =
      let (n, at_p) = v.node_lives p in_p in
      let (l, run, law) = edges_to_lem q n.outgoing (λ e t. ground (arith, v.outgoing p e)) in
      (l, rw (at_p, ◌>>=◌) run, λ e. ground (arith, law e, v.outgoing p e))
