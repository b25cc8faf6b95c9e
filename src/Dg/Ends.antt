-- ===== src/Dg/Ends.antt =====
-- The values at the two ends of an edge of a valid graph of src/core/dg.
use noelle_public.Dg.Store.{Dg, Node}
use noelle_public.Dg.Node.{get_src, get_dst}
use noelle_public.Dg.Invariant.{IsValid, starts, ends}
use noelle_public.Dg.Values.{value_at, values, values_of}
use noelle_public.Prelude.{ℕ, ◌≡◌, refl, true, some, has, ==_refl, ◌>>=◌, arith, eq_of_==, subst}

module _ (g : Dg) (v : IsValid g) where
  pub src_at :
      (e p : ℕ) (n : Node)
      → has e g.all_edges ≡ true
      → starts (g.edges e) p ≡ true
      → g.nodes p ≡ some n
      → get_src g e ≡ some n.the_t
  unfolding get_src
  src_at e p n member from_p at_p =
      let (x, at_e) = v.edge_lives e member in
      let same : x.from ≡ p = eq_of_== x.from p (rw at_e at from_p) in
      rw (at_e, ◌>>=◌) (rw (same, at_p, ◌>>=◌) refl)

  pub dst_at :
      (e p : ℕ) (n : Node)
      → has e g.all_edges ≡ true
      → ends (g.edges e) p ≡ true
      → g.nodes p ≡ some n
      → get_dst g e ≡ some n.the_t
  unfolding get_dst
  dst_at e p n member to_p at_p =
      let (x, at_e) = v.edge_lives e member in
      let same : x.to ≡ p = eq_of_== x.to p (rw at_e at to_p) in
      rw (at_e, ◌>>=◌) (rw (same, at_p, ◌>>=◌) refl)

  -- The two ends of an edge of the graph: nodes that list it.
  pub ends_of_edge :
      (e : ℕ)
      → has e g.all_edges ≡ true
      → (p : ℕ) × (n : Node) × (q : ℕ) × (m : Node) × ((has p g.all_nodes ≡ true)
          × (g.nodes p ≡ some n)
          × (has e n.outgoing ≡ true)
          × (get_src g e ≡ some n.the_t))
        × ((has q g.all_nodes ≡ true)
            × (g.nodes q ≡ some m)
            × (has e m.incoming ≡ true)
            × (get_dst g e ≡ some m.the_t))
  ends_of_edge e member =
      let (x, at_e) = v.edge_lives e member in
      let from_p : starts (g.edges e) x.from ≡ true = rw at_e (==_refl x.from) in
      let to_q : ends (g.edges e) x.to ≡ true = rw at_e (==_refl x.to) in
      let in_p : has x.from g.all_nodes ≡ true = ground (arith, v.outgoing x.from e) in
      let in_q : has x.to g.all_nodes ≡ true = ground (arith, v.incoming x.to e) in
      let (n, at_p) = v.node_lives x.from in_p in
      let (m, at_q) = v.node_lives x.to in_q in
      (
        x.from,
        n,
        x.to,
        m,
        (in_p, at_p, ground (arith, v.outgoing x.from e), src_at e x.from n member from_p at_p),
        (in_q, at_q, ground (arith, v.incoming x.to e), dst_at e x.to m member to_q at_q),
      )

  pub in_values :
      (p : ℕ) (n : Node)
      → has p g.all_nodes ≡ true
      → g.nodes p ≡ some n
      → has n.the_t (values g g.all_nodes) ≡ true
  in_values p n in_p at_p =
      subst (λ z. has (value_at z) (values g g.all_nodes) ≡ true) at_p
        (values_of g g.all_nodes p in_p)
