-- ===== src/Partition/Family.antt =====
-- getDescendants and getAncestors of SCCDAGPartition.cpp on a valid graph.
use noelle_public.Dg.Store.{Dg, Node}
use noelle_public.Dg.Build.{fetch_node}
use noelle_public.Dg.Invariant.{IsValid, starts, ends}
use noelle_public.Dg.Node.{get_src, get_dst}
use noelle_public.Dg.Chain.{Chain}
use noelle_public.Dg.Ends.{src_at, dst_at, ends_of_edge, in_values}
use noelle_public.Partition.Partitioner.{
  sets_at, child_sets, parent_sets, get_descendants, get_ancestors,
}
use noelle_public.Dg.Values.{IsRegistered, values}
use noelle_public.Prelude.{ℕ, ◌≡◌, refl, ◌∙◌, ap, ◌↔◌, true, Option, some, List, has, ◌>>=◌, arith}
use noelle_public.Partition.Chains.{collect_chain}

module _ (g : Dg) (v : IsValid g) where
  child_sets_eq :
      (s p : ℕ) (n : Node) (ss : List ℕ)
      → fetch_node g s ≡ (g, some p)
      → g.nodes p ≡ some n
      → sets_at (get_dst g) n.outgoing ≡ some ss
      → child_sets g s ≡ some (g, ss)
  unfolding child_sets
  child_sets_eq s p n ss fetched at_p run =
      ap
        (λ (r : Dg × Option ℕ). (do
          q ← r.1
          m ← r.0.nodes q
          sets ← sets_at (get_dst r.0) m.outgoing
          some (r.0, sets)))
        fetched
      ∙ rw (at_p, ◌>>=◌) (rw (run, ◌>>=◌) refl)

  parent_sets_eq :
      (s p : ℕ) (n : Node) (ss : List ℕ)
      → fetch_node g s ≡ (g, some p)
      → g.nodes p ≡ some n
      → sets_at (get_src g) n.incoming ≡ some ss
      → parent_sets g s ≡ some (g, ss)
  unfolding parent_sets
  parent_sets_eq s p n ss fetched at_p run =
      ap
        (λ (r : Dg × Option ℕ). (do
          q ← r.1
          m ← r.0.nodes q
          sets ← sets_at (get_src r.0) m.incoming
          some (r.0, sets)))
        fetched
      ∙ rw (at_p, ◌>>=◌) (rw (run, ◌>>=◌) refl)

  -- In a valid graph whose nodes are the ones fetched for their values, getDescendants and
  -- getAncestors of a set of the graph end and leave the graph as it is; they collect exactly the
  -- sets that a walk of at least one edge leads to from the set, or from which one leads to it.
  pub family_lem :
      IsRegistered g
      → (s : ℕ) → has s (values g g.all_nodes) ≡ true
      → ((l : List ℕ) × (get_descendants g s ≡ some (g, l))
          × ((t : ℕ) → (has t l ≡ true) ↔ Chain g (get_src g) (get_dst g) s t))
        × ((l : List ℕ) × (get_ancestors g s ≡ some (g, l))
            × ((t : ℕ) → (has t l ≡ true) ↔ Chain g (get_dst g) (get_src g) s t))
  unfolding get_descendants get_ancestors
  family_lem reg s in_us = (
    collect_chain g reg v (get_src g) (get_dst g) (λ n. n.outgoing) child_sets
        (λ p e n in_p at_p listed.
          let member : has e g.all_edges ≡ true = ground (arith, v.outgoing p e) in
          let from_p : starts (g.edges e) p ≡ true = ground (arith, v.outgoing p e) in
          let (_, _, q, m, _, (in_q, at_q, _, dst)) = ends_of_edge g v e member in
          (
            member,
            src_at g v e p n member from_p at_p,
            (m.the_t, dst, in_values g v q m in_q at_q),
          ))
        (λ e x member src.
          let (p, n, _, _, (in_p, at_p, listed, src'), _) = ends_of_edge g v e member in
          (p, n, in_p, at_p, cc (src, src'), listed))
        child_sets_eq s in_us,
    collect_chain g reg v (get_dst g) (get_src g) (λ n. n.incoming) parent_sets
        (λ p e n in_p at_p listed.
          let member : has e g.all_edges ≡ true = ground (arith, v.incoming p e) in
          let to_p : ends (g.edges e) p ≡ true = ground (arith, v.incoming p e) in
          let (q, m, _, _, (in_q, at_q, _, src), _) = ends_of_edge g v e member in
          (member, dst_at g v e p n member to_p at_p, (m.the_t, src, in_values g v q m in_q at_q)))
        (λ e x member dst.
          let (_, _, p, n, _, (in_p, at_p, listed, dst')) = ends_of_edge g v e member in
          (p, n, in_p, at_p, cc (dst, dst'), listed))
        parent_sets_eq s in_us,
  )
