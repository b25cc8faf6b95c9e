-- ===== src/Dg/Unlinking.antt =====
-- DGBase.hpp: removeEdge, an edge from a node to itself included.
use mathlib.Core.Option
use noelle_public.Dg.Store.{Dg, Node, Edge, update}
use noelle_public.Dg.Node.{src_node, dst_node, at_node, remove_connected_edge}
use noelle_public.Dg.Remove.{remove_edge}
use noelle_public.Dg.Invariant.{IsValid, Holds, lists_out, lists_in}
use noelle_public.Dg.Linking.{at_node_lem}
use noelle_public.Prelude.{
  ℕ, ◌≡◌, refl, ◌∙◌, inl, inr, true, false, ◌&&◌, Option, none, some, has, erase, has-erase, ◌==◌,
  if◌then◌else◌, arith, Bool-cases, eq_of_==,
}

-- The node without the edge at one side.
without_out : ℕ → Node → Node
without_out e n = record n { outgoing = erase e n.outgoing }

without_in : ℕ → Node → Node
without_in e n = record n { incoming = erase e n.incoming }

unlinked : (ℕ → Option Node) → ℕ → ℕ → ℕ → Node → Node → ℕ → Option Node
unlinked h p q e n m = update (update h p (some (without_out e n))) q (some (without_in e m))

module _ (h : ℕ → Option Node) (p q e : ℕ) (n m : Node) (at_p : h p ≡ some n)
    (at_q : update h p (some (without_out e n)) q ≡ some m) where
  lists_out-unlinked :
      (r d : ℕ)
      → lists_out (unlinked h p q e n m r) d
        ≡ (if (p == r) && (d == e) then false else lists_out (h r) d)
  unfolding unlinked without_out without_in
  lists_out-unlinked r d = ground (arith, has-erase d e n.outgoing, eq_of_== p r, eq_of_== q r)

  lists_in-unlinked :
      (r d : ℕ)
      → lists_in (unlinked h p q e n m r) d
        ≡ (if (q == r) && (d == e) then false else lists_in (h r) d)
  unfolding unlinked without_out without_in
  lists_in-unlinked r d = ground (arith, has-erase d e m.incoming, eq_of_== p r, eq_of_== q r)

  unlinked_lives :
      (r : ℕ) (k : Node)
      → h r ≡ some k
      → (k' : Node) × (unlinked h p q e n m r ≡ some k') × (k'.the_t ≡ k.the_t)
  unfolding unlinked without_out without_in
  unlinked_lives r k at_r = elim (Bool-cases (q == r)) [
    | inl here ↦ (without_in e m, rw here, ground (arith, eq_of_== q r here, eq_of_== p r))
    | inr other ↦ elim (Bool-cases (p == r)) [
      | inl there ↦ (without_out e n, rw (other, there), ground (arith, eq_of_== p r there))
      | inr apart ↦ (k, rw (other, apart) at_r, refl)
    ]
  ]

module _ (g : Dg) (e : ℕ) (x : Edge) (n m : Node) (v : IsValid g) (at_e : g.edges e ≡ some x)
    (member : has e g.all_edges ≡ true) (at_p : g.nodes x.from ≡ some n)
    (at_q : update g.nodes x.from (some (without_out e n)) x.to ≡ some m) where
  abbrev after : Dg
  after = record g {
    nodes = unlinked g.nodes x.from x.to e n m;
    all_edges = erase e g.all_edges;
    edges = update g.edges e none;
  }

  Holds-unlink : (t : ℕ) (o : Option ℕ) → Holds g t o → Holds after t o
  Holds-unlink t none h = h
  Holds-unlink t (some r) (in_r, (k, at_r, at_t)) =
      let (k', at_r', same) = unlinked_lives g.nodes x.from x.to e n m at_p at_q r k at_r in
      (in_r, (k', at_r', same ∙ at_t))

  unlink-IsValid : IsValid after
  unlink-IsValid = record {
    node_lives = λ r in_r.
        let (k, at_r) = v.node_lives r in_r in
        let (k', at_r', _) = unlinked_lives g.nodes x.from x.to e n m at_p at_q r k at_r in
        (k', at_r');
    edge_lives = λ d in_d. elim (Bool-cases (e == d)) [
      | inl gone ↦ absurd (ground (arith, has-erase d e g.all_edges, eq_of_== e d gone))
      | inr kept ↦ rw kept (v.edge_lives d (ground (arith, has-erase d e g.all_edges)))
    ];
    node_fresh = v.node_fresh;
    edge_fresh = λ d in_d. ground (arith, has-erase d e g.all_edges, v.edge_fresh d);
    outgoing = λ r d. ground (
      arith,
      lists_out-unlinked g.nodes x.from x.to e n m at_p at_q r d,
      has-erase d e g.all_edges,
      v.outgoing r d,
      eq_of_== d e,
      eq_of_== x.from r,
    );
    incoming = λ r d. ground (
      arith,
      lists_in-unlinked g.nodes x.from x.to e n m at_p at_q r d,
      has-erase d e g.all_edges,
      v.incoming r d,
      eq_of_== d e,
      eq_of_== x.to r,
    );
    internal_holds = λ t o f. Holds-unlink t o (v.internal_holds t o f);
    external_holds = λ t o f. Holds-unlink t o (v.external_holds t o f);
  }

second :
    (g : Dg) (p q e : ℕ) (n m : Node)
    → g.nodes q ≡ some m
    → (m' : Node) × (update g.nodes p (some (without_out e n)) q ≡ some m')
second g p q e n m at_q = elim (Bool-cases (p == q)) [
  | inl same ↦ (without_out e n, rw same)
  | inr other ↦ (m, rw other at_q)
]

ends_in :
    (g : Dg) (e : ℕ) (x : Edge)
    → IsValid g
    → g.edges e ≡ some x
    → has e g.all_edges ≡ true
    → (has x.from g.all_nodes ≡ true) × (has x.to g.all_nodes ≡ true)
ends_in g e x v at_e member =
    (ground (arith, v.outgoing x.from e), ground (arith, v.incoming x.to e))

module _ (g : Dg) (e : ℕ) (x : Edge) (n m : Node) (at_e : g.edges e ≡ some x)
    (at_p : g.nodes x.from ≡ some n)
    (at_q : update g.nodes x.from (some (without_out e n)) x.to ≡ some m) where
  not_listed :
      IsValid g
      → has x.to g.all_nodes ≡ true
      → (k : Node) → g.nodes x.to ≡ some k
      → has e m.outgoing ≡ false
  unfolding without_out
  not_listed v in_q k at_k =
      ground (arith, v.outgoing x.to e, has-erase e e n.outgoing, at_q, at_k, at_e)

  first_step :
      has e n.outgoing ≡ true
      → at_node g x.from (λ y. some (remove_connected_edge e y))
        ≡ some (record g { nodes = update g.nodes x.from (some (without_out e n)) })
  first_step listed =
      at_node_lem g x.from n (without_out e n) _ at_p
        (unfold remove_connected_edge without_out in ground arith)

  remove_edge_steps :
      has e n.outgoing ≡ true
      → has e m.outgoing ≡ false
      → remove_edge g e
        ≡ some (record g {
          nodes = unlinked g.nodes x.from x.to e n m;
          all_edges = erase e g.all_edges;
          edges = update g.edges e none;
        })
  unfolding remove_edge src_node dst_node unlinked
  remove_edge_steps listed unlisted =
      let second_step =
        at_node_lem (record g { nodes = update g.nodes x.from (some (without_out e n)) }) x.to m
          (without_in e m) (λ y. some (remove_connected_edge e y)) at_q
          (unfold remove_connected_edge without_in in ground arith) in
      rw (at_e, Option.map) (rw (first_step listed) (rw (at_e, Option.map) (rw second_step)))

-- removeEdge on an edge of a valid graph dereferences nothing that is gone, takes that edge out of
-- the graph and keeps all others and all nodes, and leaves a valid graph, in which no node lists it.
pub remove_edge_lem :
    (g : Dg) (e : ℕ)
    → IsValid g
    → has e g.all_edges ≡ true
    → (g' : Dg) × (remove_edge g e ≡ some g')
      × IsValid g'
      × ((d : ℕ) → has d g'.all_edges ≡ (if d == e then false else has d g.all_edges))
      × (g'.all_nodes ≡ g.all_nodes)
unfolding remove_edge src_node dst_node
remove_edge_lem g e v member =
    let (x, at_e) = v.edge_lives e member in
    let (in_p, in_q) = ends_in g e x v at_e member in
    let (n, at_p) = v.node_lives x.from in_p in
    let (k, at_k) = v.node_lives x.to in_q in
    let (m, at_q) = second g x.from x.to e n k at_k in
    let listed : has e n.outgoing ≡ true = ground (arith, v.outgoing x.from e) in
    let not_listed' : has e m.outgoing ≡ false =
      not_listed g e x n m at_e at_p at_q v in_q k at_k in
    (
      after g e x n m v at_e member at_p at_q,
      remove_edge_steps g e x n m at_e at_p at_q listed not_listed',
      unlink-IsValid g e x n m v at_e member at_p at_q,
      (λ d. has-erase d e g.all_edges),
      refl,
    )
