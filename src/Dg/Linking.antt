-- ===== src/Dg/Linking.antt =====
-- DGBase.hpp: adding an edge between two nodes of a graph succeeds and keeps the graph valid.
use noelle_public.Dg.Store.{Dg, Node, Edge, update}
use noelle_public.Dg.Node.{at_node, add_incoming_edge, add_outgoing_edge}
use noelle_public.Dg.Build.{link}
use noelle_public.Dg.Invariant.{IsValid, Holds, lists_out, lists_in}
use noelle_public.Prelude.{
  ℕ, ◌+◌, ◌≡◌, refl, ◌∙◌, inl, inr, true, false, ◌&&◌, Option, none, some, has, insert, has-insert,
  ◌==◌, if◌then◌else◌, arith, Bool-cases, eq_of_==, ◌>>=◌,
}

pub at_node_lem :
    (g : Dg) (p : ℕ) (n n' : Node) (f : Node → Option Node)
    → g.nodes p ≡ some n
    → f n ≡ some n'
    → at_node g p f ≡ some (record g { nodes = update g.nodes p (some n') })
unfolding at_node
at_node_lem g p n n' f e e' = rw (e, ◌>>=◌) (rw (e', ◌>>=◌))

-- The heap after both ends of edge e are recorded.
pub linked : (ℕ → Option Node) → ℕ → ℕ → ℕ → Node → Node → ℕ → Option Node
linked h p q e n m =
    update (update h p (some (add_outgoing_edge e n))) q (some (add_incoming_edge e m))

module _ (h : ℕ → Option Node) (p q e : ℕ) (n m : Node) (at_p : h p ≡ some n)
    (at_q : update h p (some (add_outgoing_edge e n)) q ≡ some m) where
  lists_out-linked :
      (r d : ℕ)
      → lists_out (linked h p q e n m r) d
        ≡ (if (p == r) && (d == e) then true else lists_out (h r) d)
  unfolding linked add_outgoing_edge add_incoming_edge
  lists_out-linked r d = ground (arith, has-insert d e n.outgoing, eq_of_== p r, eq_of_== q r)

  lists_in-linked :
      (r d : ℕ)
      → lists_in (linked h p q e n m r) d
        ≡ (if (q == r) && (d == e) then true else lists_in (h r) d)
  unfolding linked add_outgoing_edge add_incoming_edge
  lists_in-linked r d = ground (arith, has-insert d e m.incoming, eq_of_== p r, eq_of_== q r)

  pub linked_lives :
      (r : ℕ) (k : Node)
      → h r ≡ some k
      → (k' : Node) × (linked h p q e n m r ≡ some k') × (k'.the_t ≡ k.the_t)
  unfolding linked add_outgoing_edge add_incoming_edge
  linked_lives r k at_r = elim (Bool-cases (q == r)) [
    | inl here ↦ (add_incoming_edge e m, rw here, ground (arith, eq_of_== q r here, eq_of_== p r))
    | inr other ↦ elim (Bool-cases (p == r)) [
      | inl there ↦ (add_outgoing_edge e n, rw (other, there), ground (arith, eq_of_== p r there))
      | inr apart ↦ (k, rw (other, apart) at_r, refl)
    ]
  ]

-- The graph that `link` returns.
abbrev pub linked_graph : Dg → ℕ → ℕ → Edge → Node → Node → Dg
linked_graph g p q x n m = record g {
  next_edge = g.next_edge + 1;
  edges = update g.edges g.next_edge (some x);
  all_edges = insert g.next_edge g.all_edges;
  nodes = linked g.nodes p q g.next_edge n m;
}

pub link_steps :
    (g : Dg) (p q : ℕ) (make : ℕ → ℕ → Edge) (n m : Node)
    → g.nodes p ≡ some n
    → update g.nodes p (some (add_outgoing_edge g.next_edge n)) q ≡ some m
    → link g (some p) (some q) make ≡ some (linked_graph g p q (make p q) n m, g.next_edge)
unfolding link linked at_node
link_steps g p q make n m at_p at_q = rw (at_p, ◌>>=◌) (rw (at_q, ◌>>=◌))

module _ (g : Dg) (p q : ℕ) (x : Edge) (n m : Node) (v : IsValid g) (at_p : g.nodes p ≡ some n)
    (at_q : update g.nodes p (some (add_outgoing_edge g.next_edge n)) q ≡ some m)
    (in_p : has p g.all_nodes ≡ true) (in_q : has q g.all_nodes ≡ true) (from_p : x.from ≡ p)
    (to_q : x.to ≡ q) where
  abbrev after : Dg
  after = linked_graph g p q x n m

  pub unused : has g.next_edge g.all_edges ≡ false
  unused = elim (Bool-cases (has g.next_edge g.all_edges)) [
    | inl old ↦ absurd (omega (arith, v.edge_fresh g.next_edge old))
    | inr new ↦ new
  ]

  pub Holds-link : (t : ℕ) (o : Option ℕ) → Holds g t o → Holds after t o
  Holds-link t none h = h
  Holds-link t (some r) (member, (k, e, at_t)) =
      let (k', e', same) = linked_lives g.nodes p q g.next_edge n m at_p at_q r k e in
      (member, (k', e', same ∙ at_t))

  pub link-IsValid : IsValid after
  link-IsValid = record {
    node_lives = λ r member.
        let (k, e) = v.node_lives r member in
        let (k', e', same) = linked_lives g.nodes p q g.next_edge n m at_p at_q r k e in (k', e');
    edge_lives = λ e member. elim (Bool-cases (g.next_edge == e)) [
      | inl new ↦ (x, rw new)
      | inr old ↦ rw old (v.edge_lives e (ground (arith, has-insert e g.next_edge g.all_edges)))
    ];
    node_fresh = v.node_fresh;
    edge_fresh = λ e member. ground (arith, has-insert e g.next_edge g.all_edges, v.edge_fresh e);
    outgoing = λ r e. ground (
      arith,
      lists_out-linked g.nodes p q g.next_edge n m at_p at_q r e,
      has-insert e g.next_edge g.all_edges,
      v.outgoing r e,
      unused,
      eq_of_== p r,
    );
    incoming = λ r e. ground (
      arith,
      lists_in-linked g.nodes p q g.next_edge n m at_p at_q r e,
      has-insert e g.next_edge g.all_edges,
      v.incoming r e,
      unused,
      eq_of_== q r,
    );
    internal_holds = λ t o e. Holds-link t o (v.internal_holds t o e);
    external_holds = λ t o e. Holds-link t o (v.external_holds t o e);
  }

pub second :
    (g : Dg) (p q : ℕ) (n m : Node)
    → g.nodes q ≡ some m
    → (m' : Node) × (update g.nodes p (some (add_outgoing_edge g.next_edge n)) q ≡ some m')
second g p q n m at_q = elim (Bool-cases (p == q)) [
  | inl same ↦ (add_outgoing_edge g.next_edge n, rw same)
  | inr other ↦ (m, rw other at_q)
]
