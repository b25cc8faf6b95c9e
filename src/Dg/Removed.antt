-- ===== src/Dg/Removed.antt =====
-- DGBase.hpp: removeNode leaves a valid graph without the node and its edges.
use noelle_public.Dg.Store.{Dg, Node, Edge, find, find-remove, find-put, update}
use noelle_public.Dg.Node.{get_all_edges}
use noelle_public.Dg.Build.{is_internal, is_external, is_in_graph, fetch_or_add_node, add_node}
use noelle_public.Dg.Remove.{unregister, remove_node}
use noelle_public.Dg.Invariant.{IsValid, Holds, starts, ends}
use noelle_public.Dg.Adding.{fetch_node_lem}
use noelle_public.Dg.Removal.{Detached, start, detached, delete_edges_lem}
use noelle_public.Prelude.{
  has-insert_all, ℕ, ◌≡◌, ◌∙◌, ap, inl, inr, Bool, true, false, not, ◌&&◌, ◌||◌, Option, none, some,
  List, has, has-erase, ◌==◌, if◌then◌else◌, arith, Bool-cases, eq_of_==, ◌>>=◌,
}

-- No value stands both for an internal and for an external node.
abbrev pub IsApart : Dg → Type 0
IsApart g = (t : ℕ) → (is_internal g t && is_external g t) ≡ false

has-get_all_edges :
    (n : Node) (d : ℕ) → has d (get_all_edges n) ≡ (has d n.incoming || has d n.outgoing)
unfolding get_all_edges
has-get_all_edges n d = has-insert_all d n.incoming n.outgoing

module _ (g : Dg) (v : IsValid g) (apart : IsApart g) (p : ℕ) (n : Node)
    (in_p : has p g.all_nodes ≡ true) (at_p : g.nodes p ≡ some n) (h : ℕ → Option Node)
    (det : Detached g v p n in_p at_p h) (left : List ℕ) (heap : ℕ → Option Edge)
    (left_law : (d : ℕ) → has d left ≡ (has d g.all_edges && not (has d (get_all_edges n))))
    (heap_law : (d : ℕ) → heap d ≡ (if has d (get_all_edges n) then none else g.edges d)) where
  abbrev after : Dg
  after = record (unregister g p n.the_t) {
    all_edges = left;
    edges = heap;
    nodes = update h p none;
  }

  Holds-after : (t : ℕ) (o : Option ℕ) → (n.the_t == t) ≡ false → Holds g t o → Holds after t o
  unfolding unregister
  Holds-after t none ne holds = holds
  Holds-after t (some r) ne (in_r, (k, at_r, at_t)) =
      let (k', at_r', same) = det.thin.lives r k at_r in
      let away : (p == r) ≡ false = ground arith in
      (ground (arith, has-erase r p g.all_nodes), (k', rw away at_r', same ∙ at_t))

  internal_after :
      (t : ℕ) (o : Option ℕ)
      → find t after.internal ≡ some o
      → ((n.the_t == t) ≡ false) × (find t g.internal ≡ some o)
  unfolding unregister is_internal
  internal_after t o e = ground (arith, find-remove n.the_t t g.internal, eq_of_== n.the_t t)

  external_after :
      (t : ℕ) (o : Option ℕ)
      → find t after.external ≡ some o
      → ((n.the_t == t) ≡ false) × (find t g.external ≡ some o)
  unfolding unregister is_internal is_external
  external_after t o e =
      ground (arith, find-remove n.the_t t g.external, eq_of_== n.the_t t, apart n.the_t)

  listed :
      (d : ℕ)
      → has d g.all_edges ≡ true
      → has d (get_all_edges n) ≡ (starts (g.edges d) p || ends (g.edges d) p)
  listed d t = ground (arith, has-get_all_edges n d, v.outgoing p d, v.incoming p d)

  removed-IsValid : IsValid after
  unfolding unregister
  removed-IsValid = record {
    node_lives = λ r in_r.
        let (k, at_r) = v.node_lives r (ground (arith, has-erase r p g.all_nodes)) in
        let (k', at_r', _) = det.thin.lives r k at_r in
        let away : (p == r) ≡ false = ground (arith, has-erase r p g.all_nodes) in
        (k', rw away at_r');
    edge_lives = λ d in_d.
        let (x, at_d) = v.edge_lives d (ground (arith, left_law d)) in
        (x, ground (arith, heap_law d, left_law d));
    node_fresh = λ r in_r. ground (arith, has-erase r p g.all_nodes, v.node_fresh r);
    edge_fresh = λ d in_d. ground (arith, left_law d, v.edge_fresh d);
    outgoing = λ r d. ground (
      arith,
      has-erase r p g.all_nodes,
      left_law d,
      heap_law d,
      listed d,
      det.outs r d,
      v.outgoing r d,
      eq_of_== r p,
    );
    incoming = λ r d. ground (
      arith,
      has-erase r p g.all_nodes,
      left_law d,
      heap_law d,
      listed d,
      det.ins r d,
      v.incoming r d,
      eq_of_== r p,
    );
    internal_holds = λ t o e.
        let (ne, e') = internal_after t o e in Holds-after t o ne (v.internal_holds t o e');
    external_holds = λ t o e.
        let (ne, e') = external_after t o e in Holds-after t o ne (v.external_holds t o e');
  }

-- removeNode on a node of a valid graph, where no value is both internal and external, dereferences
-- nothing that is gone, takes that node and exactly the edges at it out of the graph, and leaves a valid graph.
pub remove_node_lem :
    (g : Dg) (p : ℕ)
    → IsValid g
    → IsApart g
    → has p g.all_nodes ≡ true
    → (g' : Dg) × (remove_node g p ≡ some g')
      × IsValid g'
      × ((r : ℕ) → has r g'.all_nodes ≡ (if r == p then false else has r g.all_nodes))
      × ((d : ℕ)
          → has d g'.all_edges
            ≡ (has d g.all_edges && not (starts (g.edges d) p || ends (g.edges d) p)))
unfolding remove_node unregister
remove_node_lem g p v apart in_p =
    let (n, at_p) = v.node_lives p in_p in
    let (h₁, h₂, run₁, run₂, det) = detached g v p n in_p at_p in
    let (left, heap, run₃, left_law, heap_law) =
      delete_edges_lem (record (start g v p n in_p at_p) { nodes = h₂ }) (get_all_edges n) in
    (
      after g v apart p n in_p at_p h₂ det left heap left_law heap_law,
      rw (at_p, ◌>>=◌) (rw (run₁, ◌>>=◌) (rw (run₂, ◌>>=◌) (rw run₃))),
      removed-IsValid g v apart p n in_p at_p h₂ det left heap left_law heap_law,
      (λ r. has-erase r p g.all_nodes),
      λ d.
          ground (
            arith,
            left_law d,
            listed g v apart p n in_p at_p h₂ det left heap left_law heap_law d,
          ),
    )

-- fetchOrAddNode never registers a value both as internal and as external.
pub fetch_or_add_node-IsApart :
    (g : Dg) (t : ℕ) (inclusion : Bool)
    → IsValid g
    → IsApart g
    → IsApart (fetch_or_add_node g t inclusion).0
unfolding fetch_or_add_node add_node is_internal is_external is_in_graph
fetch_or_add_node-IsApart g t inclusion v apart k = elim (Bool-cases (is_in_graph g t)) [
  | inl present ↦ (let (p, e, _) = fetch_node_lem g t v present in rw (present, e) (apart k))
  | inr absent ↦ rw absent (
      ground (
        arith,
        apart k,
        absent,
        find-put t k (some g.next_node) g.internal,
        find-put t k (some g.next_node) g.external,
        eq_of_== t k,
      ))
]

pub same_maps-IsApart :
    (g g' : Dg) → g'.internal ≡ g.internal → g'.external ≡ g.external → IsApart g → IsApart g'
unfolding is_internal is_external
same_maps-IsApart g g' e e' apart t = ground (arith, apart t, ap (find t) e, ap (find t) e')
