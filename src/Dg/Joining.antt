-- ===== src/Dg/Joining.antt =====
-- DGBase.hpp: each operation that adds an edge between two values of a graph adds exactly one.
use noelle_public.Dg.Store.{
  Dg, Edge, DependenceKind, DataDependenceType, control, variable, may_memory, must_memory,
  undefined,
}
use noelle_public.Dg.Edge.{new_edge}
use noelle_public.Dg.Adding.{fetch_node_lem}
use noelle_public.Dg.Build.{
  connect, add_variable_data_dependence_edge, add_memory_data_dependence_edge,
  add_control_dependence_edge, add_undefined_dependence_edge, is_in_graph,
}
use noelle_public.Dg.Invariant.{IsValid, Holds}
use noelle_public.Dg.Linking.{linked_graph, link_steps, link-IsValid, Holds-link, unused, second}
use noelle_public.Prelude.{
  ℕ, ◌≡◌, refl, ◌∙◌, Bool, true, false, Option, some, has, has-insert, insert, ◌==◌, if◌then◌else◌,
  arith, eq_of_==,
}

-- What remains of a graph in a later one: the nodes that stand for values, and the edges.
pub record Grows (g g' : Dg) : Type 0 where
  pub nodes_kept : (t : ℕ) (o : Option ℕ) → Holds g t o → Holds g' t o
  pub edges_kept : (e : ℕ) → has e g.all_edges ≡ true → g'.edges e ≡ g.edges e
  pub listed : (e : ℕ) → has e g.all_edges ≡ true → has e g'.all_edges ≡ true

pub Grows-refl : (g : Dg) → Grows g g
Grows-refl g = record { nodes_kept = λ t o h. h; edges_kept = λ e l. refl; listed = λ e l. l }

pub Grows-trans : (g h k : Dg) → Grows g h → Grows h k → Grows g k
Grows-trans g h k a b = record {
  nodes_kept = λ t o x. b.nodes_kept t o (a.nodes_kept t o x);
  edges_kept = λ e l. b.edges_kept e (a.listed e l) ∙ a.edges_kept e l;
  listed = λ e l. b.listed e (a.listed e l);
}

-- The graph g' is g with one edge more, made by `make` from nodes for the values a and b.
pub record Joins (g : Dg) (a b : ℕ) (make : ℕ → ℕ → Edge) (g' : Dg) : Type 0 where
  pub valid : IsValid g'
  pub p : ℕ
  pub q : ℕ
  pub holds_a : Holds g' a (some p)
  pub holds_b : Holds g' b (some q)
  pub made : g'.edges g.next_edge ≡ some (make p q)
  pub added : g'.all_edges ≡ insert g.next_edge g.all_edges
  pub fresh : has g.next_edge g.all_edges ≡ false
  pub grows : Grows g g'
  pub same_nodes : g'.all_nodes ≡ g.all_nodes
  pub same_internal : g'.internal ≡ g.internal
  pub same_external : g'.external ≡ g.external

module _ (g : Dg) (v : IsValid g) (a b : ℕ) (in_a : is_in_graph g a ≡ true)
    (in_b : is_in_graph g b ≡ true) where
  pub connect_lem :
      (make : ℕ → ℕ → Edge)
      → ((p q : ℕ) → (make p q).from ≡ p)
      → ((p q : ℕ) → (make p q).to ≡ q)
      → (g' : Dg) × (connect g a b make ≡ some (g', g.next_edge)) × Joins g a b make g'
  unfolding connect
  connect_lem make from_make to_make =
      let (p, fetch_p, (in_p, (n, at_p, is_a))) = fetch_node_lem g a v in_a in
      let (q, fetch_q, (in_q, (m, at_q, is_b))) = fetch_node_lem g b v in_b in
      let (m', at_q') = second g p q n m at_q in
      let x = make p q in
      let f = from_make p q in
      let t = to_make p q in
      let new = unused g p q x n m' v at_p at_q' in_p in_q f t in
      let keeps = Holds-link g p q x n m' v at_p at_q' in_p in_q f t in
      (
        linked_graph g p q x n m',
        rw (fetch_p, fetch_q) (link_steps g p q make n m' at_p at_q'),
        record {
          valid = link-IsValid g p q x n m' v at_p at_q' in_p in_q f t;
          p = p;
          q = q;
          holds_a = keeps a (some p) (in_p, (n, at_p, is_a));
          holds_b = keeps b (some q) (in_q, (m, at_q, is_b));
          made = ground arith;
          added = refl;
          fresh = new;
          grows = record {
            nodes_kept = keeps;
            edges_kept = λ e l. ground (arith, new, eq_of_== g.next_edge e);
            listed = λ e l. ground (arith, has-insert e g.next_edge g.all_edges);
          };
          same_nodes = refl;
          same_internal = refl;
          same_external = refl;
        },
      )

from_new : (k : DependenceKind) (p q : ℕ) → (new_edge k p q).from ≡ p
unfolding new_edge
from_new k p q = refl

to_new : (k : DependenceKind) (p q : ℕ) → (new_edge k p q).to ≡ q
unfolding new_edge
to_new k p q = refl

-- What an operation that adds an edge from value a to value b achieves: no null pointer is met, the
-- graph stays valid, and exactly one edge is new; it has the given kind and joins nodes for a and b.
abbrev pub Adds : Dg → ℕ → ℕ → DependenceKind → Option (Dg × ℕ) → Type 0
Adds g a b k r =
    (g' : Dg) × (p : ℕ) × (q : ℕ) × (r ≡ some (g', g.next_edge))
    × IsValid g'
    × Holds g' a (some p)
    × Holds g' b (some q)
    × (g'.edges g.next_edge ≡ some (new_edge k p q))
    × ((e : ℕ) → has e g'.all_edges ≡ (if e == g.next_edge then true else has e g.all_edges))
    × (has g.next_edge g.all_edges ≡ false)
    × (g'.all_nodes ≡ g.all_nodes)
    × (g'.internal ≡ g.internal)
    × (g'.external ≡ g.external)

module _ (g : Dg) (v : IsValid g) (a b : ℕ) (in_a : is_in_graph g a ≡ true)
    (in_b : is_in_graph g b ≡ true) where
  connect_new : (k : DependenceKind) → Adds g a b k (connect g a b (new_edge k))
  connect_new k =
      let (g', run, j) = connect_lem g v a b in_a in_b (new_edge k) (from_new k) (to_new k) in
      (
        g',
        j.p,
        j.q,
        run,
        j.valid,
        j.holds_a,
        j.holds_b,
        j.made,
        λ e. rw j.added (has-insert e g.next_edge g.all_edges),
        j.fresh,
        j.same_nodes,
        j.same_internal,
        j.same_external,
      )

  -- Between two values of a valid graph each of the four operations adds one edge of its kind.
  pub add_edge_lem :
      (t : DataDependenceType) (is_must : Bool)
      → Adds g a b (variable t) (add_variable_data_dependence_edge g a b t)
        × Adds g a b
            (if is_must then must_memory t else may_memory t)
            (add_memory_data_dependence_edge g a b t is_must)
        × Adds g a b control (add_control_dependence_edge g a b)
        × Adds g a b undefined (add_undefined_dependence_edge g a b)
  unfolding add_variable_data_dependence_edge add_memory_data_dependence_edge
      add_control_dependence_edge add_undefined_dependence_edge
  add_edge_lem t is_must = (connect_new _, connect_new _, connect_new _, connect_new _)
