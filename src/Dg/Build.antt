-- ===== src/Dg/Build.antt =====
-- DGBase.hpp: the constructor, nodes and edges. `none` is a dereference of a null pointer.
use noelle_public.Dg.Store.{
  Dg, Edge, find, put, update, DataDependenceType, control, variable, may_memory, must_memory,
  undefined,
}
use noelle_public.Dg.Edge.{
  new_edge, copy_edge, set_src_node, set_dst_node, is_control_dependence, is_variable_dependence,
  is_may_memory_dependence, is_must_memory_dependence,
}
use noelle_public.Dg.Node.{new_node, add_incoming_edge, add_outgoing_edge, at_node}
use noelle_public.Prelude.{
  ℕ, ◌+◌, Bool, true, false, ◌||◌, Option, none, some, [], insert, if◌then◌else◌, ◌>>=◌,
}

unfoldable pub empty : Dg
empty = record {
  node_id_counter = 0;
  next_node = 0;
  next_edge = 0;
  nodes = λ p. none;
  edges = λ e. none;
  all_nodes = [];
  all_edges = [];
  entry_node = none;
  internal = [];
  external = [];
}

unfoldable pub add_node : Dg → ℕ → Bool → Dg × ℕ
unfolding new_node
add_node g t inclusion = (
  record g {
    node_id_counter = g.node_id_counter + 1;
    next_node = g.next_node + 1;
    nodes = update g.nodes g.next_node (some (new_node g.node_id_counter t));
    all_nodes = insert g.next_node g.all_nodes;
    internal = if inclusion then put t (some g.next_node) g.internal else g.internal;
    external = if inclusion then g.external else put t (some g.next_node) g.external;
  },
  g.next_node,
)

unfoldable pub set_entry_node : Dg → Option ℕ → Dg
set_entry_node g p = record g { entry_node = p }

unfoldable pub is_internal : Dg → ℕ → Bool
is_internal g t = elim (find t g.internal) [ none ↦ false | some p ↦ true ]

unfoldable pub is_external : Dg → ℕ → Bool
is_external g t = elim (find t g.external) [ none ↦ false | some p ↦ true ]

unfoldable pub is_in_graph : Dg → ℕ → Bool
unfolding is_internal is_external
is_in_graph g t = is_internal g t || is_external g t

-- `externalNodeMap[theT]` stores a null pointer where there was no entry.
unfoldable pub fetch_node : Dg → ℕ → Dg × Option ℕ
fetch_node g t = elim (find t g.internal) [
  | some p ↦ (g, p)
  | none ↦ elim (find t g.external) [
    | some p ↦ (g, p)
    | none ↦ (record g { external = put t none g.external }, none)
  ]
]

-- `none` is the dereference of the end iterator.
unfoldable pub fetch_const_node : Dg → ℕ → Option (Option ℕ)
fetch_const_node g t = elim (find t g.internal) [ some p ↦ some p | none ↦ find t g.external ]

unfoldable pub fetch_or_add_node : Dg → ℕ → Bool → Dg × Option ℕ
unfolding fetch_node add_node is_in_graph
fetch_or_add_node g t inclusion =
    if is_in_graph g t
    then fetch_node g t
    else (let (g', p) = add_node g t inclusion in (g', some p))

-- The common end of the functions that add an edge: both nodes are fetched first.
unfoldable pub link : Dg → Option ℕ → Option ℕ → (ℕ → ℕ → Edge) → Option (Dg × ℕ)
unfolding at_node add_incoming_edge add_outgoing_edge
link g from to make = do
  p ← from
  q ← to
  let e = g.next_edge
  let g₁ = record g {
    next_edge = e + 1;
    edges = update g.edges e (some (make p q));
    all_edges = insert e g.all_edges;
  }
  g₂ ← at_node g₁ p (λ n. some (add_outgoing_edge e n))
  g₃ ← at_node g₂ q (λ n. some (add_incoming_edge e n))
  some (g₃, e)

unfoldable pub connect : Dg → ℕ → ℕ → (ℕ → ℕ → Edge) → Option (Dg × ℕ)
unfolding link fetch_node
connect g from to make =
    let (g₁, p) = fetch_node g from in let (g₂, q) = fetch_node g₁ to in link g₂ p q make

unfoldable pub add_variable_data_dependence_edge : Dg → ℕ → ℕ → DataDependenceType → Option (Dg × ℕ)
unfolding connect new_edge
add_variable_data_dependence_edge g from to t = connect g from to (new_edge (variable t))

unfoldable pub add_memory_data_dependence_edge :
    Dg → ℕ → ℕ → DataDependenceType → Bool → Option (Dg × ℕ)
unfolding connect new_edge
add_memory_data_dependence_edge g from to t is_must =
    connect g from to (new_edge (if is_must then must_memory t else may_memory t))

unfoldable pub add_control_dependence_edge : Dg → ℕ → ℕ → Option (Dg × ℕ)
unfolding connect new_edge
add_control_dependence_edge g from to = connect g from to (new_edge control)

unfoldable pub add_undefined_dependence_edge : Dg → ℕ → ℕ → Option (Dg × ℕ)
unfolding connect new_edge
add_undefined_dependence_edge g from to = connect g from to (new_edge undefined)

-- The copy of an edge of another graph whose ends stand for `src` and `dst`. The last cast of the
-- source fails on an undefined dependence; `carried` answers for the sub-edges.
unfoldable pub copy_add_edge : (ℕ → Bool) → Dg → Edge → ℕ → ℕ → Option (Dg × ℕ)
unfolding connect copy_edge set_src_node set_dst_node
copy_add_edge carried g x src dst =
    let copied = connect g src dst (λ p q. set_dst_node (set_src_node (copy_edge carried x) p) q) in
    if is_control_dependence x
      || (is_variable_dependence x || (is_may_memory_dependence x || is_must_memory_dependence x))
    then copied
    else none

unfoldable pub clear : Dg → Dg
clear g = record g {
  all_nodes = [];
  all_edges = [];
  entry_node = none;
  internal = [];
  external = [];
}
