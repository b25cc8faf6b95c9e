-- ===== src/Sccdag/Marks.antt =====
-- SCCDAG.cpp: the map from values to SCCs, the edges between SCCs, and the merge of SCCs. `none` is a
-- dereference of a null pointer or of something deleted. A sub-edge is an edge of an SCC; its pointer
-- pairs those of the SCC and of the edge.
use noelle_public.BitVector.{BitVector}
use noelle_public.Dg.Store.{Dg, NodeMap, Edge, find, put, update}
use noelle_public.Dg.Node.{src_node, dst_node, in_degree}
use noelle_public.Dg.Edge.{add_sub_edge, remove_sub_edges}
use noelle_public.Dg.Build.{add_node, add_undefined_dependence_edge}
use noelle_public.Dg.Remove.{remove_node}
use noelle_public.Sccdag.Scc.{new_scc}
use noelle_public.Sccdag.State.{Sccdag}
use noelle_public.Prelude.{
  ℕ, ◌+◌, ◌*◌, Bool, true, false, Option, none, some, List, [], ◌∷◌, ◌++◌, length, has, insert,
  ◌==◌, ltb, if◌then◌else◌, ◌>>=◌,
}

unfoldable pub put_values : ℕ → NodeMap → NodeMap → NodeMap
unfolding put
put_values p [] m = m
put_values p ((t, q) ∷ pairs) m = put_values p pairs (put t (some p) m)

unfoldable pub mark_nodes : Dg → (ℕ → Option Dg) → List ℕ → NodeMap → Option NodeMap
mark_nodes g sccs [] m = some m
mark_nodes g sccs (p ∷ ps) m = do
  n ← g.nodes p
  s ← sccs n.the_t
  mark_nodes g sccs ps (put_values p s.internal m)

-- The edges of a list that have node q at the given end.
unfoldable pub edges_with : (ℕ → Option ℕ) → ℕ → List ℕ → Option (List ℕ)
edges_with end q [] = some []
edges_with end q (e ∷ es) = do
  r ← end e
  rest ← edges_with end q es
  some (if r == q then e ∷ rest else rest)

unfoldable pub change_edge : Dg → ℕ → (Edge → Edge) → Option Dg
change_edge g e f = do x ← g.edges e; some (record g { edges = update g.edges e (some (f x)) })

abbrev pub sub_edge_pointer : ℕ → ℕ → ℕ
sub_edge_pointer s e = (s + e) * (s + e) + e

-- The edges of an SCC at one of its nodes, as sub-edges of an edge of the SCCDAG.
unfoldable pub add_all_sub_edges : Dg → ℕ → ℕ → Dg → List ℕ → Option Dg
unfolding change_edge add_sub_edge
add_all_sub_edges g e s scc [] = some g
add_all_sub_edges g e s scc (d ∷ ds) = do
  x ← scc.edges d
  g' ← change_edge g e (λ y. add_sub_edge y (sub_edge_pointer s d, x.loop_carried))
  add_all_sub_edges g' e s scc ds

-- valueToSCCNode[t]: a missing entry is stored as a null pointer.
unfoldable pub node_of_value : ℕ → NodeMap → Option ℕ × NodeMap
unfolding find put
node_of_value t m = elim (find t m) [ none ↦ (none, put t none m) | some r ↦ (r, m) ]

-- One external node, `t` with `r`, of the SCC at node p: the edge to the SCC of its value.
unfoldable pub mark_external :
    ℕ → ℕ → Dg → ℕ → Option ℕ → Dg × NodeMap × List ℕ → Option (Dg × NodeMap × List ℕ)
unfolding in_degree node_of_value edges_with src_node dst_node add_undefined_dependence_edge
    change_edge remove_sub_edges add_all_sub_edges
mark_external p s scc t r (g, m, cleared) = do
  q ← r
  node ← scc.nodes q
  let mark = (do
    let (o, m') = node_of_value t m
    to ← o
    there ← g.nodes to
    here ← g.nodes p
    outgoing ← edges_with (dst_node g) to here.outgoing
    incoming ← edges_with (src_node g) to here.incoming
    (g₁, e) ← elim (outgoing ++ incoming) [
      | [] ↦ add_undefined_dependence_edge g s there.the_t
      | e ∷ es ↦ some (g, e)
    ]
    g₂ ← (if has e cleared then some g₁ else change_edge g₁ e remove_sub_edges)
    g₃ ← add_all_sub_edges g₂ e s scc node.incoming
    some (g₃, m', insert e cleared))
  if in_degree node == 0 then some (g, m, cleared) else mark

unfoldable pub mark_externals :
    ℕ → ℕ → Dg → NodeMap → Dg × NodeMap × List ℕ → Option (Dg × NodeMap × List ℕ)
unfolding mark_external
mark_externals p s scc [] state = some state
mark_externals p s scc ((t, r) ∷ pairs) state = do
  state' ← mark_external p s scc t r state
  mark_externals p s scc pairs state'

unfoldable pub mark_edges_of :
    (ℕ → Option Dg) → List ℕ → Dg × NodeMap × List ℕ → Option (Dg × NodeMap × List ℕ)
unfolding mark_externals
mark_edges_of sccs [] state = some state
mark_edges_of sccs (p ∷ ps) (g, m, cleared) = do
  n ← g.nodes p
  scc ← sccs n.the_t
  state' ← mark_externals p n.the_t scc scc.external (g, m, cleared)
  mark_edges_of sccs ps state'

unfoldable pub remove_nodes : Dg → List ℕ → Option Dg
unfolding remove_node
remove_nodes g [] = some g
remove_nodes g (p ∷ ps) = do g' ← remove_node g p; remove_nodes g' ps

-- The internal nodes of the SCCs at some nodes, each with its SCC.
unfoldable pub pair_nodes : ℕ → NodeMap → Option (List (ℕ × ℕ))
pair_nodes s [] = some []
pair_nodes s ((t, r) ∷ pairs) = do q ← r; rest ← pair_nodes s pairs; some ((s, q) ∷ rest)

unfoldable pub merge_nodes : Dg → (ℕ → Option Dg) → List ℕ → Option (List (ℕ × ℕ))
merge_nodes g sccs [] = some []
merge_nodes g sccs (p ∷ ps) = do
  n ← g.nodes p
  scc ← sccs n.the_t
  here ← pair_nodes n.the_t scc.internal
  rest ← merge_nodes g sccs ps
  some (here ++ rest)

module _ (B : BitVector) where
  unfoldable pub mark_values_in_scc : Sccdag B → Option (Sccdag B)
  mark_values_in_scc d = do
    m ← mark_nodes d.graph d.sccs d.graph.all_nodes []
    some (record d { value_to_node = m })

  unfoldable pub mark_edges_and_sub_edges : Sccdag B → Option (Sccdag B)
  mark_edges_and_sub_edges d = do
    (g, m, cleared) ← mark_edges_of d.sccs d.graph.all_nodes (d.graph, d.value_to_node, [])
    some (record d { graph = g; value_to_node = m })

  -- A null pointer as an answer is `some none`.
  unfoldable pub scc_of_value : Sccdag B → ℕ → Option (Option ℕ)
  scc_of_value d v = elim (find v d.value_to_node) [
    | none ↦ some none
    | some r ↦ do p ← r; n ← d.graph.nodes p; some (some n.the_t)
  ]

  unfoldable pub does_it_contain : Sccdag B → ℕ → Option Bool
  unfolding scc_of_value
  does_it_contain d inst = do
    s ← scc_of_value d inst
    some (elim s [ none ↦ false | some x ↦ true ])

  -- The set is given by the pointers of its nodes.
  unfoldable pub merge_sccs : (ℕ → Bool) → Sccdag B → List ℕ → Option (Sccdag B)
  merge_sccs carried d set =
      let merge = (do
        nodes ← merge_nodes d.graph d.sccs set
        scc ← new_scc carried d.sccs nodes
        let s = d.next_scc
        let g = (add_node d.graph s true).0
        g' ← remove_nodes g set
        d₁ ←
            mark_values_in_scc
              (record d { graph = g'; sccs = update d.sccs s (some scc); next_scc = s + 1 })
        mark_edges_and_sub_edges d₁) in
      if ltb (length set) 2 then some d else merge
