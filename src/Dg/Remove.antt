-- ===== src/Dg/Remove.antt =====
-- DGBase.hpp: removeNode, removeEdge and copyNodesIntoNewGraph. `none` is the dereference of a null
-- pointer or of a deleted object.
use noelle_public.Dg.Store.{Dg, remove, update}
use noelle_public.Dg.Node.{
  src_node, dst_node, get_all_edges, remove_connected_edge, remove_connected_node, at_node,
}
use noelle_public.Dg.Build.{is_internal, is_in_graph, add_node, set_entry_node, copy_add_edge}
use noelle_public.Prelude.{
  ℕ, Bool, Option, none, some, List, [], ◌∷◌, erase, if◌then◌else◌, ◌==◌, ◌>>=◌,
}

-- edge->getSrcNode()->removeConnectedNode(node), or the same at the other end.
unfoldable pub detach : (Dg → ℕ → Option ℕ) → ℕ → Dg → List ℕ → Option Dg
detach end p g [] = some g
detach end p g (e ∷ es) = do
  q ← end g e
  g' ← at_node g q (remove_connected_node g p)
  detach end p g' es

-- allEdges.erase(edge); delete edge.
unfoldable pub delete_edge : Dg → ℕ → Dg
delete_edge g e = record g { all_edges = erase e g.all_edges; edges = update g.edges e none }

unfoldable pub delete_edges : Dg → List ℕ → Dg
delete_edges g [] = g
delete_edges g (e ∷ es) = delete_edges (delete_edge g e) es

unfoldable pub unregister : Dg → ℕ → ℕ → Dg
unregister g p t = record g {
  all_nodes = erase p g.all_nodes;
  internal = if is_internal g t then remove t g.internal else g.internal;
  external = if is_internal g t then g.external else remove t g.external;
}

unfoldable pub remove_node : Dg → ℕ → Option Dg
remove_node g p = do
  n ← g.nodes p
  let g₁ = unregister g p n.the_t
  g₂ ← detach src_node p g₁ n.incoming
  g₃ ← detach dst_node p g₂ n.outgoing
  let g₄ = delete_edges g₃ (get_all_edges n)
  some (record g₄ { nodes = update g₄.nodes p none })

unfoldable pub remove_edge : Dg → ℕ → Option Dg
unfolding delete_edge
remove_edge g e = do
  p ← src_node g e
  g₁ ← at_node g p (λ n. some (remove_connected_edge e n))
  q ← dst_node g₁ e
  g₂ ← at_node g₁ q (λ n. some (remove_connected_edge e n))
  some (delete_edge g₂ e)

-- The first loop of copyNodesIntoNewGraph; `entry` is the T of the entry node.
unfoldable pub clone_nodes : Dg → ℕ → Dg → List ℕ → Option Dg
clone_nodes g entry h [] = some h
clone_nodes g entry h (p ∷ ps) = do
  n ← g.nodes p
  let (h', q) = add_node h n.the_t (is_internal g n.the_t)
  clone_nodes g entry (if n.the_t == entry then set_entry_node h' (some q) else h') ps

unfoldable pub clone_edges : (ℕ → Bool) → Dg → Dg → ℕ → List ℕ → Option Dg
clone_edges carried g h src [] = some h
clone_edges carried g h src (e ∷ es) = do
  x ← g.edges e
  n ← g.nodes x.to
  h' ←
      (if is_in_graph h n.the_t
        then (do (h', e') ← copy_add_edge carried h x src n.the_t; some h')
        else some h)
  clone_edges carried g h' src es

unfoldable pub clone_outgoing : (ℕ → Bool) → Dg → Dg → List ℕ → Option Dg
clone_outgoing carried g h [] = some h
clone_outgoing carried g h (p ∷ ps) = do
  n ← g.nodes p
  h' ← clone_edges carried g h n.the_t n.outgoing
  clone_outgoing carried g h' ps

unfoldable pub copy_nodes_into_new_graph : (ℕ → Bool) → Dg → Dg → List ℕ → ℕ → Option Dg
copy_nodes_into_new_graph carried g h partition entry = do
  h₁ ← clone_nodes g entry h partition
  clone_outgoing carried g h₁ partition
