-- ===== src/Dg/Query.antt =====
-- DGBase.hpp: counts, fetchEdges, roots, leaves, depths and connected components. `none` is the
-- dereference of a deleted object; the components' loop has one round for each node and one more.
use noelle_public.Dg.Store.{Dg, NodeMap}
use noelle_public.Dg.Node.{src_node, dst_node}
use noelle_public.Dg.Build.{is_external}
use noelle_public.Prelude.{
  ℕ, zero, suc, ◌+◌, Bool, true, false, not, ◌&&◌, ◌||◌, Option, none, some, List, [], ◌∷◌, ◌++◌,
  length, has, insert, if◌then◌else◌, ◌==◌, ◌>>=◌,
}

unfoldable pub num_nodes : Dg → ℕ
num_nodes g = length g.all_nodes

unfoldable pub num_internal_nodes : Dg → ℕ
num_internal_nodes g = length g.internal

unfoldable pub num_external_nodes : Dg → ℕ
num_external_nodes g = length g.external

unfoldable pub num_edges : Dg → ℕ
num_edges g = length g.all_edges

unfoldable pub edges_to : Dg → ℕ → List ℕ → Option (List ℕ)
edges_to g q [] = some []
edges_to g q (e ∷ es) = do
  d ← dst_node g e
  rest ← edges_to g q es
  some (if d == q then insert e rest else rest)

unfoldable pub fetch_edges : Dg → ℕ → ℕ → Option (List ℕ)
unfolding edges_to
fetch_edges g p q = do n ← g.nodes p; edges_to g q n.outgoing

-- `flag &= test(edge)` over the edges of a node.
unfoldable pub all_edges_pass : (ℕ → Option Bool) → List ℕ → Option Bool
all_edges_pass test [] = some true
all_edges_pass test (e ∷ es) = do b ← test e; rest ← all_edges_pass test es; some (b && rest)

-- The nodes of a list that pass a test.
unfoldable pub select : (ℕ → Option Bool) → List ℕ → Option (List ℕ)
select test [] = some []
select test (p ∷ ps) = do
  b ← test p
  rest ← select test ps
  some (if b then insert p rest else rest)

-- edgeToSelf || edgeToExternal
unfoldable pub edge_to_self_or_external : Dg → Bool → ℕ → ℕ → Option Bool
edge_to_self_or_external g only_internal p e = do
  q ← src_node g e
  s ← g.nodes q
  some (q == p || (only_internal && is_external g s.the_t))

unfoldable pub is_top_level : Dg → Bool → ℕ → Option Bool
unfolding all_edges_pass edge_to_self_or_external
is_top_level g only_internal p = do
  n ← g.nodes p
  if only_internal && is_external g n.the_t
      then some false
      else all_edges_pass (edge_to_self_or_external g only_internal p) n.incoming

unfoldable pub get_top_level_nodes : Dg → Bool → Option (List ℕ)
unfolding select is_top_level
get_top_level_nodes g only_internal = select (is_top_level g only_internal) g.all_nodes

unfoldable pub edge_stays : Dg → ℕ → ℕ → Option Bool
edge_stays g p e = do q ← dst_node g e; some (q == p)

unfoldable pub has_no_child : Dg → ℕ → Option Bool
unfolding all_edges_pass edge_stays
has_no_child g p = do n ← g.nodes p; all_edges_pass (edge_stays g p) n.outgoing

-- The nodes that internalNodeMap holds.
unfoldable pub map_values : NodeMap → Option (List ℕ)
map_values [] = some []
map_values ((t, p) ∷ m) = do q ← p; rest ← map_values m; some (q ∷ rest)

unfoldable pub get_leaf_nodes : Dg → Bool → Option (List ℕ)
unfolding select has_no_child map_values
get_leaf_nodes g only_internal =
    if only_internal
    then (do ps ← map_values g.internal; select (has_no_child g) ps)
    else select (has_no_child g) g.all_nodes

-- The set of the nodes at one end of the edges.
unfoldable pub ends_of : (ℕ → Option ℕ) → List ℕ → Option (List ℕ)
ends_of end [] = some []
ends_of end (e ∷ es) = do q ← end e; rest ← ends_of end es; some (insert q rest)

unfoldable pub end_outside : (ℕ → Option ℕ) → List ℕ → ℕ → Option Bool
end_outside end s e = do q ← end e; some (not (has q s))

unfoldable pub get_next_depth_nodes : Dg → ℕ → Option (List ℕ)
unfolding ends_of select all_edges_pass end_outside
get_next_depth_nodes g p = do
  n ← g.nodes p
  incoming ← ends_of (dst_node g) n.outgoing
  select (λ q. (do m ← g.nodes q; all_edges_pass (end_outside (src_node g) incoming) m.incoming))
      incoming

unfoldable pub get_previous_depth_nodes : Dg → ℕ → Option (List ℕ)
unfolding ends_of select all_edges_pass end_outside
get_previous_depth_nodes g p = do
  n ← g.nodes p
  outgoing ← ends_of (src_node g) n.incoming
  select (λ q. (do m ← g.nodes q; all_edges_pass (end_outside (dst_node g) outgoing) m.outgoing))
      outgoing

-- checkToVisitNode for each end: the visited nodes, and the queue.
unfoldable pub check_to_visit : (ℕ → Option ℕ) → List ℕ → List ℕ × List ℕ → Option (List ℕ × List ℕ)
check_to_visit end [] s = some s
check_to_visit end (e ∷ es) (visited, queue) = do
  q ← end e
  check_to_visit end es
      (if has q visited then (visited, queue) else (insert q visited, queue ++ q ∷ []))

-- The inner loop: the component found so far, the visited nodes and the queue.
unfoldable pub component : ℕ → Dg → List ℕ → List ℕ → List ℕ → Option (List ℕ × List ℕ)
component fuel g found visited [] = some (found, visited)
component zero g found visited (p ∷ queue) = none
component (suc fuel) g found visited (p ∷ queue) = do
  n ← g.nodes p
  s₁ ← check_to_visit (dst_node g) n.outgoing (visited, queue)
  (visited', queue') ← check_to_visit (src_node g) n.incoming s₁
  component fuel g (insert p found) visited' queue'

unfoldable pub components : Dg → List ℕ → List ℕ → Option (List (List ℕ))
components g visited [] = some []
components g visited (p ∷ ps) =
    let rest = (do
      (found, visited') ← component (length g.all_nodes + 1) g [] (insert p visited) (p ∷ [])
      others ← components g visited' ps
      some (found ∷ others)) in
    let skip = components g visited ps in if has p visited then skip else rest

unfoldable pub get_disconnected_subgraphs : Dg → Option (List (List ℕ))
unfolding components component check_to_visit
get_disconnected_subgraphs g = components g [] g.all_nodes
