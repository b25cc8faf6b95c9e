-- ===== src/Dg/Tests.antt =====
-- Small graphs: the theorems about src/core/dg at work.
use noelle_public.Dg.Store.{Dg, find, put, raw, variable, control}
use noelle_public.Dg.Build.{
  empty, fetch_node, fetch_or_add_node, is_in_graph, is_internal, is_external,
  add_variable_data_dependence_edge, add_control_dependence_edge,
}
use noelle_public.Dg.Remove.{remove_edge, remove_node}
use noelle_public.Dg.Invariant.{IsValid, empty-IsValid, starts, ends}
use noelle_public.Dg.Adding.{FetchesOrAdds, fetch_or_add_node_lem, fetch_node_absent}
use noelle_public.Dg.Joining.{Adds, add_edge_lem}
use noelle_public.Dg.Unlinking.{remove_edge_lem}
use noelle_public.Dg.Removed.{
  IsApart, remove_node_lem, fetch_or_add_node-IsApart, same_maps-IsApart,
}
use noelle_public.Dg.Query.{fetch_edges}
use noelle_public.Dg.Between.{fetch_edges_lem}
use noelle_public.Prelude.{
  List, ℕ, ◌+◌, ◌≡◌, refl, Bool, true, false, Option, none, some, has, if◌then◌else◌, ◌==◌, ◌>>=◌,
  arith, ◌∙◌, not, ◌&&◌, ◌||◌, List, subst, sym, ap,
}

abbrev one : Dg
one = (fetch_or_add_node empty 10 true).0

abbrev two : Dg
two = (fetch_or_add_node one 20 false).0

one-IsValid : IsValid one
one-IsValid = (fetch_or_add_node_lem empty 10 true empty-IsValid).valid

two-IsValid : IsValid two
two-IsValid = (fetch_or_add_node_lem one 20 false one-IsValid).valid

empty-IsApart : IsApart empty
unfolding empty is_internal is_external find
empty-IsApart t = refl

two-IsApart : IsApart two
two-IsApart =
    fetch_or_add_node-IsApart one 20 false one-IsValid
      (fetch_or_add_node-IsApart empty 10 true empty-IsValid empty-IsApart)

two_values :
    (is_in_graph two 10 ≡ true) × (is_in_graph two 20 ≡ true) × (is_in_graph two 30 ≡ false)
unfolding fetch_or_add_node empty find put
two_values = (refl, refl, refl)

-- A graph with an edge from 20 to itself.
abbrev self_edge : Adds two 20 20 control (add_control_dependence_edge two 20 20)
self_edge = (add_edge_lem two two-IsValid 20 20 two_values.1 two_values.1 raw false).2

abbrev looped : Dg
looped = self_edge.0

looped_member : has two.next_edge looped.all_edges ≡ true
looped_member = self_edge.8 two.next_edge ∙ ground arith

looped-IsApart : IsApart looped
looped-IsApart = same_maps-IsApart two looped self_edge.11 self_edge.12 two-IsApart

fetch_or_add_node_lem_example :
    let (g', r) = fetch_or_add_node one 20 false in FetchesOrAdds one 20 false g' r
fetch_or_add_node_lem_example = fetch_or_add_node_lem one 20 false one-IsValid

add_edge_lem_example :
    Adds two 10 20 (variable raw) (add_variable_data_dependence_edge two 10 20 raw)
add_edge_lem_example = (add_edge_lem two two-IsValid 10 20 two_values.0 two_values.1 raw true).0

remove_edge_lem_example :
    (g' : Dg) × (remove_edge looped two.next_edge ≡ some g')
    × IsValid g'
    × ((d : ℕ)
        → has d g'.all_edges ≡ (if d == two.next_edge then false else has d looped.all_edges))
    × (g'.all_nodes ≡ looped.all_nodes)
remove_edge_lem_example = remove_edge_lem looped two.next_edge self_edge.4 looped_member

fetch_node_absent_example :
    let (g', r) = fetch_node two 30 in
    (r ≡ none)
    × (is_in_graph g' 30 ≡ true)
    × (is_external g' 30 ≡ true)
    × ((fetch_or_add_node g' 30 true).1 ≡ none)
fetch_node_absent_example = fetch_node_absent two 30 true two_values.2

looped_node : has 1 looped.all_nodes ≡ true
unfolding fetch_or_add_node empty find put has noelle_public.Prelude.insert
looped_node = rw self_edge.10 refl

remove_node_lem_example :
    (g' : Dg) × (remove_node looped 1 ≡ some g')
    × IsValid g'
    × ((r : ℕ) → has r g'.all_nodes ≡ (if r == 1 then false else has r looped.all_nodes))
    × ((d : ℕ)
        → has d g'.all_edges
          ≡ (has d looped.all_edges && not (starts (looped.edges d) 1 || ends (looped.edges d) 1)))
remove_node_lem_example = remove_node_lem looped 1 self_edge.4 looped-IsApart looped_node

fetch_edges_lem_example :
    (l : List ℕ) × (fetch_edges looped 1 1 ≡ some l)
    × ((e : ℕ)
        → has e l
          ≡ (has e looped.all_edges && (starts (looped.edges e) 1 && ends (looped.edges e) 1)))
fetch_edges_lem_example = fetch_edges_lem looped self_edge.4 1 1 looped_node
