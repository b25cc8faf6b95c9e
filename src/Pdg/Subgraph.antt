-- ===== src/Pdg/Subgraph.antt =====
-- PDG.cpp: the copies of parts of a graph. `none` is a failed assertion or cast, or a dereference of
-- something deleted; `carried` answers isLoopCarriedDependence of the sub-edges.
use noelle_public.Dg.Store.{Dg}
use noelle_public.Dg.Node.{get_src, get_dst}
use noelle_public.Dg.Build.{is_internal, fetch_or_add_node, copy_add_edge}
use noelle_public.Pdg.Build.{Function, pdg_of_function, pdg_of_loop, pdg_of_values}
use noelle_public.Prelude.{
  ℕ, Bool, true, not, ◌&&◌, ◌||◌, Option, none, some, List, [], ◌∷◌, ◌++◌, has, if◌then◌else◌, map,
  ◌>>=◌,
}

-- The nodes for both values, the missing ones external, and the copy of the edge between them.
unfoldable pub attach_copy : (ℕ → Bool) → Dg → Dg → ℕ → ℕ → ℕ → Bool → Bool → Option Dg
unfolding fetch_or_add_node copy_add_edge
attach_copy carried old g e src dst from_inclusion to_inclusion = do
  let g₁ = (fetch_or_add_node g src from_inclusion).0
  let g₂ = (fetch_or_add_node g₁ dst to_inclusion).0
  x ← old.edges e
  (g₃, e') ← copy_add_edge carried g₂ x src dst
  some g₃

-- One edge of the old graph whose ends have the values `src` and `dst`.
unfoldable pub copy_edge_into : (ℕ → Bool) → Dg → Dg → Bool → ℕ → ℕ → ℕ → Option Dg
copy_edge_into carried old g link_to_external e src dst =
    let from_inclusion = is_internal g src in
    let to_inclusion = is_internal g dst in
    if not from_inclusion && not to_inclusion
    then some g
    else (if not link_to_external && (not from_inclusion || not to_inclusion)
        then some g
        else attach_copy carried old g e src dst from_inclusion to_inclusion)

-- The loop over the edges of the old graph.
unfoldable pub copy_edges_into : (ℕ → Bool) → Dg → Dg → Bool → List ℕ → List ℕ → Option Dg
copy_edges_into carried old g link_to_external ignore [] = some g
copy_edges_into carried old g link_to_external ignore (e ∷ es) =
    let skip = copy_edges_into carried old g link_to_external ignore es in
    let copy = (do
      src ← get_src old e
      dst ← get_dst old e
      g' ← copy_edge_into carried old g link_to_external e src dst
      copy_edges_into carried old g' link_to_external ignore es) in
    if has e ignore then skip else copy

-- A null pointer as a result is `some none`.
unfoldable pub create_subgraph_from_values :
    (ℕ → Bool) → Dg → List ℕ → Bool → List ℕ → Option (Option Dg)
create_subgraph_from_values carried old [] link_to_external ignore = some none
create_subgraph_from_values carried old (v ∷ vs) link_to_external ignore = do
  g ← pdg_of_values (v ∷ vs)
  g' ← copy_edges_into carried old g link_to_external ignore old.all_edges
  some (some g')

-- The assertion that no edge of the new graph is loop carried.
unfoldable pub none_carried : Dg → List ℕ → Option Bool
none_carried g [] = some true
none_carried g (e ∷ es) = do
  x ← g.edges e
  rest ← none_carried g es
  some (not x.loop_carried && rest)

unfoldable pub create_function_subgraph : (ℕ → Bool) → Dg → Function → Option (Option Dg)
unfolding pdg_of_function copy_edges_into none_carried
create_function_subgraph carried old f = elim f.blocks [
  | [] ↦ some none
  | b ∷ bs ↦ do
    g ← pdg_of_function f
    g' ← copy_edges_into carried old g true [] old.all_edges
    clean ← none_carried g' g'.all_edges
    if clean then some (some g') else none
]

unfoldable pub create_loops_subgraph : (ℕ → Bool) → Dg → List (List ℕ) → Option Dg
unfolding pdg_of_loop copy_edges_into
create_loops_subgraph carried old blocks = do
  g ← pdg_of_loop blocks
  copy_edges_into carried old g true [] old.all_edges

unfoldable pub clone : (ℕ → Bool) → Dg → Bool → Option (Option Dg)
clone carried old include_external =
    let internal = map (λ (x : ℕ × Option ℕ). x.0) old.internal in
    let external = map (λ (x : ℕ × Option ℕ). x.0) old.external in
    create_subgraph_from_values carried old
      (if include_external then internal ++ external else internal) include_external []
