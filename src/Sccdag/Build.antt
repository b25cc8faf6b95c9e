-- ===== src/Sccdag/Build.antt =====
-- SCCDAG.cpp: the constructor and the iterations. The components that the iterator of LLVM finds from
-- a node are a parameter; `none` is a failed assertion, a dereference of something deleted, or the
-- first node of an empty component.
use noelle_public.BitVector.{BitVector}
use noelle_public.Dg.Store.{Dg, NodeMap, update}
use noelle_public.Dg.Build.{empty, add_node, set_entry_node, is_internal}
use noelle_public.Sccdag.Scc.{new_scc, number_of_instructions, over_values, over_instructions}
use noelle_public.Sccdag.State.{Sccdag}
use noelle_public.Sccdag.Marks.{mark_values_in_scc, mark_edges_and_sub_edges}
use noelle_public.Sccdag.Order.{compute_reachability_among_sccs}
use noelle_public.Prelude.{
  ℕ, ◌+◌, Bool, true, false, ◌||◌, Option, none, some, List, [], ◌∷◌, map, has, insert_all,
  if◌then◌else◌, ◌>>=◌,
}

-- Whether one of the nodes of a component is internal.
unfoldable pub any_internal : Dg → List ℕ → Option Bool
unfolding is_internal
any_internal pdg [] = some false
any_internal pdg (p ∷ ps) = do
  n ← pdg.nodes p
  rest ← any_internal pdg ps
  some (is_internal pdg n.the_t || rest)

-- The values of the nodes that a map leads to.
abbrev pub map_keys : NodeMap → List ℕ
map_keys m = map (λ (x : ℕ × Option ℕ). x.0) m

unfoldable pub node_values_of : Dg → List ℕ → Option (List ℕ)
node_values_of g [] = some []
node_values_of g (p ∷ ps) = do n ← g.nodes p; rest ← node_values_of g ps; some (n.the_t ∷ rest)

-- The graphs that nodes are of while the SCCDAG is built: the PDG alone, as graph 0.
abbrev pub pdg_alone : Dg → ℕ → Option Dg
pdg_alone pdg g = some pdg

module _ (B : BitVector) (carried : ℕ → Bool) where
  -- One component of the PDG.
  unfoldable pub add_component : Dg → List ℕ → Sccdag B × List ℕ → Option (Sccdag B × List ℕ)
  unfolding new_scc any_internal add_node insert_all
  add_component pdg [] state = none
  add_component pdg (first ∷ rest) (d, visited) =
      let nodes = insert_all (first ∷ rest) [] in
      let add = (do
        scc ← new_scc carried (pdg_alone pdg) (map (λ (p : ℕ). (0, p)) nodes)
        internal ← any_internal pdg nodes
        some (
          record d {
            graph = (add_node d.graph d.next_scc internal).0;
            sccs = update d.sccs d.next_scc (some scc);
            next_scc = d.next_scc + 1;
          },
          insert_all nodes visited,
        )) in
      if has first visited then some (d, visited) else add

  unfoldable pub add_components :
      Dg → List (List ℕ) → Sccdag B × List ℕ → Option (Sccdag B × List ℕ)
  unfolding add_component
  add_components pdg [] state = some state
  add_components pdg (c ∷ cs) state = do
    state' ← add_component pdg c state
    add_components pdg cs state'

  -- The loop over the nodes of the PDG, each the entry of the graph for the iterator.
  unfoldable pub visit_pdg :
      (Dg → List (List ℕ)) → Dg → List ℕ → Sccdag B × List ℕ → Option (Sccdag B × List ℕ)
  unfolding add_components set_entry_node
  visit_pdg scc_iterator pdg [] state = some state
  visit_pdg scc_iterator pdg (p ∷ ps) (d, visited) =
      let skip = visit_pdg scc_iterator pdg ps (d, visited) in
      let visit = (do
        let entered = set_entry_node pdg (some p)
        state' ← add_components entered (scc_iterator entered) (d, visited)
        visit_pdg scc_iterator entered ps state') in
      if has p visited then skip else visit

  -- Before the constructor's body runs.
  abbrev pub blank : Sccdag B
  blank = record {
    graph = empty;
    sccs = λ s. none;
    next_scc = 0;
    value_to_node = [];
    ordered = record { n = 0; bv = B.empty };
    ordered_dirty = false;
    scc_indexes = [];
  }

  unfoldable pub new_sccdag : (Dg → List (List ℕ)) → Dg → Option (Sccdag B)
  unfolding visit_pdg mark_values_in_scc mark_edges_and_sub_edges compute_reachability_among_sccs
  new_sccdag scc_iterator pdg = do
    (d, visited) ← visit_pdg scc_iterator pdg pdg.all_nodes (blank, [])
    d₁ ← mark_values_in_scc B d
    d₂ ← mark_edges_and_sub_edges B d₁
    compute_reachability_among_sccs B (record d₂ { ordered_dirty = true })

module _ (B : BitVector) where
  unfoldable pub count_instructions : (ℕ → Option Dg) → NodeMap → ℕ → Option ℕ
  unfolding number_of_instructions
  count_instructions sccs [] n = some n
  count_instructions sccs ((s, r) ∷ m) n = do
    scc ← sccs s
    count_instructions sccs m (n + number_of_instructions scc)

  unfoldable pub sccdag_number_of_instructions : Sccdag B → Option ℕ
  unfolding count_instructions
  sccdag_number_of_instructions d = count_instructions d.sccs d.graph.internal 0

  unfoldable pub get_sccs : Sccdag B → Option (List ℕ)
  unfolding node_values_of
  get_sccs d = do s ← node_values_of d.graph d.graph.all_nodes; some (insert_all s [])

  module _ {S : Type 0} (is_instruction : ℕ → Bool) (call : ℕ → S → S × Bool) where
    unfoldable pub iterate_over_sccs : Sccdag B → S → Option (S × Bool)
    unfolding node_values_of over_values
    iterate_over_sccs d s = do
      sccs ← node_values_of d.graph d.graph.all_nodes
      some (over_values is_instruction call sccs s)

    -- The loop over some SCCs, with a loop inside over some values of each.
    unfoldable pub over_sccs :
        (ℕ → Option Dg) → (Dg → S → Option (S × Bool)) → List ℕ → S → Option (S × Bool)
    over_sccs sccs inside [] s = some (s, false)
    over_sccs sccs inside (c ∷ cs) s = do
      scc ← sccs c
      (s', stop) ← inside scc s
      let rest = over_sccs sccs inside cs s'
      if stop then some (s', true) else rest

    unfoldable pub iterate_over_instructions : Sccdag B → S → Option (S × Bool)
    unfolding over_sccs over_instructions
    iterate_over_instructions d s =
        over_sccs d.sccs
          (λ scc s'. some (over_instructions is_instruction call (map_keys scc.internal) s'))
          (map_keys d.graph.internal) s

    unfoldable pub iterate_over_live_in_and_live_out : Sccdag B → S → Option (S × Bool)
    unfolding over_sccs over_values
    iterate_over_live_in_and_live_out d s =
        over_sccs d.sccs
          (λ scc s'. some (over_values is_instruction call (map_keys scc.internal) s'))
          (map_keys d.graph.external) s

    unfoldable pub iterate_over_all_instructions : Sccdag B → S → Option (S × Bool)
    unfolding over_sccs over_instructions node_values_of
    iterate_over_all_instructions d s = do
      sccs ← node_values_of d.graph d.graph.all_nodes
      over_sccs d.sccs
          (λ scc s'. (do
            ts ← node_values_of scc scc.all_nodes
            some (over_instructions is_instruction call ts s')))
          sccs s

    unfoldable pub iterate_over_all_values : Sccdag B → S → Option (S × Bool)
    unfolding over_sccs over_values node_values_of
    iterate_over_all_values d s = do
      sccs ← node_values_of d.graph d.graph.all_nodes
      over_sccs d.sccs
          (λ scc s'. (do
            ts ← node_values_of scc scc.all_nodes
            some (over_values is_instruction call ts s')))
          sccs s
