-- ===== src/Sccdag/Tests.antt =====
-- The SCCDAG of two SCCs with a dependence between them: SCCDAG.cpp at work.
use noelle_public.BitVector.Sample.{vector}
use noelle_public.Dg.Sample.{row, row-IsValid}
use noelle_public.Sccdag.State.{Sccdag}
use noelle_public.Sccdag.Order.{compute_reachability_among_sccs}
use noelle_public.Sccdag.Before.{Orders, compute_reachability_among_sccs_lem}
use noelle_public.Prelude.{
  ℕ, ◌*◌, ◌^◌, ◌<◌, ◌≡◌, ◌↔◌, ◌⊎◌, refl, sym, ◌∙◌, inl, inr, Bool, true, false, Option, none, some,
  [], ◌∷◌, arith, insert, has, ◌==◌, eq_of_==, Bool-cases, subst, lookup, erase, ◌>>=◌,
}
use noelle_public.Dg.Store.{Dg, Node, update}
use noelle_public.Dg.Build.{is_internal}
use noelle_public.Sccdag.Marks.{
  mark_values_in_scc, scc_of_value, merge_sccs, merge_nodes, pair_nodes, remove_nodes, mark_nodes,
  mark_edges_and_sub_edges, mark_edges_of,
}
use noelle_public.Sccdag.Scc.{new_scc, has_cycle}
use noelle_public.Dg.Remove.{detach, unregister, delete_edges, delete_edge}
use noelle_public.Dg.Node.{remove_connected_node, get_all_edges}
use noelle_public.Sccdag.Order.{ordered_before, get_scc_index}
use noelle_public.Sccdag.Owners.{Lives, Owns, not_owned, mark_values_in_scc_lem}
use noelle_public.Sccdag.Stale.{merge_sccs_lem}
use noelle_public.Dg.Query.{num_nodes}
use noelle_public.Dg.Store.{find, put}
use noelle_public.Dg.Build.{add_undefined_dependence_edge, fetch_or_add_node, empty}

abbrev pair : Sccdag vector
pair = record {
  graph = row;
  sccs = λ s. none;
  next_scc = 30;
  value_to_node = [];
  ordered = record { n = 0; bv = vector.empty };
  ordered_dirty = true;
  scc_indexes = [];
}

pair_size : num_nodes row * num_nodes row < 2 ^ 31
unfolding num_nodes add_undefined_dependence_edge fetch_or_add_node empty find put has insert
pair_size = omega arith

compute_reachability_among_sccs_lem_example :
    (d' : Sccdag vector) × (compute_reachability_among_sccs vector pair ≡ some d')
    × (d'.graph ≡ pair.graph)
    × Orders vector d'
compute_reachability_among_sccs_lem_example =
    compute_reachability_among_sccs_lem vector pair row-IsValid pair_size

-- An SCC of one value.
abbrev single : ℕ → Dg
single v = (fetch_or_add_node empty v true).0

-- The value inside the SCC of a node is the number of the node.
abbrev two_sccs : Sccdag vector
two_sccs = record pair {
  sccs = update (update (λ s. none) 10 (some (single 0))) 20 (some (single 1));
}

single_lem : (p v : ℕ) → (v == p) ≡ false → is_internal (single p) v ≡ false
unfolding is_internal fetch_or_add_node empty find put
single_lem p v other = ground arith

nodes_lem :
    ((n : Node) × (row.nodes 0 ≡ some n) × (two_sccs.sccs n.the_t ≡ some (single 0)))
    × ((n : Node) × (row.nodes 1 ≡ some n) × (two_sccs.sccs n.the_t ≡ some (single 1)))
unfolding add_undefined_dependence_edge fetch_or_add_node empty find put has insert
nodes_lem = ((_, refl, refl), (_, refl, refl))

members : (p : ℕ) → has p row.all_nodes ≡ true → (p ≡ 0) ⊎ (p ≡ 1)
unfolding add_undefined_dependence_edge fetch_or_add_node empty find put has insert
members p e = ground arith

two_sccs_live : (p : ℕ) → has p row.all_nodes ≡ true → Lives row two_sccs.sccs p
two_sccs_live p e =
    let ((n₀, at_0, scc_0), (n₁, at_1, scc_1)) = nodes_lem in
    elim (members p e) [
      | inl zeroth ↦ subst (Lives row two_sccs.sccs) (sym zeroth) (n₀, single 0, at_0, scc_0)
      | inr first ↦ subst (Lives row two_sccs.sccs) (sym first) (n₁, single 1, at_1, scc_1)
    ]

owned : (p v : ℕ) → has p row.all_nodes ≡ true → Owns row two_sccs.sccs p v → v ≡ p
owned p v e o =
    let ((n₀, at_0, scc_0), (n₁, at_1, scc_1)) = nodes_lem in
    elim (Bool-cases (v == p)) [
      | inl same ↦ eq_of_== v p same
      | inr other ↦ elim (members p e) [
        | inl zeroth ↦
            let here = subst (λ q. Owns row two_sccs.sccs q v) zeroth o in
            let outside = single_lem 0 v (subst (λ q. (v == q) ≡ false) zeroth other) in
            absurd (not_owned row two_sccs.sccs 0 v n₀ (single 0) at_0 scc_0 outside here)
        | inr first ↦
            let here = subst (λ q. Owns row two_sccs.sccs q v) first o in
            let outside = single_lem 1 v (subst (λ q. (v == q) ≡ false) first other) in
            absurd (not_owned row two_sccs.sccs 1 v n₁ (single 1) at_1 scc_1 outside here)
      ]
    ]

two_sccs_apart :
    (p q v : ℕ)
    → has p row.all_nodes ≡ true
    → has q row.all_nodes ≡ true
    → Owns row two_sccs.sccs p v
    → Owns row two_sccs.sccs q v
    → p ≡ q
two_sccs_apart p q v in_p in_q o o' = sym (owned p v in_p o) ∙ owned q v in_q o'

mark_values_in_scc_lem_example :
    (d' : Sccdag vector) × (mark_values_in_scc vector two_sccs ≡ some d')
    × (d'.graph ≡ row)
    × ((p v : ℕ)
        → has p row.all_nodes ≡ true
        → (o : Owns row two_sccs.sccs p v) → scc_of_value vector d' v ≡ some (some o.node.the_t))
    × ((v : ℕ)
        → (scc_of_value vector d' v ≡ some none)
          ↔ ((p : ℕ) → has p row.all_nodes ≡ true → Owns row two_sccs.sccs p v → ⊥))
mark_values_in_scc_lem_example = mark_values_in_scc_lem vector two_sccs two_sccs_live two_sccs_apart

-- The merge of the two.
abbrev merged : Sccdag vector
merged = elim (merge_sccs vector (λ e. false) two_sccs (0 ∷ 1 ∷ [])) [
  | none ↦ two_sccs
  | some d ↦ d
]

merged_built : merge_sccs vector (λ e. false) two_sccs (0 ∷ 1 ∷ []) ≡ some merged
unfolding merge_sccs add_undefined_dependence_edge fetch_or_add_node empty find put has insert
    merge_nodes pair_nodes new_scc remove_nodes detach unregister remove_connected_node delete_edges
    get_all_edges delete_edge mark_values_in_scc mark_nodes erase mark_edges_and_sub_edges
    mark_edges_of
merged_built = refl

merge_sccs_lem_example :
    (merged.ordered_dirty ≡ true)
    × (get_scc_index vector merged 30 ≡ none)
    × ((late : ℕ) → ordered_before vector merged 30 late ≡ none)
unfolding lookup
merge_sccs_lem_example =
    merge_sccs_lem vector (λ e. false) two_sccs merged (0 ∷ 1 ∷ []) (omega arith) merged_built refl

-- Values 1 to 4, and an edge from one value to another.
abbrev four : Dg
four =
    (fetch_or_add_node
      (fetch_or_add_node (fetch_or_add_node (fetch_or_add_node empty 1 true).0 2 true).0 3 true).0 4
      true).0

abbrev with_edge : Option Dg → ℕ → ℕ → Option Dg
with_edge g s t = do d ← g; (d', e) ← add_undefined_dependence_edge d s t; some d'

-- No chain leads from a value back to itself, and hasCycle answers true: 4 is met again from 3.
abbrev diamond : Option Bool
diamond = do
  d ← with_edge (with_edge (with_edge (with_edge (some four) 1 2) 1 3) 2 4) 3 4
  has_cycle d false

diamond_lem : diamond ≡ some true
unfolding has_cycle add_undefined_dependence_edge fetch_or_add_node empty find put has insert
diamond_lem = refl
