-- ===== src/Dg/Sample.antt =====
-- A valid graph of src/core/dg with two nodes and an edge from the value 10 to the value 20.
use noelle_public.Dg.Store.{Dg, Node, Edge, variable, find, put, raw}
use noelle_public.Dg.Build.{
  empty, fetch_or_add_node, fetch_node, is_in_graph, is_internal, add_variable_data_dependence_edge,
  add_undefined_dependence_edge,
}
use noelle_public.Dg.Invariant.{IsValid, empty-IsValid}
use noelle_public.Dg.Adding.{fetch_or_add_node_lem}
use noelle_public.Dg.Joining.{add_edge_lem}
use noelle_public.Dg.Edge.{new_edge}
use noelle_public.Dg.Copying.{IsPlain}
use noelle_public.Dg.Values.{IsRegistered, value_at, values}
use noelle_public.Prelude.{
  ℕ, ◌≡◌, refl, sym, ap, ◌∙◌, inl, inr, true, none, some, [], ◌∷◌, has, has-cons, has-nil, insert,
  ◌==◌, eq_of_==, Bool-cases, subst, arith,
}

abbrev pub sets : Dg
sets = (fetch_or_add_node (fetch_or_add_node empty 10 true).0 20 true).0

pub sets-IsValid : IsValid sets
sets-IsValid =
    (fetch_or_add_node_lem (fetch_or_add_node empty 10 true).0 20 true
      (fetch_or_add_node_lem empty 10 true empty-IsValid).valid).valid

both_in : (is_in_graph sets 10 ≡ true) × (is_in_graph sets 20 ≡ true)
unfolding fetch_or_add_node empty find put
both_in = (refl, refl)

abbrev pub row : Dg
row = elim (add_undefined_dependence_edge sets 10 20) [ none ↦ sets | some r ↦ r.0 ]

pub row_built : add_undefined_dependence_edge sets 10 20 ≡ some (row, sets.next_edge)
unfolding add_undefined_dependence_edge fetch_or_add_node empty find put
row_built = refl

pub row-IsValid : IsValid row
row-IsValid =
    let added = (add_edge_lem sets sets-IsValid 10 20 both_in.0 both_in.1 raw true).3 in
    let same : added.0 ≡ row = cc (added.3, row_built) in subst IsValid same added.4

pub row_facts :
    (row.all_nodes ≡ 1 ∷ 0 ∷ [])
    × (value_at (row.nodes 0) ≡ 10)
    × (value_at (row.nodes 1) ≡ 20)
    × (fetch_node row 10 ≡ (row, some 0))
    × (fetch_node row 20 ≡ (row, some 1))
unfolding add_undefined_dependence_edge fetch_or_add_node empty find put has insert
row_facts = (refl, refl, refl, refl, refl)

pub row-IsRegistered : IsRegistered row
row-IsRegistered p n in_p at_p =
    let listed = subst (λ ps. has p ps ≡ true) row_facts.0 in_p in
    elim (Bool-cases (p == 0)) [
      | inl zeroth ↦
          let at_0 = subst (λ k. row.nodes k ≡ some n) (eq_of_== p 0 zeroth) at_p in
          let is_10 : 10 ≡ n.the_t = sym row_facts.1 ∙ ap value_at at_0 in
          subst (λ k. fetch_node row n.the_t ≡ (row, some k)) (sym (eq_of_== p 0 zeroth))
            (subst (λ t. fetch_node row t ≡ (row, some 0)) is_10 row_facts.3)
      | inr other ↦
          let last =
            eq_of_== p 1 (ground (arith, has-cons p 1 (0 ∷ []), has-cons p 0 [], has-nil p)) in
          let at_1 = subst (λ k. row.nodes k ≡ some n) last at_p in
          let is_20 : 20 ≡ n.the_t = sym row_facts.2 ∙ ap value_at at_1 in
          subst (λ k. fetch_node row n.the_t ≡ (row, some k)) (sym last)
            (subst (λ t. fetch_node row t ≡ (row, some 1)) is_20 row_facts.4)
    ]

pub row_value : has 10 (values row row.all_nodes) ≡ true
unfolding values add_undefined_dependence_edge fetch_or_add_node empty find put has insert
row_value = refl

-- The same values with a register dependence.
abbrev pub flow : Dg
flow = elim (add_variable_data_dependence_edge sets 10 20 raw) [ none ↦ sets | some r ↦ r.0 ]

flow_built : add_variable_data_dependence_edge sets 10 20 raw ≡ some (flow, sets.next_edge)
unfolding add_variable_data_dependence_edge fetch_or_add_node empty find put
flow_built = refl

pub flow-IsValid : IsValid flow
flow-IsValid =
    let added = (add_edge_lem sets sets-IsValid 10 20 both_in.0 both_in.1 raw true).0 in
    let same : added.0 ≡ flow = cc (added.3, flow_built) in subst IsValid same added.4

flow_facts :
    (flow.all_edges ≡ 0 ∷ [])
    × (flow.edges 0 ≡ some (new_edge (variable raw) 0 1))
    × (flow.all_nodes ≡ 1 ∷ 0 ∷ [])
    × (value_at (flow.nodes 0) ≡ 10)
    × (value_at (flow.nodes 1) ≡ 20)
    × (is_internal flow 10 ≡ true)
    × (is_internal flow 20 ≡ true)
unfolding add_variable_data_dependence_edge fetch_or_add_node empty find put has insert new_edge
    is_internal
flow_facts = (refl, refl, refl, refl, refl, refl, refl)

pub flow-IsPlain :
    (e : ℕ) (x : Edge) → has e flow.all_edges ≡ true → flow.edges e ≡ some x → IsPlain x
unfolding new_edge
flow-IsPlain e x member at_e =
    let listed = subst (λ es. has e es ≡ true) flow_facts.0 member in
    let zeroth : e ≡ 0 = eq_of_== e 0 (ground (arith, has-cons e 0 [], has-nil e)) in
    let same : new_edge (variable raw) 0 1 ≡ x =
      cc (flow_facts.1, subst (λ k. flow.edges k ≡ some x) zeroth at_e) in
    subst IsPlain same (record { defined = λ h. cc; no_sub_edges = refl })

pub flow_internal :
    (p : ℕ) (n : Node)
    → has p flow.all_nodes ≡ true
    → flow.nodes p ≡ some n
    → is_internal flow n.the_t ≡ true
flow_internal p n in_p at_p =
    let listed = subst (λ ps. has p ps ≡ true) flow_facts.2 in_p in
    elim (Bool-cases (p == 0)) [
      | inl zeroth ↦
          let at_0 = subst (λ k. flow.nodes k ≡ some n) (eq_of_== p 0 zeroth) at_p in
          subst (λ t. is_internal flow t ≡ true) (sym flow_facts.3 ∙ ap value_at at_0) flow_facts.5
      | inr other ↦
          let last =
            eq_of_== p 1 (ground (arith, has-cons p 1 (0 ∷ []), has-cons p 0 [], has-nil p)) in
          let at_1 = subst (λ k. flow.nodes k ≡ some n) last at_p in
          subst (λ t. is_internal flow t ≡ true) (sym flow_facts.4 ∙ ap value_at at_1) flow_facts.6
    ]
