-- ===== src/Pdg/Tests.antt =====
-- A program of three values with a register and a control dependence: PDG.cpp at work.
use noelle_public.Dg.Store.{Dg, find, put, raw, variable, DependenceKind, control}
use noelle_public.Dg.Edge.{is_control_dependence, is_variable_dependence}
use noelle_public.Dg.Node.{get_src, get_dst}
use noelle_public.Dg.Sample.{flow, flow-IsValid, flow-IsPlain}
use noelle_public.Pdg.Chosen.{chosen}
use noelle_public.Pdg.Extraction.{IsAnswer, create_subgraph_from_values_lem}
use noelle_public.Dg.Build.{add_variable_data_dependence_edge, add_control_dependence_edge, empty}
use noelle_public.Dg.Description.{describe}
use noelle_public.Pdg.Build.{add_values, pdg_of_values, enter_at}
use noelle_public.Pdg.Subgraph.{
  create_subgraph_from_values, copy_edges_into, copy_edge_into, attach_copy,
}
use noelle_public.Prelude.{
  ℕ, ◌≡◌, refl, Bool, true, false, Option, none, some, List, [], ◌∷◌, map, has, insert,
}

abbrev program : Dg
program = elim (pdg_of_values (10 ∷ 20 ∷ 30 ∷ [])) [
  | none ↦ empty
  | some g ↦ elim (add_variable_data_dependence_edge g 10 20 raw) [
    | none ↦ empty
    | some r ↦ elim (add_control_dependence_edge r.0 20 30) [ none ↦ empty | some s ↦ s.0 ]
  ]
]

descriptions : Option (Option Dg) → List (Option (DependenceKind × Bool × ℕ × ℕ))
descriptions (some (some g)) = map (describe g) g.all_edges
descriptions _ = []

-- Without external nodes only the edge within the values is copied, else both are.
extracted :
    (descriptions (create_subgraph_from_values (λ s. false) program (10 ∷ 20 ∷ []) false [])
      ≡ some (variable raw, false, 10, 20) ∷ [])
    × (descriptions (create_subgraph_from_values (λ s. false) program (10 ∷ 20 ∷ []) true [])
        ≡ some (variable raw, false, 10, 20) ∷ some (control, false, 20, 30) ∷ [])
unfolding descriptions create_subgraph_from_values pdg_of_values enter_at add_values copy_edges_into
    copy_edge_into attach_copy describe get_src get_dst is_control_dependence is_variable_dependence
    add_variable_data_dependence_edge add_control_dependence_edge empty find put has insert
extracted = (refl, refl)

create_subgraph_from_values_lem_example :
    (r : Option Dg) × (create_subgraph_from_values (λ s. false) flow (10 ∷ []) true [] ≡ some r)
    × IsAnswer flow (10 ∷ []) (chosen (λ t. has t (10 ∷ [])) flow true [] flow.all_edges) r
create_subgraph_from_values_lem_example =
    create_subgraph_from_values_lem (λ s. false) flow flow-IsValid flow-IsPlain true [] (10 ∷ [])
