-- ===== src/Dg/Edge.antt =====
-- src/core/dg/include/arcana/noelle/core/DGEdge.hpp and the tests of its subclasses.
use noelle_public.Dg.Store.{
  Edge, DependenceKind, control, variable, may_memory, must_memory, undefined,
}
use noelle_public.Prelude.{
  ℕ, Bool, true, false, ◌||◌, Option, none, some, List, [], ◌∷◌, length, insert, erase,
}

unfoldable pub new_edge : DependenceKind → ℕ → ℕ → Edge
new_edge k src dst = record {
  kind = k;
  from = src;
  to = dst;
  sub_edges = none;
  loop_carried = false;
}

unfoldable pub get_sub_edges : Edge → List ℕ
get_sub_edges e = elim e.sub_edges [ none ↦ [] | some s ↦ s ]

unfoldable pub get_number_of_sub_edges : Edge → ℕ
get_number_of_sub_edges e = elim e.sub_edges [ none ↦ 0 | some s ↦ length s ]

unfoldable pub set_src_node : Edge → ℕ → Edge
set_src_node e f = record e { from = f }

unfoldable pub set_dst_node : Edge → ℕ → Edge
set_dst_node e t = record e { to = t }

unfoldable pub set_loop_carried : Edge → Bool → Edge
set_loop_carried e lc = record e { loop_carried = lc }

-- The sub-edge is a pointer and the answer of its isLoopCarriedDependence.
unfoldable pub add_sub_edge : Edge → ℕ × Bool → Edge
unfolding get_sub_edges
add_sub_edge e (sub, carried) = record e {
  sub_edges = some (insert sub (get_sub_edges e));
  loop_carried = e.loop_carried || carried;
}

unfoldable pub remove_sub_edges : Edge → Edge
unfolding set_loop_carried
remove_sub_edges e = elim e.sub_edges [
  | none ↦ e
  | some s ↦ set_loop_carried (record e { sub_edges = none }) false
]

-- `none` is the source's abort.
unfoldable pub remove_sub_edge : Edge → ℕ → Option Edge
unfolding remove_sub_edges
remove_sub_edge e sub = elim e.sub_edges [
  | none ↦ none
  | some s ↦
      let rest = erase sub s in
      let e' = record e { sub_edges = some rest } in
      some (elim rest [ [] ↦ remove_sub_edges e' | x ∷ r ↦ e' ])
]

-- The copy constructor: `carried` answers isLoopCarriedDependence of a sub-edge.
unfoldable pub add_sub_edges : (ℕ → Bool) → Edge → List ℕ → Edge
add_sub_edges carried e [] = e
add_sub_edges carried e (s ∷ ss) = add_sub_edges carried (add_sub_edge e (s, carried s)) ss

unfoldable pub copy_edge : (ℕ → Bool) → Edge → Edge
unfolding add_sub_edges set_loop_carried
copy_edge carried e =
    let copy = set_loop_carried (new_edge e.kind e.from e.to) e.loop_carried in
    elim e.sub_edges [ none ↦ copy | some s ↦ add_sub_edges carried copy s ]

unfoldable pub is_control_dependence : Edge → Bool
is_control_dependence e = elim e.kind [ control ↦ true | _ ↦ false ]

unfoldable pub is_variable_dependence : Edge → Bool
is_variable_dependence e = elim e.kind [ variable t ↦ true | _ ↦ false ]

unfoldable pub is_may_memory_dependence : Edge → Bool
is_may_memory_dependence e = elim e.kind [ may_memory t ↦ true | _ ↦ false ]

unfoldable pub is_must_memory_dependence : Edge → Bool
is_must_memory_dependence e = elim e.kind [ must_memory t ↦ true | _ ↦ false ]

unfoldable pub is_memory_dependence : Edge → Bool
is_memory_dependence e = elim e.kind [ may_memory t ↦ true | must_memory t ↦ true | _ ↦ false ]

unfoldable pub is_data_dependence : Edge → Bool
is_data_dependence e = elim e.kind [ control ↦ false | undefined ↦ false | _ ↦ true ]
