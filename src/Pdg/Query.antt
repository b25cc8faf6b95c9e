-- ===== src/Pdg/Query.antt =====
-- PDG.cpp: the questions about dependences. A callback is a function of the dependence that changes
-- the caller's state; its answer true stops the iteration. `none` is a dereference of something
-- deleted.
use noelle_public.Dg.Store.{Dg, Edge}
use noelle_public.Dg.Node.{get_src, get_dst}
use noelle_public.Dg.Build.{fetch_node}
use noelle_public.Dg.Edge.{is_control_dependence, is_memory_dependence, is_variable_dependence}
use noelle_public.Dg.Query.{num_internal_nodes, num_edges, fetch_edges}
use noelle_public.Prelude.{
  ℕ, Bool, true, false, ◌&&◌, Option, none, some, List, [], ◌∷◌, if◌then◌else◌, ◌>>=◌,
}

unfoldable pub get_number_of_instructions_included : Dg → ℕ
unfolding num_internal_nodes
get_number_of_instructions_included g = num_internal_nodes g

unfoldable pub get_number_of_dependences_between_instructions : Dg → ℕ
unfolding num_edges
get_number_of_dependences_between_instructions g = num_edges g

-- Which dependences are included: control, memory and register.
pub record Kinds : Type 0 where
  pub control : Bool
  pub memory : Bool
  pub register : Bool

module _ {S : Type 0} (call : ℕ → ℕ → S → S × Bool) where
  -- The three tests in a row: the callback runs for the first that holds.
  unfoldable pub visit_dependence : Kinds → ℕ → ℕ → Edge → S → S × Bool
  unfolding is_control_dependence is_memory_dependence is_variable_dependence
  visit_dependence k value e x s =
      if k.control && is_control_dependence x
      then call value e s
      else (if k.memory && is_memory_dependence x
          then call value e s
          else (if k.register && is_variable_dependence x then call value e s else (s, false)))

  -- `end` gives the value at the other end of an edge.
  unfoldable pub visit_dependences : Dg → (ℕ → Option ℕ) → Kinds → List ℕ → S → Option (S × Bool)
  unfolding visit_dependence
  visit_dependences g end k [] s = some (s, false)
  visit_dependences g end k (e ∷ es) s = do
    value ← end e
    x ← g.edges e
    let (s', stop) = visit_dependence k value e x s
    let rest = visit_dependences g end k es s'
    if stop then some (s', true) else rest

  unfoldable pub iterate_over_dependences_from : Dg → ℕ → Kinds → S → Option (Dg × S × Bool)
  unfolding fetch_node get_dst visit_dependences
  iterate_over_dependences_from g from k s = do
    let (g', r) = fetch_node g from
    elim r [
      | none ↦ some (g', s, false)
      | some p ↦ do
        n ← g'.nodes p
        (s', stop) ← visit_dependences g' (get_dst g') k n.outgoing s
        some (g', s', stop)
    ]

  unfoldable pub iterate_over_dependences_to : Dg → ℕ → Kinds → S → Option (Dg × S × Bool)
  unfolding fetch_node get_src visit_dependences
  iterate_over_dependences_to g to k s = do
    let (g', r) = fetch_node g to
    elim r [
      | none ↦ some (g', s, false)
      | some p ↦ do
        n ← g'.nodes p
        (s', stop) ← visit_dependences g' (get_src g') k n.incoming s
        some (g', s', stop)
    ]

unfoldable pub get_dependences : Dg → ℕ → ℕ → Option (Dg × List ℕ)
unfolding fetch_node fetch_edges
get_dependences g from to =
    let (g₁, p) = fetch_node g from in
    let (g₂, q) = fetch_node g₁ to in
    elim p [
      | none ↦ some (g₂, [])
      | some p' ↦ elim q [
        | none ↦ some (g₂, [])
        | some q' ↦ do es ← fetch_edges g₂ p' q'; some (g₂, es)
      ]
    ]
