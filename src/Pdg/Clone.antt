-- ===== src/Pdg/Clone.antt =====
-- PDG.cpp: clone of a graph with its external nodes.
use mathlib.Core.List.{reverse}
use noelle_public.Dg.Store.{Dg, Edge, Node, NodeMap}
use noelle_public.Dg.Invariant.{IsValid}
use noelle_public.Dg.Build.{is_internal, is_external, is_in_graph}
use noelle_public.Dg.Description.{describe}
use noelle_public.Dg.Copying.{IsPlain}
use noelle_public.Prelude.{ℕ, ◌≡◌, Bool, true, false, ◌||◌, Option, some, List, ◌++◌, map, has}

-- Every node of the graph is in one of the maps under its value.
abbrev pub IsMapped : Dg → Type 0
IsMapped g =
    (p : ℕ) (n : Node)
    → has p g.all_nodes ≡ true
    → g.nodes p ≡ some n
    → (is_internal g n.the_t || is_external g n.the_t) ≡ true

-- What a clone of a graph that has values is.
pub record IsClone (old g : Dg) : Type 0 where
  pub valid : IsValid g
  pub all_internal : (t : ℕ) → is_internal g t ≡ is_in_graph old t
  pub none_external : (t : ℕ) → is_external g t ≡ false
  pub same_edges : map (describe g) g.all_edges ≡ reverse (map (describe old) old.all_edges)

abbrev keys : NodeMap → List ℕ
keys m = map (λ (x : ℕ × Option ℕ). x.0) m

module _ (old : Dg) (v : IsValid old) (mapped : IsMapped old) where
  abbrev known : ℕ → Bool
  known t = is_internal old t || is_external old t

module _ (carried : ℕ → Bool) (old : Dg) (v : IsValid old)
    (plain : (e : ℕ) (x : Edge) → has e old.all_edges ≡ true → old.edges e ≡ some x → IsPlain x)
    (mapped : IsMapped old) where
  inside_keys : ℕ → Bool
  inside_keys t = has t (keys old.internal ++ keys old.external)
