-- ===== src/Pdg/Values.antt =====
-- PDG.cpp: the graph made for some values.
use noelle_public.Dg.Store.{Dg, find, find-put}
use noelle_public.Dg.Invariant.{IsValid, empty-IsValid}
use noelle_public.Dg.Adding.{add_node-IsValid}
use noelle_public.Dg.Build.{empty, add_node, is_internal, set_entry_node}
use noelle_public.Pdg.Build.{add_values, enter_at, pdg_of_values}
use noelle_public.Prelude.{
  ℕ, ◌≡◌, refl, ◌∙◌, inl, inr, true, ◌||◌, Option, none, some, List, [], ◌∷◌, has, has-cons,
  has-nil, ==_refl, arith, ◌==◌, Option-cases,
}

-- The graph has exactly the given values, as internal ones, and no edges.
pub record IsBare (values : List ℕ) (g : Dg) : Type 0 where
  pub valid : IsValid g
  pub internals : (t : ℕ) → is_internal g t ≡ has t values
  pub externals : g.external ≡ []
  pub no_edges : g.all_edges ≡ []

add_internal :
    (g : Dg) (s t : ℕ) → is_internal (add_node g s true).0 t ≡ (s == t || is_internal g t)
unfolding add_node is_internal
add_internal g s t = ground (arith, find-put s t (some g.next_node) g.internal)

add_external : (g : Dg) (s : ℕ) → (add_node g s true).0.external ≡ g.external
unfolding add_node
add_external g s = refl

add_edges : (g : Dg) (s : ℕ) → (add_node g s true).0.all_edges ≡ g.all_edges
unfolding add_node
add_edges g s = refl

-- The added values join those that the graph had.
add_values_lem :
    (ts : List ℕ) (g : Dg)
    → IsValid g
    → IsValid (add_values g ts)
      × ((t : ℕ) → is_internal (add_values g ts) t ≡ (has t ts || is_internal g t))
      × ((add_values g ts).external ≡ g.external)
      × ((add_values g ts).all_edges ≡ g.all_edges)
unfolding add_values
add_values_lem [] g v = (v, λ t. ground (arith, has-nil t), refl, refl)
add_values_lem (s ∷ ts) g v =
    let (valid, internals, externals, edges) =
      add_values_lem ts (add_node g s true).0 (add_node-IsValid g s true v) in
    (
      valid,
      λ t. ground (arith, internals t, add_internal g s t, has-cons t s ts),
      externals ∙ add_external g s,
      edges ∙ add_edges g s,
    )

entered-IsValid : (g : Dg) (p : Option ℕ) → IsValid g → IsValid (set_entry_node g p)
unfolding set_entry_node
entered-IsValid g p v = record {
  node_lives = v.node_lives;
  edge_lives = v.edge_lives;
  node_fresh = v.node_fresh;
  edge_fresh = v.edge_fresh;
  outgoing = v.outgoing;
  incoming = v.incoming;
  internal_holds = v.internal_holds;
  external_holds = v.external_holds;
}

-- An internal value has a node at which the graph can be entered.
enter_at_lem :
    (g : Dg) (t : ℕ)
    → IsValid g
    → is_internal g t ≡ true
    → (p : ℕ) × (enter_at g t ≡ some (set_entry_node g (some p)))
unfolding enter_at is_internal
enter_at_lem g t v inside = elim (Option-cases (find t g.internal)) [
  | inl missing ↦ absurd (ground arith)
  | inr (none, at) ↦ absurd (v.internal_holds t none at)
  | inr (some p, at) ↦ (p, rw (at, enter_at) refl)
]

entered_internal :
    (g : Dg) (p : Option ℕ) (t : ℕ) → is_internal (set_entry_node g p) t ≡ is_internal g t
unfolding set_entry_node is_internal
entered_internal g p t = refl

entered_external : (g : Dg) (p : Option ℕ) → (set_entry_node g p).external ≡ g.external
unfolding set_entry_node
entered_external g p = refl

entered_edges : (g : Dg) (p : Option ℕ) → (set_entry_node g p).all_edges ≡ g.all_edges
unfolding set_entry_node
entered_edges g p = refl

none_before : (t : ℕ) (ts : List ℕ) → (has t ts || is_internal empty t) ≡ has t ts
unfolding is_internal empty find
none_before t ts = ground arith

pub pdg_of_values_lem :
    (s : ℕ) (ts : List ℕ) → (g : Dg) × (pdg_of_values (s ∷ ts) ≡ some g) × IsBare (s ∷ ts) g
unfolding pdg_of_values empty
pdg_of_values_lem s ts =
    let (valid, internals, externals, edges) = add_values_lem (s ∷ ts) empty empty-IsValid in
    let g = add_values empty (s ∷ ts) in
    let (p, run) =
      enter_at_lem g s valid (ground (arith, internals s, has-cons s s ts, ==_refl s)) in
    (
      set_entry_node g (some p),
      run,
      record {
        valid = entered-IsValid g (some p) valid;
        internals = λ t. entered_internal g (some p) t ∙ (internals t ∙ none_before t (s ∷ ts));
        externals = entered_external g (some p) ∙ externals;
        no_edges = entered_edges g (some p) ∙ edges;
      },
    )
