-- ===== src/Dg/Invariant.antt =====
-- What keeps a graph of src/core/dg together: the edges that the nodes list are the graph's edges,
-- each at its two ends, and the maps lead to the nodes of their values.
use noelle_public.Dg.Store.{Dg, Node, Edge, find}
use noelle_public.Dg.Build.{empty, clear}
use noelle_public.Prelude.{
  ℕ, ◌<◌, ◌≡◌, refl, Bool, true, false, ◌&&◌, Option, none, some, has, ◌==◌,
}

-- Whether a node of the graph lists an edge as outgoing, or as incoming.
abbrev pub lists_out : Option Node → ℕ → Bool
lists_out none e = false
lists_out (some n) e = has e n.outgoing

abbrev pub lists_in : Option Node → ℕ → Bool
lists_in none e = false
lists_in (some n) e = has e n.incoming

-- Whether an edge starts, or ends, at a node.
abbrev pub starts : Option Edge → ℕ → Bool
starts none p = false
starts (some x) p = x.from == p

abbrev pub ends : Option Edge → ℕ → Bool
ends none p = false
ends (some x) p = x.to == p

-- What an entry of a node map has to be: a node of the graph that stands for the key.
abbrev pub Holds : Dg → ℕ → Option ℕ → Type 0
Holds g t none = ⊥
Holds g t (some p) =
    (has p g.all_nodes ≡ true) × ((n : Node) × (g.nodes p ≡ some n) × (n.the_t ≡ t))

pub record IsValid (g : Dg) : Type 0 where
  pub node_lives : (p : ℕ) → has p g.all_nodes ≡ true → (n : Node) × (g.nodes p ≡ some n)
  pub edge_lives : (e : ℕ) → has e g.all_edges ≡ true → (x : Edge) × (g.edges e ≡ some x)
  pub node_fresh : (p : ℕ) → has p g.all_nodes ≡ true → p < g.next_node
  pub edge_fresh : (e : ℕ) → has e g.all_edges ≡ true → e < g.next_edge
  pub outgoing :
      (p e : ℕ)
      → (has p g.all_nodes && lists_out (g.nodes p) e) ≡ (has e g.all_edges && starts (g.edges e) p)
  pub incoming :
      (p e : ℕ)
      → (has p g.all_nodes && lists_in (g.nodes p) e) ≡ (has e g.all_edges && ends (g.edges e) p)
  pub internal_holds : (t : ℕ) (o : Option ℕ) → find t g.internal ≡ some o → Holds g t o
  pub external_holds : (t : ℕ) (o : Option ℕ) → find t g.external ≡ some o → Holds g t o

pub empty-IsValid : IsValid empty
unfolding empty has find
empty-IsValid = record {
  node_lives = λ p t. cc;
  edge_lives = λ e t. cc;
  node_fresh = λ p t. cc;
  edge_fresh = λ e t. cc;
  outgoing = λ p e. refl;
  incoming = λ p e. refl;
  internal_holds = λ t o e. cc;
  external_holds = λ t o e. cc;
}

pub clear-IsValid : (g : Dg) → IsValid (clear g)
unfolding clear has find
clear-IsValid g = record {
  node_lives = λ p t. cc;
  edge_lives = λ e t. cc;
  node_fresh = λ p t. cc;
  edge_fresh = λ e t. cc;
  outgoing = λ p e. refl;
  incoming = λ p e. refl;
  internal_holds = λ t o e. cc;
  external_holds = λ t o e. cc;
}
