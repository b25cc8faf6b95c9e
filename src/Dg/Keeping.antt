-- ===== src/Dg/Keeping.antt =====
-- DGBase.hpp: fetchOrAddNode of a value as what it is already, before an edge is copied to it.
use noelle_public.Dg.Store.{Dg, find-put}
use noelle_public.Dg.Build.{
  is_in_graph, is_internal, is_external, fetch_or_add_node, fetch_node, add_node,
}
use noelle_public.Dg.Adding.{fetch_or_add_node_lem, fetch_node_lem}
use noelle_public.Dg.Invariant.{IsValid, Holds}
use noelle_public.Dg.Joining.{Grows, Grows-refl}
use noelle_public.Prelude.{
  ℕ, ◌≡◌, refl, sym, ◌∙◌, ap, inl, inr, Bool, true, false, not, ◌&&◌, ◌||◌, Option, some,
  Bool-cases, subst, arith, ◌==◌, eq_of_==, ==_refl,
}

-- The graph g' is g after fetchOrAddNode of s: an internal value as one, any other as external.
pub record Keeps (g : Dg) (s : ℕ) (g' : Dg) : Type 0 where
  pub valid : IsValid g'
  pub grows : Grows g g'
  pub same_internal : g'.internal ≡ g.internal
  pub same_edges : g'.all_edges ≡ g.all_edges
  pub inside : is_in_graph g' s ≡ true
  pub externals :
      (t : ℕ) → is_external g' t ≡ (is_external g t || (not (is_internal g t) && s == t))

module _ (g : Dg) (s : ℕ) (v : IsValid g) where
  externals_present :
      (t : ℕ)
      → is_in_graph g s ≡ true
      → is_external g t ≡ (is_external g t || (not (is_internal g t) && s == t))
  unfolding is_in_graph
  externals_present t present = elim (Bool-cases (s == t)) [
    | inr other ↦ ground arith
    | inl same ↦
        let here = eq_of_== s t same in
        elim (Bool-cases (is_internal g t)) [
          | inl internal ↦ ground arith
          | inr not_internal ↦
              let inside = subst (λ z. is_in_graph g z ≡ true) here present in ground arith
        ]
  ]

  in_place : is_in_graph g s ≡ true → Keeps g s g
  in_place present = record {
    valid = v;
    grows = Grows-refl g;
    same_internal = refl;
    same_edges = refl;
    inside = present;
    externals = λ t. externals_present t present;
  }

  externals_absent :
      (t : ℕ)
      → is_in_graph g s ≡ false
      → is_external (add_node g s false).0 t
        ≡ (is_external g t || (not (is_internal g t) && s == t))
  unfolding add_node is_external is_internal is_in_graph
  externals_absent t absent = elim (Bool-cases (s == t)) [
    | inr other ↦ ground (arith, find-put s t (some g.next_node) g.external)
    | inl same ↦
        let here = eq_of_== s t same in
        let out = subst (λ z. is_in_graph g z ≡ false) here absent in
        ground (arith, find-put s t (some g.next_node) g.external)
  ]

  with_node :
      is_in_graph g s ≡ false
      → IsValid (add_node g s false).0
      → ((t : ℕ) (o : Option ℕ) → Holds g t o → Holds (add_node g s false).0 t o)
      → Keeps g s (add_node g s false).0
  unfolding add_node is_in_graph is_internal
  with_node absent valid holds = record {
    valid = valid;
    grows = record { nodes_kept = holds; edges_kept = λ e l. refl; listed = λ e l. l };
    same_internal = refl;
    same_edges = refl;
    inside = ground (arith, externals_absent s absent, ==_refl s);
    externals = λ t. externals_absent t absent;
  }

  fetched : (b : Bool) → is_in_graph g s ≡ true → fetch_or_add_node g s b ≡ fetch_node g s
  unfolding fetch_or_add_node
  fetched b present = rw present refl

  added : is_in_graph g s ≡ false → (fetch_or_add_node g s false).0 ≡ (add_node g s false).0
  unfolding fetch_or_add_node
  added absent = rw absent refl

  not_internal : is_in_graph g s ≡ false → is_internal g s ≡ false
  unfolding is_in_graph
  not_internal absent = ground arith

  -- In a valid graph fetchOrAddNode of a value, as internal exactly if it is internal, keeps the graph
  -- valid, its internal values and its edges, and makes the value external unless it is in the graph.
  pub keep_lem : Keeps g s (fetch_or_add_node g s (is_internal g s)).0
  keep_lem = elim (Bool-cases (is_in_graph g s)) [
    | inl present ↦
        let (p, e, _) = fetch_node_lem g s v present in
        subst (Keeps g s)
          (sym (ap (λ (r : Dg × Option ℕ). r.0) (fetched (is_internal g s) present ∙ e)))
          (in_place present)
    | inr absent ↦
        let kept = fetch_or_add_node_lem g s false v in
        let same = added absent in
        subst (λ b. Keeps g s (fetch_or_add_node g s b).0) (sym (not_internal absent))
          (subst (Keeps g s) (sym same) (
            with_node absent (subst IsValid same kept.valid)
              (λ t o h. subst (λ z. Holds z t o) same (kept.nodes_kept t o h))))
  ]
