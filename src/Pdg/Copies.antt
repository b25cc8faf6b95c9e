-- ===== src/Pdg/Copies.antt =====
-- PDG.cpp: what copyEdgesInto does for one edge.
use noelle_public.Dg.Store.{Dg, Edge}
use noelle_public.Dg.Node.{get_src, get_dst}
use noelle_public.Dg.Invariant.{IsValid}
use noelle_public.Dg.Build.{is_internal, is_external, is_in_graph, fetch_or_add_node, copy_add_edge}
use noelle_public.Dg.Joining.{Grows, Grows-trans, Joins}
use noelle_public.Dg.Description.{describe, describe_ends, map-describe_kept, map-describe_joined}
use noelle_public.Dg.Copying.{IsPlain, copy_add_edge_lem}
use noelle_public.Dg.Keeping.{Keeps, keep_lem}
use noelle_public.Pdg.Subgraph.{copy_edge_into, attach_copy}
use noelle_public.Pdg.Chosen.{crosses}
use noelle_public.Prelude.{
  ℕ, ◌≡◌, refl, ◌∙◌, Bool, true, false, not, ◌&&◌, ◌||◌, some, ◌∷◌, map, has, subst, arith, ◌==◌,
  ◌>>=◌,
}

-- The graph g' is g with a copy of edge e of the old graph, which joins values s and t.
pub record CopiesEdge (old g : Dg) (e s t : ℕ) (g' : Dg) : Type 0 where
  pub valid : IsValid g'
  pub grows : Grows g g'
  pub same_internal : g'.internal ≡ g.internal
  pub says : map (describe g') g'.all_edges ≡ describe old e ∷ map (describe g) g.all_edges
  pub externals :
      (u : ℕ)
      → is_external g' u ≡ (is_external g u || (not (is_internal g u) && (s == u || t == u)))

module _ (g g₁ g₂ g₃ : Dg) (s t : ℕ) (make : ℕ → ℕ → Edge) (k₁ : Keeps g s g₁) (k₂ : Keeps g₁ t g₂)
    (j : Joins g₂ s t make g₃) where
  copy-Grows : Grows g g₃
  copy-Grows = Grows-trans g g₂ g₃ (Grows-trans g g₁ g₂ k₁.grows k₂.grows) j.grows

  copy_externals :
      (u : ℕ)
      → is_external g₃ u ≡ (is_external g u || (not (is_internal g u) && (s == u || t == u)))
  unfolding is_external is_internal
  copy_externals u =
      ground
        (arith, k₁.externals u, k₂.externals u, k₁.same_internal, k₂.same_internal, j.same_external)

module _ (carried : ℕ → Bool) (old g : Dg) (link_to_external : Bool) (e s t : ℕ) where
  pub copy_edge_skipped :
      crosses link_to_external (is_internal g s) (is_internal g t) ≡ false
      → copy_edge_into carried old g link_to_external e s t ≡ some g
  unfolding copy_edge_into
  copy_edge_skipped out = ground arith

  pub copy_edge_taken :
      crosses link_to_external (is_internal g s) (is_internal g t) ≡ true
      → copy_edge_into carried old g link_to_external e s t
        ≡ attach_copy carried old g e s t (is_internal g s) (is_internal g t)
  unfolding copy_edge_into
  copy_edge_taken in_part = ground arith

pub is_internal_same :
    (g g' : Dg) (t : ℕ) → g'.internal ≡ g.internal → is_internal g' t ≡ is_internal g t
unfolding is_internal
is_internal_same g g' t same = rw same refl

module _ (carried : ℕ → Bool) (old g : Dg) (e s t : ℕ) where
  abbrev after_src : Dg
  after_src = (fetch_or_add_node g s (is_internal g s)).0

  abbrev after_dst : Dg
  after_dst = (fetch_or_add_node after_src t (is_internal g t)).0

  attached :
      (x : Edge) (g' : Dg) (e' : ℕ)
      → old.edges e ≡ some x
      → copy_add_edge carried after_dst x s t ≡ some (g', e')
      → attach_copy carried old g e s t (is_internal g s) (is_internal g t) ≡ some g'
  unfolding attach_copy
  attached x g' e' at_e run = rw (at_e, ◌>>=◌) (rw (run, ◌>>=◌) refl)

  both_nodes : IsValid g → Keeps g s after_src × Keeps after_src t after_dst
  both_nodes v =
      let k = keep_lem g s v in
      (
        k,
        subst (λ b. Keeps after_src t (fetch_or_add_node after_src t b).0)
            (is_internal_same g after_src t k.same_internal) (keep_lem after_src t k.valid),
      )

  -- In the second graph both values are in the graph.
  first_inside : Keeps g s after_src → Keeps after_src t after_dst → is_in_graph after_dst s ≡ true
  unfolding is_in_graph
  first_inside k₁ k₂ =
      ground
        (arith, k₁.inside, k₂.externals s, is_internal_same after_src after_dst s k₂.same_internal)

  says_more :
      (g' : Dg) (x : Edge) (s' t' : ℕ)
      → describe g' after_dst.next_edge ≡ some (x.kind, x.loop_carried, s, t)
      → describe old e ≡ some (x.kind, x.loop_carried, s', t')
      → s' ≡ s
      → t' ≡ t
      → map (describe after_dst) g.all_edges ≡ map (describe g) g.all_edges
      → after_dst.all_edges ≡ g.all_edges
      → (describe g' after_dst.next_edge ∷ map (describe after_dst) after_dst.all_edges)
        ≡ (describe old e ∷ map (describe g) g.all_edges)
  says_more g' x s' t' new old_says is_s is_t kept same =
      rw (same, kept, new, old_says, is_s, is_t) refl

  -- An edge of the old graph is copied between the nodes of its values.
  pub attach_copy_lem :
      IsValid old
      → IsValid g
      → has e old.all_edges ≡ true
      → ((x : Edge) → old.edges e ≡ some x → IsPlain x)
      → get_src old e ≡ some s
      → get_dst old e ≡ some t
      → (g' : Dg) × (attach_copy carried old g e s t (is_internal g s) (is_internal g t) ≡ some g')
        × CopiesEdge old g e s t g'
  attach_copy_lem old_valid v member plain src dst =
      let (x, s', t', at_e, src', dst', says_old) = describe_ends old e old_valid member in
      let (k₁, k₂) = both_nodes v in
      let (g', run, j, says_new) =
        copy_add_edge_lem carried x (plain x at_e) after_dst s t k₂.valid (first_inside k₁ k₂)
          k₂.inside in
      let grows = Grows-trans g after_src after_dst k₁.grows k₂.grows in
      let same_edges = k₂.same_edges ∙ k₁.same_edges in
      let is_s : s' ≡ s = cc (src, src') in
      let is_t : t' ≡ t = cc (dst, dst') in
      (
        g',
        attached x g' after_dst.next_edge at_e run,
        record {
          valid = j.valid;
          grows = copy-Grows g after_src after_dst g' s t _ k₁ k₂ j;
          same_internal = j.same_internal ∙ (k₂.same_internal ∙ k₁.same_internal);
          says =
              map-describe_joined after_dst g' s t _ k₂.valid j
              ∙ says_more g' x s' t' says_new says_old is_s is_t
                  (map-describe_kept g after_dst g.all_edges v grows (λ d l. l)) same_edges;
          externals = copy_externals g after_src after_dst g' s t _ k₁ k₂ j;
        },
      )
