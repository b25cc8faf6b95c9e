-- ===== src/Pdg/Copying.antt =====
-- PDG.cpp: copyEdgesInto over all edges of a graph.
use mathlib.Core.List.{reverse, reverse-cons, append_assoc}
use noelle_public.Dg.Store.{Dg, Edge, DependenceKind}
use noelle_public.Dg.Node.{get_src, get_dst}
use noelle_public.Dg.Invariant.{IsValid}
use noelle_public.Dg.Build.{is_internal, is_external}
use noelle_public.Dg.Joining.{Grows, Grows-refl, Grows-trans}
use noelle_public.Dg.Description.{describe, describe_ends}
use noelle_public.Dg.Copying.{IsPlain}
use noelle_public.Pdg.Subgraph.{copy_edges_into}
use noelle_public.Pdg.Chosen.{crosses, is_chosen, chosen, touches}
use noelle_public.Pdg.Copies.{
  CopiesEdge, copy_edge_skipped, copy_edge_taken, attach_copy_lem, is_internal_same,
}
use noelle_public.Prelude.{
  ℕ, ◌≡◌, refl, sym, ◌∙◌, ap, inl, inr, Bool, true, false, not, ◌&&◌, ◌||◌, Option, some, List, [],
  ◌∷◌, ◌++◌, map, has, has-cons, ==_refl, arith, ◌>>=◌, Bool-cases,
}

-- The graph g' is g with copies of the edges `taken` of the old graph, the last one first.
pub record CopiesEdges (old : Dg) (taken : List ℕ) (g g' : Dg) : Type 0 where
  pub valid : IsValid g'
  pub grows : Grows g g'
  pub same_internal : g'.internal ≡ g.internal
  pub says :
      map (describe g') g'.all_edges
      ≡ reverse (map (describe old) taken) ++ map (describe g) g.all_edges
  pub externals :
      (t : ℕ)
      → is_external g' t ≡ (is_external g t || (not (is_internal g t) && touches old t taken))

copies_none : (old g : Dg) → IsValid g → CopiesEdges old [] g g
unfolding touches
copies_none old g v = record {
  valid = v;
  grows = Grows-refl g;
  same_internal = refl;
  says = refl;
  externals = λ t. ground arith;
}

copies_more :
    (old g h k : Dg) (e s t : ℕ) (taken : List ℕ)
    → get_src old e ≡ some s
    → get_dst old e ≡ some t
    → CopiesEdge old g e s t h
    → CopiesEdges old taken h k
    → CopiesEdges old (e ∷ taken) g k
unfolding touches is_internal
copies_more old g h k e s t taken src dst one rest = record {
  valid = rest.valid;
  grows = Grows-trans g h k one.grows rest.grows;
  same_internal = rest.same_internal ∙ one.same_internal;
  says =
      rest.says
      ∙ (ap (λ ds. reverse (map (describe old) taken) ++ ds) one.says
          ∙ (sym (append_assoc (reverse (map (describe old) taken)) (describe old e ∷ []) said)
              ∙ ap (λ ds. ds ++ said)
                  (sym (reverse-cons (describe old e) (map (describe old) taken)))));
  externals = λ u. ground (arith, rest.externals u, one.externals u, one.same_internal, src, dst);
}
  where
    said : List (Option (DependenceKind × Bool × ℕ × ℕ))
    said = map (describe g) g.all_edges

-- Whether an edge is taken, by the values of its ends.
pub is_chosen_lem :
    (inside : ℕ → Bool) (old : Dg) (link_to_external : Bool) (ignore : List ℕ) (e s t : ℕ)
    → get_src old e ≡ some s
    → get_dst old e ≡ some t
    → is_chosen inside old link_to_external ignore e
      ≡ (not (has e ignore) && crosses link_to_external (inside s) (inside t))
unfolding is_chosen
is_chosen_lem inside old link_to_external ignore e s t src dst = rw (src, is_chosen) (rw dst refl)

module _ (carried inside : ℕ → Bool) (old : Dg) (old_valid : IsValid old) (link_to_external : Bool)
    (ignore : List ℕ)
    (plain : (e : ℕ) (x : Edge)
      → has e old.all_edges ≡ true
      → old.edges e ≡ some x
      → IsPlain x) where
  pub copy_edges_into_lem :
      (es : List ℕ) (g : Dg)
      → IsValid g
      → ((t : ℕ) → is_internal g t ≡ inside t)
      → ((e : ℕ) → has e es ≡ true → has e old.all_edges ≡ true)
      → (g' : Dg) × (copy_edges_into carried old g link_to_external ignore es ≡ some g')
        × CopiesEdges old (chosen inside old link_to_external ignore es) g g'
  unfolding copy_edges_into chosen
  copy_edges_into_lem [] g v agree within = (g, refl, copies_none old g v)
  copy_edges_into_lem (e ∷ es) g v agree within =
      let member = within e (ground (arith, has-cons e e es, ==_refl e)) in
      let (x, s, t, at_e, src, dst, _) = describe_ends old e old_valid member in
      let taken = is_chosen_lem inside old link_to_external ignore e s t src dst in
      let inside_es = λ (d : ℕ) (l : has d es ≡ true). within d (ground (arith, has-cons d e es)) in
      let (g₁, run₁, rest₁) = copy_edges_into_lem es g v agree inside_es in
      elim (Bool-cases (has e ignore)) [
        | inl ignored ↦
            let left : is_chosen inside old link_to_external ignore e ≡ false =
              rw taken (rw ignored refl) in
            (g₁, rw ignored run₁, rw left rest₁)
        | inr regarded ↦ elim (Bool-cases (crosses link_to_external (inside s) (inside t))) [
          | inr out ↦
              let left : is_chosen inside old link_to_external ignore e ≡ false =
                rw taken (rw (regarded, out) refl) in
              (
                g₁,
                rw regarded (
                    rw (src, ◌>>=◌)
                      (rw (dst, ◌>>=◌)
                        (rw
                          (
                            copy_edge_skipped carried old g link_to_external e s t
                                (rw (agree s, agree t) out),
                            ◌>>=◌,
                          )
                          run₁))),
                rw left rest₁,
              )
          | inl in_part ↦
              let right : is_chosen inside old link_to_external ignore e ≡ true =
                rw taken (rw (regarded, in_part) refl) in
              let (h, run, one) =
                attach_copy_lem carried old g e s t old_valid v member (λ y l. plain e y member l)
                  src dst in
              let (g', run', rest) =
                copy_edges_into_lem es h one.valid
                  (λ u. is_internal_same g h u one.same_internal ∙ agree u) inside_es in
              (
                g',
                rw regarded (
                    rw (src, ◌>>=◌)
                      (rw (dst, ◌>>=◌)
                        (rw
                          (
                            copy_edge_taken carried old g link_to_external e s t
                                (rw (agree s, agree t) in_part),
                            ◌>>=◌,
                          )
                          (rw (run, ◌>>=◌) run')))),
                rw right (copies_more old g h g' e s t _ src dst one rest),
              )
        ]
      ]
