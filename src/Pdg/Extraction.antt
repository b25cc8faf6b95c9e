-- ===== src/Pdg/Extraction.antt =====
-- PDG.cpp: createSubgraphFromValues as a whole.
use mathlib.Core.List.{reverse, append-nil}
use noelle_public.Dg.Store.{Dg, Edge, find}
use noelle_public.Dg.Invariant.{IsValid}
use noelle_public.Dg.Build.{is_internal, is_external}
use noelle_public.Dg.Description.{describe}
use noelle_public.Dg.Copying.{IsPlain}
use noelle_public.Pdg.Subgraph.{create_subgraph_from_values}
use noelle_public.Pdg.Chosen.{chosen, touches}
use noelle_public.Pdg.Copying.{copy_edges_into_lem}
use noelle_public.Pdg.Copies.{is_internal_same}
use noelle_public.Prelude.{
  ℕ, ◌≡◌, refl, ◌∙◌, ap, Bool, true, false, not, ◌&&◌, Option, none, some, List, [], ◌∷◌, ◌++◌, map,
  has, arith, ◌>>=◌,
}
use noelle_public.Pdg.Values.{pdg_of_values_lem}

-- What a subgraph of a graph for some values has to be: the values are its internal ones, the edges
-- `taken` of the old graph are its edges, the last one first, and their other ends are its external
-- values.
pub record IsSubgraph (old : Dg) (values taken : List ℕ) (g : Dg) : Type 0 where
  pub valid : IsValid g
  pub internals : (t : ℕ) → is_internal g t ≡ has t values
  pub externals : (t : ℕ) → is_external g t ≡ (not (has t values) && touches old t taken)
  pub says : map (describe g) g.all_edges ≡ reverse (map (describe old) taken)

-- The null pointer where there are no values, and else such a subgraph.
abbrev pub IsAnswer : Dg → List ℕ → List ℕ → Option Dg → Type 0
IsAnswer old [] taken r = r ≡ none
IsAnswer old (s ∷ ts) taken r = (g : Dg) × (r ≡ some g) × IsSubgraph old (s ∷ ts) taken g

no_externals : (g : Dg) (t : ℕ) → g.external ≡ [] → is_external g t ≡ false
unfolding is_external find
no_externals g t e = rw e refl

module _ (carried : ℕ → Bool) (old : Dg) (old_valid : IsValid old)
    (plain : (e : ℕ) (x : Edge)
      → has e old.all_edges ≡ true
      → old.edges e ≡ some x
      → IsPlain x) where
  pub some_values_lem :
      (link_to_external : Bool) (ignore : List ℕ) (s : ℕ) (ts : List ℕ)
      → (g : Dg) × (create_subgraph_from_values carried old (s ∷ ts) link_to_external ignore
          ≡ some (some g))
        × IsSubgraph old
            (s ∷ ts)
            (chosen (λ t. has t (s ∷ ts)) old link_to_external ignore old.all_edges)
            g
  unfolding create_subgraph_from_values
  some_values_lem link_to_external ignore s ts =
      let (g, made, bare) = pdg_of_values_lem s ts in
      let (g', run, c) =
        copy_edges_into_lem carried (λ t. has t (s ∷ ts)) old old_valid link_to_external ignore
          plain old.all_edges g bare.valid bare.internals (λ e l. l) in
      (
        g',
        rw (made, ◌>>=◌) (rw (run, ◌>>=◌) refl),
        record {
          valid = c.valid;
          internals = λ t. is_internal_same g g' t c.same_internal ∙ bare.internals t;
          externals =
              λ t. ground (arith, c.externals t, bare.internals t, no_externals g t bare.externals);
          says =
              c.says
              ∙ (ap
                    (λ es.
                      reverse (
                        map (describe old)
                          (chosen (λ t. has t (s ∷ ts)) old link_to_external ignore old.all_edges))
                      ++ map (describe g) es)
                    bare.no_edges
                  ∙ append-nil _);
        },
      )

  -- For a valid graph without undefined dependences and sub-edges, createSubgraphFromValues meets no
  -- null pointer and no failed cast. Without a value it returns the null pointer. With one or more it
  -- makes a valid graph whose internal values are the given ones; its edges are, in kind, flag and
  -- ends, exactly the edges of the graph that are not ignored and have both ends among the values, or,
  -- where external nodes are wanted, one; its external values are the other ends of these edges.
  pub create_subgraph_from_values_lem :
      (link_to_external : Bool) (ignore values : List ℕ)
      → (r : Option Dg) × (create_subgraph_from_values carried old values link_to_external ignore
          ≡ some r)
        × IsAnswer old values
            (chosen (λ t. has t values) old link_to_external ignore old.all_edges)
            r
  unfolding create_subgraph_from_values
  create_subgraph_from_values_lem link_to_external ignore [] = (none, refl, refl)
  create_subgraph_from_values_lem link_to_external ignore (s ∷ ts) =
      let (g, run, sub) = some_values_lem link_to_external ignore s ts in
      (some g, run, (g, refl, sub))
