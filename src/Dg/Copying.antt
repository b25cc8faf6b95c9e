-- ===== src/Dg/Copying.antt =====
-- DGBase.hpp: copyAddEdge between two values of a valid graph.
use noelle_public.Dg.Store.{
  Dg, Edge, DependenceKind, control, variable, may_memory, must_memory, undefined,
}
use noelle_public.Dg.Edge.{
  new_edge, copy_edge, set_src_node, set_dst_node, set_loop_carried, is_control_dependence,
  is_variable_dependence, is_may_memory_dependence, is_must_memory_dependence,
}
use noelle_public.Dg.Build.{copy_add_edge, is_in_graph}
use noelle_public.Dg.Invariant.{IsValid}
use noelle_public.Dg.Joining.{Joins, connect_lem}
use noelle_public.Dg.Description.{describe, describe_joined}
use noelle_public.Prelude.{ℕ, ◌≡◌, ◌≢◌, refl, ap, Bool, true, ◌||◌, none, some}

-- An edge that copyAddEdge copies: its last cast fails on an undefined dependence. The edges of a
-- graph of values have no sub-edges.
pub record IsPlain (x : Edge) : Type 0 where
  pub defined : x.kind ≢ undefined
  pub no_sub_edges : x.sub_edges ≡ none

copied_kind :
    (x : Edge)
    → x.kind ≢ undefined
    → (is_control_dependence x
        || (is_variable_dependence x
            || (is_may_memory_dependence x || is_must_memory_dependence x)))
      ≡ true
unfolding is_control_dependence is_variable_dependence is_may_memory_dependence
    is_must_memory_dependence
copied_kind x h = by_kind x.kind refl
  where
    by_kind :
        (k : DependenceKind)
        → x.kind ≡ k
        → (is_control_dependence x
            || (is_variable_dependence x
                || (is_may_memory_dependence x || is_must_memory_dependence x)))
          ≡ true
    by_kind control e = rw e refl
    by_kind (variable t) e = rw e refl
    by_kind (may_memory t) e = rw e refl
    by_kind (must_memory t) e = rw e refl
    by_kind undefined e = absurd (h e)

module _ (carried : ℕ → Bool) (x : Edge) (plain : IsPlain x) where
  -- The copy at its ends.
  abbrev copy_at : ℕ → ℕ → Edge
  copy_at p q = set_dst_node (set_src_node (copy_edge carried x) p) q

  copy_at_lem : (p q : ℕ) → copy_at p q ≡ set_loop_carried (new_edge x.kind p q) x.loop_carried
  unfolding copy_edge set_dst_node set_src_node set_loop_carried new_edge
  copy_at_lem p q = rw plain.no_sub_edges refl

  -- Between two values of a valid graph copyAddEdge succeeds, adds one edge and keeps the graph valid;
  -- the copy says what the original says.
  pub copy_add_edge_lem :
      (g : Dg) (a b : ℕ)
      → IsValid g
      → is_in_graph g a ≡ true
      → is_in_graph g b ≡ true
      → (g' : Dg) × (copy_add_edge carried g x a b ≡ some (g', g.next_edge))
        × Joins g a b copy_at g'
        × (describe g' g.next_edge ≡ some (x.kind, x.loop_carried, a, b))
  unfolding copy_add_edge set_loop_carried new_edge
  copy_add_edge_lem g a b v in_a in_b =
      let (g', run, j) =
        connect_lem g v a b in_a in_b copy_at (λ p q. ap (λ (y : Edge). y.from) (copy_at_lem p q))
          (λ p q. ap (λ (y : Edge). y.to) (copy_at_lem p q)) in
      (
        g',
        rw (copied_kind x plain.defined) run,
        j,
        describe_joined g g' a b copy_at (set_loop_carried (new_edge x.kind j.p j.q) x.loop_carried)
            j (copy_at_lem j.p j.q) refl refl,
      )
