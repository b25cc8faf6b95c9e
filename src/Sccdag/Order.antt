-- ===== src/Sccdag/Order.antt =====
-- SCCDAG.cpp: the order between the SCCs. `none` is a failed assertion, a dereference of something
-- deleted or of an end iterator.
use noelle_public.BitVector.{BitVector}
use noelle_public.BitMatrix.{BitMatrix, u32, resize, set, test, transitive_closure}
use noelle_public.Dg.Store.{Dg}
use noelle_public.Dg.Node.{get_src, get_dst}
use noelle_public.Dg.Query.{num_nodes}
use noelle_public.Sccdag.State.{Sccdag}
use noelle_public.Prelude.{
  ℕ, ◌+◌, ◌%◌, Bool, true, false, Option, none, some, List, [], ◌∷◌, if◌then◌else◌, lookup, assign,
  ◌>>=◌,
}

-- The loop that numbers the SCCs of the nodes.
unfoldable pub number_sccs : Dg → List ℕ → ℕ → List (ℕ × ℕ) → Option (List (ℕ × ℕ))
unfolding assign
number_sccs g [] index m = some m
number_sccs g (p ∷ ps) index m = do
  n ← g.nodes p
  number_sccs g ps ((index + 1) % u32) (assign n.the_t index m)

-- `sccIndexes[scc]`: a missing entry is stored as 0.
unfoldable pub index_of : ℕ → List (ℕ × ℕ) → ℕ × List (ℕ × ℕ)
unfolding lookup assign
index_of scc m = elim (lookup scc m) [ none ↦ (0, assign scc 0 m) | some i ↦ (i, m) ]

module _ (B : BitVector) where
  -- The loop over the edges that sets a bit for each.
  unfoldable pub populate :
      Dg → List ℕ → BitMatrix B → List (ℕ × ℕ) → Option (BitMatrix B × List (ℕ × ℕ))
  unfolding index_of get_src get_dst
  populate g [] ordered m = some (ordered, m)
  populate g (e ∷ es) ordered m = do
    s ← get_src g e
    t ← get_dst g e
    let (i, m₁) = index_of s m
    let (j, m₂) = index_of t m₁
    ordered' ← set B ordered i j true
    populate g es ordered' m₂

  unfoldable pub compute_reachability_among_sccs : Sccdag B → Option (Sccdag B)
  unfolding number_sccs populate num_nodes
  compute_reachability_among_sccs d = do
    m ← number_sccs d.graph d.graph.all_nodes 0 d.scc_indexes
    (reported, m') ←
        populate d.graph d.graph.all_edges (resize B d.ordered (num_nodes d.graph % u32)) m
    closed ← transitive_closure B reported
    some (record d { ordered = closed; ordered_dirty = false; scc_indexes = m' })

  unfoldable pub get_scc_index : Sccdag B → ℕ → Option ℕ
  get_scc_index d scc = lookup scc d.scc_indexes

  unfoldable pub ordered_before : Sccdag B → ℕ → ℕ → Option Bool
  ordered_before d early late =
      if d.ordered_dirty
      then none
      else (do i ← lookup early d.scc_indexes; j ← lookup late d.scc_indexes; test B d.ordered i j)

  -- The overloads for a vector of late, and of early, SCCs.
  unfoldable pub ordered_before_any : Sccdag B → ℕ → List ℕ → Option Bool
  unfolding ordered_before
  ordered_before_any d early [] = some false
  ordered_before_any d early (late ∷ lates) = do
    b ← ordered_before d early late
    let rest = ordered_before_any d early lates
    if b then some true else rest

  unfoldable pub any_ordered_before : Sccdag B → List ℕ → ℕ → Option Bool
  unfolding ordered_before
  any_ordered_before d [] late = some false
  any_ordered_before d (early ∷ earlies) late = do
    b ← ordered_before d early late
    let rest = any_ordered_before d earlies late
    if b then some true else rest
