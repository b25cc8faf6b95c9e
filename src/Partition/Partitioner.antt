-- ===== src/Partition/Partitioner.antt =====
-- SCCDAGPartitioner of SCCDAGPartition.cpp: the questions about the partition graph. `none` is a
-- dereference of something null or deleted, or a search out of rounds: the searches for ancestors
-- and descendants have a round for each node and one more, that of isAncestor is given its rounds.
use noelle_public.Dg.Store.{Dg}
use noelle_public.Dg.Build.{fetch_node}
use noelle_public.Dg.Node.{get_src, get_dst}
use noelle_public.Prelude.{
  ℕ, zero, suc, ◌+◌, Bool, true, false, Option, none, some, List, [], ◌∷◌, ◌++◌, length, has,
  insert, if◌then◌else◌, ◌>>=◌,
}

-- The sets at one end of the edges.
unfoldable pub sets_at : (ℕ → Option ℕ) → List ℕ → Option (List ℕ)
sets_at end [] = some []
sets_at end (e ∷ es) = do s ← end e; rest ← sets_at end es; some (s ∷ rest)

unfoldable pub parent_sets : Dg → ℕ → Option (Dg × List ℕ)
unfolding fetch_node sets_at get_src
parent_sets g set = do
  let (g', r) = fetch_node g set
  p ← r
  n ← g'.nodes p
  sets ← sets_at (get_src g') n.incoming
  some (g', sets)

unfoldable pub child_sets : Dg → ℕ → Option (Dg × List ℕ)
unfolding fetch_node sets_at get_dst
child_sets g set = do
  let (g', r) = fetch_node g set
  p ← r
  n ← g'.nodes p
  sets ← sets_at (get_dst g') n.outgoing
  some (g', sets)

-- The loop over the edges of a set: the sets found and the queue.
unfoldable pub enqueue : List ℕ → List ℕ → List ℕ → List ℕ × List ℕ
enqueue [] found queue = (found, queue)
enqueue (s ∷ ss) found queue =
    if has s found then enqueue ss found queue else enqueue ss (insert s found) (queue ++ s ∷ [])

-- The loop of getDescendants and getAncestors; `next` is `child_sets` or `parent_sets`.
unfoldable pub collect :
    ℕ → (Dg → ℕ → Option (Dg × List ℕ)) → Dg → List ℕ → List ℕ → Option (Dg × List ℕ)
unfolding enqueue
collect fuel next g found [] = some (g, found)
collect zero next g found (s ∷ queue) = none
collect (suc fuel) next g found (s ∷ queue) = do
  (g', ss) ← next g s
  let (found', queue') = enqueue ss found queue
  collect fuel next g' found' queue'

unfoldable pub get_descendants : Dg → ℕ → Option (Dg × List ℕ)
unfolding collect child_sets
get_descendants g set = collect (length g.all_nodes + 1) child_sets g [] (set ∷ [])

unfoldable pub get_ancestors : Dg → ℕ → Option (Dg × List ℕ)
unfolding collect parent_sets
get_ancestors g set = collect (length g.all_nodes + 1) parent_sets g [] (set ∷ [])

unfoldable pub get_overlap : List ℕ → List ℕ → List ℕ
get_overlap [] sets_b = []
get_overlap (s ∷ ss) sets_b =
    let rest = get_overlap ss sets_b in if has s sets_b then insert s rest else rest

unfoldable pub is_ancestor_from : ℕ → Dg → ℕ → List ℕ → Option (Dg × Bool)
unfolding parent_sets
is_ancestor_from fuel g target [] = some (g, false)
is_ancestor_from zero g target (s ∷ queue) = none
is_ancestor_from (suc fuel) g target (s ∷ queue) = do
  (g', parents) ← parent_sets g s
  let rest = is_ancestor_from fuel g' target (queue ++ parents)
  if has target parents then some (g', true) else rest

unfoldable pub is_ancestor : ℕ → Dg → ℕ → ℕ → Option (Dg × Bool)
unfolding is_ancestor_from
is_ancestor fuel g parent_target target = is_ancestor_from fuel g parent_target (target ∷ [])

-- A pair of null pointers is `none` inside.
unfoldable pub get_parent_child_pair : ℕ → Dg → ℕ → ℕ → Option (Dg × Option (ℕ × ℕ))
unfolding is_ancestor
get_parent_child_pair fuel g a b = do
  (g₁, above) ← is_ancestor fuel g a b
  let other = (do
    (g₂, below) ← is_ancestor fuel g₁ b a
    some (g₂, (if below then some (b, a) else none)))
  if above then some (g₁, some (a, b)) else other

unfoldable pub overlap_between : Dg → ℕ → ℕ → Option (Dg × List ℕ)
unfolding get_descendants get_ancestors get_overlap
overlap_between g parent child = do
  (g₁, descendants) ← get_descendants g parent
  (g₂, ancestors) ← get_ancestors g₁ child
  some (g₂, get_overlap descendants ancestors)

unfoldable pub is_merge_introducing_cycle : ℕ → Dg → ℕ → ℕ → Option (Dg × Bool)
unfolding get_parent_child_pair overlap_between
is_merge_introducing_cycle fuel g a b = do
  (g₁, pair) ← get_parent_child_pair fuel g a b
  elim pair [
    | none ↦ some (g₁, false)
    | some (parent, child) ↦ do
      (g₂, overlap) ← overlap_between g₁ parent child
      some (g₂, elim overlap [ [] ↦ false | s ∷ ss ↦ true ])
  ]

unfoldable pub get_cycle_introduced_by_merging : ℕ → Dg → ℕ → ℕ → Option (Dg × List ℕ)
unfolding get_parent_child_pair overlap_between
get_cycle_introduced_by_merging fuel g a b = do
  (g₁, pair) ← get_parent_child_pair fuel g a b
  elim pair [
    | none ↦ some (g₁, insert a (insert b []))
    | some (parent, child) ↦ do
      (g₂, overlap) ← overlap_between g₁ parent child
      some (g₂, insert child (insert parent overlap))
  ]
