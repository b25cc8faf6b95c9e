-- ===== src/Partition/Sets.antt =====
-- SCCDAGPartition of SCCDAGPartition.cpp. SCCs and sets are pointers; a set that was deleted is `none`
-- on the heap. `none` as a result is a failed assertion or lookup, a dereference of something
-- deleted, or an element of an empty set.
use noelle_public.Dg.Store.{Dg}
use noelle_public.Dg.Node.{get_src, get_dst}
use noelle_public.Dg.Build.{add_node, fetch_node, add_undefined_dependence_edge}
use noelle_public.Dg.Remove.{remove_node}
use noelle_public.Dg.Query.{fetch_edges}
use noelle_public.Prelude.{
  ℕ, ◌+◌, lookup, assign, Bool, true, false, Option, none, some, List, [], ◌∷◌, insert, ◌==◌,
  if◌then◌else◌, ◌>>=◌,
}

pub record Partition : Type 0 where
  pub graph : Dg
  pub sets : ℕ → Option (List ℕ)
  pub scc_to_set : List (ℕ × ℕ)
  pub next_set : ℕ

unfoldable pub is_included_in_partitioning : Partition → ℕ → Bool
unfolding lookup
is_included_in_partitioning q scc = elim (lookup scc q.scc_to_set) [ none ↦ false | some s ↦ true ]

unfoldable pub set_of_scc : Partition → ℕ → Option ℕ
unfolding lookup
set_of_scc q scc = lookup scc q.scc_to_set

unfoldable pub map_all : ℕ → List ℕ → List (ℕ × ℕ) → List (ℕ × ℕ)
unfolding assign
map_all set [] m = m
map_all set (scc ∷ sccs) m = map_all set sccs (assign scc set m)

unfoldable pub insert_each : List ℕ → List ℕ → List ℕ
insert_each [] s = s
insert_each (x ∷ xs) s = insert_each xs (insert x s)

-- The first loop of mergeSets: the SCCs of the merged set, and the map.
unfoldable pub gather :
    Partition → ℕ → List ℕ → List ℕ × List (ℕ × ℕ) → Option (List ℕ × List (ℕ × ℕ))
unfolding map_all insert_each
gather q merged [] s = some s
gather q merged (set ∷ sets) (sccs, m) = do
  members ← q.sets set
  gather q merged sets (insert_each members sccs, map_all merged members m)

-- Whether the SCCs of a set were merged, judged by one of them.
unfoldable pub is_merged : Partition → ℕ → ℕ → Option Bool
unfolding lookup
is_merged q merged set = do
  members ← q.sets set
  elim members [ [] ↦ none | any ∷ rest ↦ do s ← lookup any q.scc_to_set; some (s == merged) ]

-- One edge between two sets, whose nodes are given, unless there is one.
unfoldable pub join_sets : Partition → ℕ → Option ℕ → ℕ → Option ℕ → Option Partition
unfolding fetch_edges add_undefined_dependence_edge
join_sets q from r₁ to r₂ = do
  n₁ ← r₁
  n₂ ← r₂
  between ← fetch_edges q.graph n₁ n₂
  elim between [
    | [] ↦ do (g, e) ← add_undefined_dependence_edge q.graph from to; some (record q { graph = g })
    | e ∷ rest ↦ some q
  ]

-- `node` is the node of the merged set.
unfoldable pub transfer_incoming : Partition → ℕ → ℕ → List ℕ → Option Partition
unfolding get_src is_merged join_sets fetch_node
transfer_incoming q merged node [] = some q
transfer_incoming q merged node (e ∷ es) = do
  parent ← get_src q.graph e
  let (g, r) = fetch_node q.graph parent
  let q₁ = record q { graph = g }
  inside ← is_merged q₁ merged parent
  q₂ ← (if inside then some q₁ else join_sets q₁ parent r merged (some node))
  transfer_incoming q₂ merged node es

unfoldable pub transfer_outgoing : Partition → ℕ → ℕ → List ℕ → Option Partition
unfolding get_dst is_merged join_sets fetch_node
transfer_outgoing q merged node [] = some q
transfer_outgoing q merged node (e ∷ es) = do
  child ← get_dst q.graph e
  let (g, r) = fetch_node q.graph child
  let q₁ = record q { graph = g }
  inside ← is_merged q₁ merged child
  q₂ ← (if inside then some q₁ else join_sets q₁ merged (some node) child r)
  transfer_outgoing q₂ merged node es

unfoldable pub transfer_edges : Partition → ℕ → ℕ → List ℕ → Option Partition
unfolding fetch_node transfer_incoming transfer_outgoing
transfer_edges q merged node [] = some q
transfer_edges q merged node (set ∷ sets) = do
  let (g, r) = fetch_node q.graph set
  p ← r
  n ← g.nodes p
  q₁ ← transfer_incoming (record q { graph = g }) merged node n.incoming
  n' ← q₁.graph.nodes p
  q₂ ← transfer_outgoing q₁ merged node n'.outgoing
  transfer_edges q₂ merged node sets

unfoldable pub delete_sets : Partition → List ℕ → Option Partition
unfolding fetch_node remove_node
delete_sets q [] = some q
delete_sets q (set ∷ sets) = do
  let (g, r) = fetch_node q.graph set
  p ← r
  g' ← remove_node g p
  delete_sets (record q { graph = g'; sets = λ s. if s == set then none else q.sets s }) sets

unfoldable pub merge_sets : Partition → List ℕ → Option Partition
unfolding gather add_node transfer_edges delete_sets
merge_sets q sets = do
  let merged = q.next_set
  (sccs, m) ← gather q merged sets ([], q.scc_to_set)
  let (g, p) = add_node q.graph merged true
  q₁ ←
      transfer_edges
        (record {
          graph = g;
          sets = λ s. if s == merged then some sccs else q.sets s;
          scc_to_set = m;
          next_set = merged + 1;
        })
        merged p sets
  delete_sets q₁ sets
