-- ===== src/Sccdag/Scc.antt =====
-- SCC.cpp: one strongly connected component, a graph over values. The nodes that it is made from can
-- be of several graphs: a node is named by the graph and the pointer. `none` is a dereference of
-- something deleted, the first element of an empty set, or a search out of rounds: that of hasCycle
-- queues each node at most once.
use noelle_public.Dg.Store.{Dg, NodeMap}
use noelle_public.Dg.Node.{get_src, get_dst, src_node, dst_node}
use noelle_public.Dg.Edge.{is_control_dependence}
use noelle_public.Dg.Build.{
  empty, add_node, set_entry_node, is_internal, is_external, copy_add_edge,
}
use noelle_public.Dg.Query.{num_internal_nodes}
use noelle_public.Prelude.{
  ℕ, zero, suc, ◌+◌, Bool, true, false, ◌&&◌, ◌||◌, Option, none, some, List, [], ◌∷◌, ◌++◌, length,
  has, insert, ◌==◌, if◌then◌else◌, ◌>>=◌,
}

-- The graphs that nodes can be of.
abbrev pub Graphs : Type 0
Graphs = ℕ → Option Dg

unfoldable pub has_node : ℕ × ℕ → List (ℕ × ℕ) → Bool
has_node a [] = false
has_node (g, p) ((h, q) ∷ s) = (g == h && p == q) || has_node (g, p) s

unfoldable pub insert_node : ℕ × ℕ → List (ℕ × ℕ) → List (ℕ × ℕ)
unfolding has_node
insert_node a s = if has_node a s then s else a ∷ s

unfoldable pub node_values : Graphs → List (ℕ × ℕ) → Option (List ℕ)
node_values graphs [] = some []
node_values graphs ((g, p) ∷ ns) = do
  d ← graphs g
  n ← d.nodes p
  rest ← node_values graphs ns
  some (insert n.the_t rest)

-- The ends of edges whose values are not inside.
unfoldable pub ends_outside :
    Dg
    → ℕ
    → (ℕ → Option ℕ)
    → (ℕ → Option ℕ)
    → List ℕ
    → List ℕ
    → List (ℕ × ℕ)
    → Option (List (ℕ × ℕ))
unfolding insert_node
ends_outside d g value_of node_of inside [] found = some found
ends_outside d g value_of node_of inside (e ∷ es) found = do
  t ← value_of e
  q ← node_of e
  ends_outside d g value_of node_of inside es
      (if has t inside then found else insert_node (g, q) found)

unfoldable pub external_nodes :
    Graphs → List ℕ → List (ℕ × ℕ) → List (ℕ × ℕ) → Option (List (ℕ × ℕ))
unfolding ends_outside get_src get_dst src_node dst_node
external_nodes graphs inside [] found = some found
external_nodes graphs inside ((g, p) ∷ ns) found = do
  d ← graphs g
  n ← d.nodes p
  found₁ ← ends_outside d g (get_dst d) (dst_node d) inside n.outgoing found
  found₂ ← ends_outside d g (get_src d) (src_node d) inside n.incoming found₁
  external_nodes graphs inside ns found₂

unfoldable pub add_copies : Graphs → Bool → List (ℕ × ℕ) → Dg → Option Dg
unfolding add_node
add_copies graphs inclusion [] s = some s
add_copies graphs inclusion ((g, p) ∷ ns) s = do
  d ← graphs g
  n ← d.nodes p
  add_copies graphs inclusion ns (add_node s n.the_t inclusion).0

-- entryNode = *allNodes.begin()
unfoldable pub enter_first : Dg → Option Dg
unfolding set_entry_node
enter_first s = elim s.all_nodes [ [] ↦ none | p ∷ ps ↦ some (set_entry_node s (some p)) ]

-- The edges of a list whose end, given by `value_of`, passes a test of the new graph.
unfoldable pub copy_passing :
    (ℕ → Bool) → Dg → (ℕ → Option ℕ) → (Dg → ℕ → Bool) → List ℕ → Dg → Option Dg
unfolding copy_add_edge get_src get_dst
copy_passing carried d value_of skips [] s = some s
copy_passing carried d value_of skips (e ∷ es) s = do
  t ← value_of e
  let copy = (do
    x ← d.edges e
    src ← get_src d e
    dst ← get_dst d e
    (s₁, e') ← copy_add_edge carried s x src dst
    some s₁)
  s' ← if skips s t then some s else copy
  copy_passing carried d value_of skips es s'

unfoldable pub copy_inner_edges : (ℕ → Bool) → Graphs → List (ℕ × ℕ) → Dg → Option Dg
unfolding copy_passing is_external
copy_inner_edges carried graphs [] s = some s
copy_inner_edges carried graphs ((g, p) ∷ ns) s = do
  d ← graphs g
  n ← d.nodes p
  s' ← copy_passing carried d (get_dst d) is_external n.outgoing s
  copy_inner_edges carried graphs ns s'

unfoldable pub copy_outer_edges : (ℕ → Bool) → Graphs → List (ℕ × ℕ) → Dg → Option Dg
unfolding copy_passing is_internal
copy_outer_edges carried graphs [] s = some s
copy_outer_edges carried graphs ((g, p) ∷ ns) s = do
  d ← graphs g
  n ← d.nodes p
  s₁ ← copy_passing carried d (get_dst d) is_internal n.outgoing s
  s₂ ← copy_passing carried d (get_src d) is_internal n.incoming s₁
  copy_outer_edges carried graphs ns s₂

unfoldable pub copy_nodes_and_edges : (ℕ → Bool) → Graphs → List (ℕ × ℕ) → List (ℕ × ℕ) → Option Dg
unfolding add_copies enter_first copy_inner_edges copy_outer_edges
copy_nodes_and_edges carried graphs internal external = do
  s₁ ← add_copies graphs true internal empty
  s₂ ← add_copies graphs false external s₁
  s₃ ← enter_first s₂
  s₄ ← copy_inner_edges carried graphs internal s₃
  copy_outer_edges carried graphs internal s₄

-- The constructor from the internal nodes alone.
unfoldable pub new_scc : (ℕ → Bool) → Graphs → List (ℕ × ℕ) → Option Dg
unfolding node_values external_nodes copy_nodes_and_edges
new_scc carried graphs internal = do
  inside ← node_values graphs internal
  external ← external_nodes graphs inside internal []
  copy_nodes_and_edges carried graphs internal external

unfoldable pub number_of_instructions : Dg → ℕ
unfolding num_internal_nodes
number_of_instructions s = num_internal_nodes s

-- The loop over the edges of a node: whether a node was met again, and the nodes checked, the nodes
-- seen from this start, and the queue.
unfoldable pub visit_edges :
    Dg → Bool → List ℕ → List ℕ → List ℕ → List ℕ → Option (Bool × List ℕ × List ℕ × List ℕ)
unfolding is_control_dependence
visit_edges s ignore_control [] checked seen queue = some (false, checked, seen, queue)
visit_edges s ignore_control (e ∷ es) checked seen queue = do
  x ← s.edges e
  let skip = visit_edges s ignore_control es checked seen queue
  let go_on =
      visit_edges s ignore_control es (insert x.to checked) (insert x.to seen)
        (queue ++ (x.to ∷ []))
  if ignore_control && is_control_dependence x
      then skip
      else (if has x.to seen
          then some (true, checked, seen, queue)
          else (if has x.to checked then skip else go_on))

unfoldable pub search_cycle : ℕ → Dg → Bool → List ℕ → List ℕ → List ℕ → Option (Bool × List ℕ)
unfolding visit_edges
search_cycle fuel s ignore_control checked seen [] = some (false, checked)
search_cycle zero s ignore_control checked seen (p ∷ queue) = none
search_cycle (suc fuel) s ignore_control checked seen (p ∷ queue) = do
  n ← s.nodes p
  (found, checked', seen', queue') ← visit_edges s ignore_control n.outgoing checked seen queue
  let rest = search_cycle fuel s ignore_control checked' seen' queue'
  if found then some (true, checked') else rest

unfoldable pub has_cycle_from : Dg → Bool → NodeMap → List ℕ → Option Bool
unfolding search_cycle
has_cycle_from s ignore_control [] checked = some false
has_cycle_from s ignore_control ((t, r) ∷ m) checked = do
  p ← r
  let skip = has_cycle_from s ignore_control m checked
  let here = (do
    (found, checked') ←
        search_cycle (length s.all_nodes + 1) s ignore_control (insert p checked) (p ∷ []) (p ∷ [])
    let rest = has_cycle_from s ignore_control m checked'
    if found then some true else rest)
  if has p checked then skip else here

unfoldable pub has_cycle : Dg → Bool → Option Bool
unfolding has_cycle_from
has_cycle s ignore_control = has_cycle_from s ignore_control s.internal []

-- The iterations: a callback changes the caller's state, and its answer true stops the loop. Which
-- values are instructions is a test of LLVM.
module _ {S : Type 0} (is_instruction : ℕ → Bool) (call : ℕ → S → S × Bool) where
  unfoldable pub over_values : List ℕ → S → S × Bool
  over_values [] s = (s, false)
  over_values (t ∷ ts) s =
      let (s', stop) = call t s in let rest = over_values ts s' in if stop then (s', true) else rest

  unfoldable pub over_instructions : List ℕ → S → S × Bool
  over_instructions [] s = (s, false)
  over_instructions (t ∷ ts) s =
      let (s', stop) = call t s in
      let rest = over_instructions ts (if is_instruction t then s' else s) in
      if is_instruction t && stop then (s', true) else rest
