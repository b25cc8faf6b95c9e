-- ===== src/Dominators/Clone.antt =====
-- DominatorForest.cpp: the constructors that copy a set of nodes, filterNodes and transferToClones.
-- `none` is the dereference of a node that is not on the heap, or a failed assertion.
use noelle_public.Dominators.Forest.{DominatorNode, DominatorForest, find_block}
use noelle_public.Prelude.{
  assign, ℕ, ◌+◌, Bool, Option, none, some, List, [], ◌∷◌, ◌++◌, has, insert, ◌==◌, if◌then◌else◌,
  ◌>>=◌,
}

-- bbNodeMap[key] = value, and the same for the map from nodes to their copies.
abbrev pub write : (ℕ → Option DominatorNode) → ℕ → DominatorNode → ℕ → Option DominatorNode
write h p x q = if p == q then some x else h q

-- The copy constructor of DominatorNode.
unfoldable pub copy_node : DominatorNode → DominatorNode
copy_node x = record { b = x.b; level = x.level; parent = none; children = [] }

-- The first loop, with the map from the nodes to their copies; `source` is the heap of the originals.
unfoldable pub clone_each :
    (ℕ → Option DominatorNode)
    → DominatorForest
    → List (ℕ × ℕ)
    → List ℕ
    → Option (DominatorForest × List (ℕ × ℕ))
unfolding copy_node assign
clone_each source f node_map [] = some (f, node_map)
clone_each source f node_map (n ∷ ns) = do
  x ← source n
  let summary = f.next
  clone_each source
      (record f {
        nodes = insert summary f.nodes;
        bb_node_map = assign x.b summary f.bb_node_map;
        heap = write f.heap summary (copy_node x);
        next = summary + 1;
      })
      (assign n summary node_map) ns

-- The loop over the children of a node: those that were copied become children of its copy.
unfoldable pub link_children : List (ℕ × ℕ) → DominatorForest → ℕ → List ℕ → Option DominatorForest
unfolding find_block
link_children node_map f summary [] = some f
link_children node_map f summary (c ∷ cs) = elim (find_block c node_map) [
  | none ↦ link_children node_map f summary cs
  | some child ↦ do
    y ← f.heap child
    let h = write f.heap child (record y { parent = some summary })
    x ← h summary
    link_children node_map
        (record f { heap = write h summary (record x { children = x.children ++ child ∷ [] }) })
        summary cs
]

unfoldable pub link_each :
    (ℕ → Option DominatorNode) → List (ℕ × ℕ) → DominatorForest → List ℕ → Option DominatorForest
unfolding link_children find_block
link_each source node_map f [] = some f
link_each source node_map f (n ∷ ns) = do
  x ← source n
  summary ← find_block n node_map
  f' ← link_children node_map f summary x.children
  link_each source node_map f' ns

unfoldable pub clone_nodes :
    (ℕ → Option DominatorNode) → DominatorForest → List ℕ → Option DominatorForest
unfolding clone_each link_each
clone_nodes source f ns = do
  (f', node_map) ← clone_each source f [] ns
  link_each source node_map f' ns

unfoldable pub filter_nodes : (ℕ → Option DominatorNode) → List ℕ → List ℕ → Option (List ℕ)
filter_nodes source [] bbs = some []
filter_nodes source (n ∷ ns) bbs = do
  x ← source n
  rest ← filter_nodes source ns bbs
  some (if has x.b bbs then insert n rest else rest)

-- A forest made from some blocks of another; the source does not set `post`, so it is a parameter.
unfoldable pub sub_forest : Bool → DominatorForest → List ℕ → Option DominatorForest
unfolding filter_nodes clone_nodes
sub_forest post f bbs = do
  ns ← filter_nodes f.heap f.nodes bbs
  clone_nodes f.heap
      (record { nodes = []; bb_node_map = []; post = post; heap = f.heap; next = f.next }) ns

unfoldable pub transfer_to_clones : List (ℕ × ℕ) → DominatorForest → List ℕ → Option DominatorForest
unfolding find_block
transfer_to_clones clones f [] = some f
transfer_to_clones clones f (n ∷ ns) = do
  x ← f.heap n
  bb ← find_block x.b clones
  transfer_to_clones clones (record f { heap = write f.heap n (record x { b = bb }) }) ns
