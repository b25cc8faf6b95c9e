-- ===== src/Dg/Node.antt =====
-- src/core/dg/include/arcana/noelle/core/DGNode.hpp. `none` is a dereference of a deleted object.
use mathlib.Core.Option
use noelle_public.Dg.Store.{Dg, Node, Edge, update}
use noelle_public.Prelude.{
  ℕ, ◌+◌, Option, some, List, [], ◌∷◌, length, ◌==◌, if◌then◌else◌, insert, erase, has, insert_all,
  ◌>>=◌,
}

unfoldable pub new_node : ℕ → ℕ → Node
new_node id t = record { id = id; the_t = t; outgoing = []; incoming = [] }

unfoldable pub degree : Node → ℕ
degree n = length n.outgoing + length n.incoming

unfoldable pub out_degree : Node → ℕ
out_degree n = length n.outgoing

unfoldable pub in_degree : Node → ℕ
in_degree n = length n.incoming

unfoldable pub add_incoming_edge : ℕ → Node → Node
add_incoming_edge e n = record n { incoming = insert e n.incoming }

unfoldable pub add_outgoing_edge : ℕ → Node → Node
add_outgoing_edge e n = record n { outgoing = insert e n.outgoing }

unfoldable pub remove_connected_edge : ℕ → Node → Node
remove_connected_edge e n =
    if has e n.outgoing
    then record n { outgoing = erase e n.outgoing }
    else record n { incoming = erase e n.incoming }

unfoldable pub get_all_edges : Node → List ℕ
unfolding insert_all
get_all_edges n = insert_all n.incoming n.outgoing

-- edge->getSrcNode() and edge->getDstNode().
unfoldable pub src_node : Dg → ℕ → Option ℕ
src_node g e = Option.map (λ (x : Edge). x.from) (g.edges e)

unfoldable pub dst_node : Dg → ℕ → Option ℕ
dst_node g e = Option.map (λ (x : Edge). x.to) (g.edges e)

-- The edges whose end (`end` is one of the two above) is not the given node.
unfoldable pub drop_edges_at : (ℕ → Option ℕ) → ℕ → List ℕ → Option (List ℕ)
drop_edges_at end p [] = some []
drop_edges_at end p (e ∷ es) = do
  q ← end e
  rest ← drop_edges_at end p es
  some (if q == p then rest else e ∷ rest)

unfoldable pub remove_connected_node : Dg → ℕ → Node → Option Node
unfolding drop_edges_at
remove_connected_node g p n = do
  outgoing ← drop_edges_at (dst_node g) p n.outgoing
  incoming ← drop_edges_at (src_node g) p n.incoming
  some (record n { outgoing = outgoing; incoming = incoming })

-- A method that changes the node at a pointer.
unfoldable pub at_node : Dg → ℕ → (Node → Option Node) → Option Dg
at_node g p f = do n ← g.nodes p; n' ← f n; some (record g { nodes = update g.nodes p (some n') })

-- edge->getSrc() and edge->getDst().
unfoldable pub get_src : Dg → ℕ → Option ℕ
get_src g e = do x ← g.edges e; n ← g.nodes x.from; some n.the_t

unfoldable pub get_dst : Dg → ℕ → Option ℕ
get_dst g e = do x ← g.edges e; n ← g.nodes x.to; some n.the_t
