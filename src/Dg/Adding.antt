-- ===== src/Dg/Adding.antt =====
-- DGBase.hpp: adding and fetching nodes keeps a graph valid.
use noelle_public.Dg.Store.{Dg, NodeMap, find, put, find-put}
use noelle_public.Dg.Build.{
  add_node, fetch_node, fetch_or_add_node, is_internal, is_external, is_in_graph,
}
use noelle_public.Dg.Node.{new_node}
use noelle_public.Dg.Invariant.{IsValid, Holds}
use noelle_public.Prelude.{
  ℕ, ◌+◌, ◌≡◌, refl, inl, inr, Bool, true, false, Option, none, some, has, has-insert, has-nil,
  ◌==◌, ==_refl, not, ◌&&◌, ◌||◌, if◌then◌else◌, arith, Bool-cases, eq_of_==, Option-cases, subst,
}

module _ (g : Dg) (t : ℕ) (inclusion : Bool) (v : IsValid g) where
  not_yet : has g.next_node g.all_nodes ≡ false
  not_yet = elim (Bool-cases (has g.next_node g.all_nodes)) [
    | inl old ↦ absurd (omega (arith, v.node_fresh g.next_node old))
    | inr new ↦ new
  ]

  Holds-add_node : (k : ℕ) (o : Option ℕ) → Holds g k o → Holds (add_node g t inclusion).0 k o
  unfolding add_node
  Holds-add_node k none h = h
  Holds-add_node k (some p) (member, (n, e, at_t)) =
      let fresh = v.node_fresh p member in
      (ground (arith, has-insert p g.next_node g.all_nodes), (n, ground arith, at_t))

  Holds-new : Holds (add_node g t inclusion).0 t (some g.next_node)
  unfolding add_node
  Holds-new = (
    ground (arith, has-insert g.next_node g.next_node g.all_nodes),
    (new_node g.node_id_counter t, ground arith, refl),
  )

  Holds-put :
      (m : NodeMap)
      → ((k : ℕ) (o : Option ℕ) → find k m ≡ some o → Holds g k o)
      → (k : ℕ) (o : Option ℕ) → find k (put t (some g.next_node) m) ≡ some o
      → Holds (add_node g t inclusion).0 k o
  Holds-put m h k o e = elim (Bool-cases (t == k)) [
    | inl here ↦
        let at_new : some g.next_node ≡ o = ground (arith, find-put t k (some g.next_node) m) in
        subst (λ x. Holds (add_node g t inclusion).0 k x) at_new
          (subst (λ x. Holds (add_node g t inclusion).0 x (some g.next_node)) (eq_of_== t k here)
            Holds-new)
    | inr other ↦ Holds-add_node k o (h k o (ground (arith, find-put t k (some g.next_node) m)))
  ]

  in_internal :
      (b : Bool)
      → inclusion ≡ b
      → (k : ℕ) (o : Option ℕ)
      → find k (if inclusion then put t (some g.next_node) g.internal else g.internal) ≡ some o
      → Holds (add_node g t inclusion).0 k o
  in_internal true is k o e = Holds-put g.internal v.internal_holds k o (rw is at e)
  in_internal false is k o e = Holds-add_node k o (v.internal_holds k o (rw is at e))

  in_external :
      (b : Bool)
      → inclusion ≡ b
      → (k : ℕ) (o : Option ℕ)
      → find k (if inclusion then g.external else put t (some g.next_node) g.external) ≡ some o
      → Holds (add_node g t inclusion).0 k o
  in_external true is k o e = Holds-add_node k o (v.external_holds k o (rw is at e))
  in_external false is k o e = Holds-put g.external v.external_holds k o (rw is at e)

  pub add_node-IsValid : IsValid (add_node g t inclusion).0
  unfolding add_node
  add_node-IsValid = record {
    node_lives = λ p m. elim (Bool-cases (g.next_node == p)) [
      | inl new ↦ (new_node g.node_id_counter t, rw new)
      | inr old ↦ rw old (v.node_lives p (ground (arith, has-insert p g.next_node g.all_nodes)))
    ];
    edge_lives = v.edge_lives;
    node_fresh = λ p m. ground (arith, has-insert p g.next_node g.all_nodes, v.node_fresh p);
    edge_fresh = v.edge_fresh;
    outgoing = λ p e.
        ground (arith, has-insert p g.next_node g.all_nodes, v.outgoing p e, not_yet, has-nil e);
    incoming = λ p e.
        ground (arith, has-insert p g.next_node g.all_nodes, v.incoming p e, not_yet, has-nil e);
    internal_holds = in_internal inclusion refl;
    external_holds = in_external inclusion refl;
  }

-- In a valid graph the lookup of a value of the graph changes nothing and finds a node for it.
pub fetch_node_lem :
    (g : Dg) (t : ℕ)
    → IsValid g
    → is_in_graph g t ≡ true
    → (p : ℕ) × (fetch_node g t ≡ (g, some p)) × Holds g t (some p)
unfolding fetch_node is_in_graph
fetch_node_lem g t v e = elim (Option-cases (find t g.internal)) [
  | inr (none, at) ↦ absurd (v.internal_holds t none at)
  | inr (some p, at) ↦ (p, ground arith, v.internal_holds t (some p) at)
  | inl missing ↦ elim (Option-cases (find t g.external)) [
    | inr (none, at) ↦ absurd (v.external_holds t none at)
    | inr (some p, at) ↦ (p, ground arith, v.external_holds t (some p) at)
    | inl neither ↦ absurd (ground arith)
  ]
]

-- The entries of a node map after a value got a node, if it is `enters` that it is entered.
abbrev pub Enters : Bool → ℕ → Option ℕ → NodeMap → NodeMap → Type 0
Enters enters t r m m' = (k : ℕ) → find k m' ≡ (if enters && t == k then some r else find k m)

Enters-put :
    (b : Bool) (t : ℕ) (r : Option ℕ) (m : NodeMap) → Enters b t r m (if b then put t r m else m)
Enters-put true t r m k = find-put t k r m
Enters-put false t r m k = refl

Enters-skip :
    (b : Bool) (t : ℕ) (r : Option ℕ) (m : NodeMap)
    → Enters (not b) t r m (if b then m else put t r m)
Enters-skip true t r m k = refl
Enters-skip false t r m k = find-put t k r m

-- A node that a map of a valid graph leads to is the one that fetchNode returns, and nothing changes.
fetch_added :
    (g : Dg) (t : ℕ) (inclusion : Bool)
    → is_in_graph g t ≡ false
    → let g' = (add_node g t inclusion).0 in
      (is_in_graph g' t ≡ true) × (fetch_node g' t ≡ (g', some g.next_node))
unfolding fetch_node is_in_graph add_node is_internal is_external
fetch_added g t true e = ground (arith, find-put t t (some g.next_node) g.internal, ==_refl t)
fetch_added g t false e = ground (arith, find-put t t (some g.next_node) g.external, ==_refl t)

-- What fetchOrAddNode of value t has to make of graph g: the graph g' and the pointer r.
pub record FetchesOrAdds (g : Dg) (t : ℕ) (inclusion : Bool) (g' : Dg) (r : Option ℕ) : Type 0 where
  pub valid : IsValid g'
  pub node : (p : ℕ) × (r ≡ some p) × Holds g' t (some p)
  pub nodes_kept : (k : ℕ) (o : Option ℕ) → Holds g k o → Holds g' k o
  pub made : g'.next_node ≡ (if is_in_graph g t then g.next_node else g.next_node + 1)
  pub in_graph : is_in_graph g' t ≡ true
  pub fetched : fetch_node g' t ≡ (g', r)
  pub internals : Enters (not (is_in_graph g t) && inclusion) t r g.internal g'.internal
  pub externals : Enters (not (is_in_graph g t) && not inclusion) t r g.external g'.external
  pub members :
      (p : ℕ)
      → has p g'.all_nodes ≡ (not (is_in_graph g t) && p == g.next_node || has p g.all_nodes)
  pub same_edges : (g'.all_edges ≡ g.all_edges) × (g'.edges ≡ g.edges)

-- fetchOrAddNode leaves a valid graph valid and returns a node for the value, which is in the graph
-- afterwards, and which fetchNode then finds as that node without a change. It keeps every node of the
-- graph for its value, and all edges. Where the graph had the value, no node is made and the maps
-- stay; where it had not, one node is made, and entered for the value alone, in the map of internal
-- nodes where the caller asks for an internal one, and in that of external ones otherwise.
pub fetch_or_add_node_lem :
    (g : Dg) (t : ℕ) (inclusion : Bool)
    → IsValid g
    → let (g', r) = fetch_or_add_node g t inclusion in FetchesOrAdds g t inclusion g' r
unfolding fetch_or_add_node add_node
fetch_or_add_node_lem g t inclusion v = elim (Bool-cases (is_in_graph g t)) [
  | inl present ↦
      let (p, e, holds) = fetch_node_lem g t v present in
      let in_place : FetchesOrAdds g t inclusion g (some p) = record {
        valid = v;
        node = (p, refl, holds);
        nodes_kept = λ k o h. h;
        made = rw present refl;
        in_graph = present;
        fetched = e;
        internals = rw present (λ k. refl);
        externals = rw present (λ k. refl);
        members = rw present (λ q. refl);
        same_edges = (refl, refl);
      } in
      rw (present, e) in_place
  | inr absent ↦
      let (there, fetched) = fetch_added g t inclusion absent in
      let added : FetchesOrAdds g t inclusion (add_node g t inclusion).0 (some g.next_node) =
        record {
          valid = add_node-IsValid g t inclusion v;
          node = (g.next_node, refl, Holds-new g t inclusion v);
          nodes_kept = Holds-add_node g t inclusion v;
          made = rw absent refl;
          in_graph = there;
          fetched = fetched;
          internals = rw absent (Enters-put inclusion t (some g.next_node) g.internal);
          externals = rw absent (Enters-skip inclusion t (some g.next_node) g.external);
          members = rw absent (λ q. ground (arith, has-insert q g.next_node g.all_nodes));
          same_edges = (refl, refl);
        } in
      rw absent added
]

-- fetchNode of a value that is not in the graph returns a null pointer and stores it: the value then
-- counts as external, and fetchOrAddNode returns the null pointer in place of a new node.
pub fetch_node_absent :
    (g : Dg) (t : ℕ) (inclusion : Bool)
    → is_in_graph g t ≡ false
    → let (g', r) = fetch_node g t in
      (r ≡ none)
      × (is_in_graph g' t ≡ true)
      × (is_external g' t ≡ true)
      × ((fetch_or_add_node g' t inclusion).1 ≡ none)
unfolding fetch_node is_in_graph is_external is_internal fetch_or_add_node
fetch_node_absent g t inclusion e = ground (arith, find-put t t none g.external)
