-- ===== src/Dg/Store.antt =====
-- The data of src/core/dg: nodes and edges on a heap, and the graph over them. A pointer is a
-- number; a node or an edge that was deleted or never made is `none` on the heap.
use noelle_public.Prelude.{
  ℕ, ◌≡◌, refl, Bool, Option, none, some, List, [], ◌∷◌, ◌==◌, if◌then◌else◌, arith,
}

pub data DataDependenceType : Type 0 where
  raw war waw : DataDependenceType

-- The concrete classes below DGEdge; the other enumerators of the source only bound ranges.
pub data DependenceKind : Type 0 where
  control : DependenceKind
  variable may_memory must_memory : DataDependenceType → DependenceKind
  undefined : DependenceKind

-- `sub_edges` is none where the source holds a null pointer.
pub record Edge : Type 0 where
  pub kind : DependenceKind
  pub from : ℕ
  pub to : ℕ
  pub sub_edges : Option (List ℕ)
  pub loop_carried : Bool

pub record Node : Type 0 where
  pub id : ℕ
  pub the_t : ℕ
  pub outgoing : List ℕ
  pub incoming : List ℕ

-- std::map<T *, DGNode<T> *>: the second `none` is a null pointer that is stored.
abbrev pub NodeMap : Type 0
NodeMap = List (ℕ × Option ℕ)

unfoldable pub find : ℕ → NodeMap → Option (Option ℕ)
find t [] = none
find t ((k, p) ∷ m) = if k == t then some p else find t m

unfoldable pub put : ℕ → Option ℕ → NodeMap → NodeMap
put t p [] = (t, p) ∷ []
put t p ((k, q) ∷ m) = if k == t then (t, p) ∷ m else (k, q) ∷ put t p m

unfoldable pub remove : ℕ → NodeMap → NodeMap
remove t [] = []
remove t ((k, q) ∷ m) = let rest = remove t m in if k == t then rest else (k, q) ∷ rest

pub find-put :
    (t k : ℕ) (p : Option ℕ) (m : NodeMap)
    → find k (put t p m) ≡ (if t == k then some p else find k m)
unfolding find put
find-put t k p [] = refl
find-put t k p ((j, q) ∷ m) = ground (arith, find-put t k p m)

pub find-remove :
    (t k : ℕ) (m : NodeMap) → find k (remove t m) ≡ (if t == k then none else find k m)
unfolding find remove
find-remove t k [] = ground arith
find-remove t k ((j, q) ∷ m) = ground (arith, find-remove t k m)

-- `next_node` and `next_edge` are the addresses that `new` returns. `node_id_counter` has no bound; that
-- of the source is an int32_t, whose overflow has no defined result.
pub record Dg : Type 0 where
  pub node_id_counter : ℕ
  pub next_node : ℕ
  pub next_edge : ℕ
  pub nodes : ℕ → Option Node
  pub edges : ℕ → Option Edge
  pub all_nodes : List ℕ
  pub all_edges : List ℕ
  pub entry_node : Option ℕ
  pub internal : NodeMap
  pub external : NodeMap

abbrev pub update {ℓ} : {A : Type ℓ} → (ℕ → Option A) → ℕ → Option A → ℕ → Option A
update f p v q = if p == q then v else f q
