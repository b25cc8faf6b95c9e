-- ===== src/Sccdag/Before.antt =====
-- orderedBefore of SCCDAG.cpp over the transitive closure of BitMatrix.cpp.
use noelle_public.BitVector.{BitVector}
use noelle_public.BitMatrix.{BitMatrix, u32, idx, resize, test}
use noelle_public.BitMatrix.Access.{bit, IsSized, test_lem}
use noelle_public.BitMatrix.Cells.{test-resize}
use noelle_public.BitMatrix.Walk.{Walk}
use noelle_public.BitMatrix.Closure.{transitive_closure_correct}
use noelle_public.Dg.Node.{get_src, get_dst}
use noelle_public.Dg.Query.{num_nodes}
use noelle_public.Dg.Invariant.{IsValid}
use noelle_public.Dg.Values.{values}
use noelle_public.Dg.Chain.{Chain}
use noelle_public.Sccdag.State.{Sccdag}
use noelle_public.Sccdag.Order.{compute_reachability_among_sccs, ordered_before, populate}
use noelle_public.Sccdag.Numbering.{IsNumbering, number_sccs_lem}
use noelle_public.Sccdag.Reported.{Reported, populate_lem}
use native.Mathlib.Nat.{zero-add}
use noelle_public.Prelude.{
  ℕ, ◌+◌, ◌*◌, ◌%◌, ◌^◌, ◌<◌, ◌≡◌, refl, ◌∙◌, ap, ◌↔◌, inl, inr, Bool, true, false, none, some,
  List, length, has, subst, arith, ◌>>=◌, ltb, ◌&&◌, if◌then◌else◌,
}
use noelle_public.Sccdag.Reachability.{edge-IsIndexed, to_chain, of_chain}

root_lt : (n : ℕ) → n * n < 2 ^ 31 → n < u32
root_lt n h = grind arith

test-inside :
    (B : BitVector) (c : BitMatrix B) (a b : ℕ)
    → a < c.n
    → b < c.n
    → (x : Bool) × (test B c a b ≡ some x)
unfolding test idx
test-inside B c a b la lb = (B.get c.bv ((a * c.n + b) % u32), ground arith)

-- What the order of an SCCDAG has to say of two SCCs of it.
abbrev pub Orders : (B : BitVector) → Sccdag B → Type 0
Orders B d =
    (s t : ℕ)
    → has s (values d.graph d.graph.all_nodes) ≡ true
    → has t (values d.graph d.graph.all_nodes) ≡ true
    → (b : Bool) × (ordered_before B d s t ≡ some b)
      × ((b ≡ true) ↔ Chain d.graph (get_src d.graph) (get_dst d.graph) s t)

module _ (B : BitVector) (d : Sccdag B) (v : IsValid d.graph)
    (small : num_nodes d.graph * num_nodes d.graph < 2 ^ 31) where
  abbrev size : ℕ
  size = length d.graph.all_nodes

  -- The bits of the matrix after all edges are reported.
  reported_lem :
      (m : List (ℕ × ℕ))
      → IsNumbering (values d.graph d.graph.all_nodes) 0 size d.scc_indexes m
      → (r : BitMatrix B) × (populate B d.graph d.graph.all_edges (resize B d.ordered size) m
          ≡ some (r, m))
        × (r.n ≡ size)
        × IsSized B r
        × ((a b : ℕ)
            → a < size
            → b < size
            → (bit B r a b ≡ true) ↔ Reported d.graph m d.graph.all_edges a b)
  unfolding num_nodes resize
  reported_lem m nums =
      let (sized, cells) = test-resize B d.ordered size small in
      let (r, run, same, sized', law) =
        populate_lem B d.graph m d.graph.all_edges (resize B d.ordered size) sized
          (edge-IsIndexed B d.graph v m size nums.given nums.distinct) in
      (
        r,
        run,
        same,
        sized',
        λ a b la lb. (
          λ e. elim ((law a b lb).0 e) [
            | inl old ↦ absurd (cc (old, clear_bit sized cells a b la lb))
            | inr x ↦ x
          ],
          λ x. (law a b lb).1 (inr x),
        ),
      )
    where
      clear_bit :
          IsSized B (resize B d.ordered size)
          → ((a b : ℕ)
              → test B (resize B d.ordered size) a b
                ≡ (if ltb a size && ltb b size then some false else none))
          → (a b : ℕ) → a < size
          → b < size
          → bit B (resize B d.ordered size) a b ≡ false
      clear_bit sized cells a b la lb =
          ground (arith, cells a b, test_lem B (resize B d.ordered size) a b sized la lb)

  order_lem :
      (m : List (ℕ × ℕ)) (r c : BitMatrix B)
      → IsNumbering (values d.graph d.graph.all_nodes) 0 size d.scc_indexes m
      → r.n ≡ size
      → ((a b : ℕ)
          → a < size
          → b < size
          → (bit B r a b ≡ true) ↔ Reported d.graph m d.graph.all_edges a b)
      → c.n ≡ r.n
      → ((a b : ℕ) → a < r.n → b < r.n → (test B c a b ≡ some true) ↔ Walk B r a b)
      → Orders B (record d { ordered = c; ordered_dirty = false; scc_indexes = m })
  unfolding ordered_before
  order_lem m r c nums same bits same_c law s t in_s in_t =
      let (i, at_s, _, li) = nums.given s in_s in
      let (j, at_t, _, lj) = nums.given t in_t in
      let ki : i < r.n = omega arith in
      let kj : j < r.n = omega arith in
      let (x, read) = test-inside B c i j (omega arith) (omega arith) in
      (
        x,
        rw (at_s, ◌>>=◌) (rw (at_t, ◌>>=◌) read),
        (
          λ is.
              let walk = (law i j ki kj).0 (read ∙ ap some is) in
              let (u, at_u, in_u, chain) =
                to_chain B d.graph v m size nums.given nums.distinct r same bits s i j in_s at_s
                  walk in
              subst (λ z. Chain d.graph (get_src d.graph) (get_dst d.graph) s z)
                (nums.distinct u t j in_u in_t at_u at_t) chain,
          λ chain.
              let (k, at_k, _, walk) =
                of_chain B d.graph v m size nums.given nums.distinct r same bits s i t at_s li
                  chain in
              let is_j : k ≡ j = cc (at_k, at_t) in
              cc (read, (law i j ki kj).1 (subst (λ z. Walk B r i z) is_j walk)),
        ),
      )

  -- For a valid SCCDAG of N SCCs, where N * N is below 2^31, the order is computed: no assertion
  -- fails, the loops end, and the graph stays as it is. Then orderedBefore answers for any two SCCs of
  -- it, and says yes exactly when a chain of at least one dependence leads from the first to the second.
  pub compute_reachability_among_sccs_lem :
      (d' : Sccdag B) × (compute_reachability_among_sccs B d ≡ some d')
      × (d'.graph ≡ d.graph)
      × Orders B d'
  unfolding compute_reachability_among_sccs num_nodes
  compute_reachability_among_sccs_lem =
      let fits = root_lt size small in
      let (m, numbered, nums₀) =
        number_sccs_lem d.graph d.graph.all_nodes 0 d.scc_indexes v.node_lives (omega arith) in
      let nums =
        subst (λ h. IsNumbering (values d.graph d.graph.all_nodes) 0 h d.scc_indexes m)
          (zero-add size) nums₀ in
      let (r, populated, same, sized, bits) = reported_lem m nums in
      let (c, closed, same_c, law) = transitive_closure_correct B r sized in
      let whole : size % u32 ≡ size = omega arith in
      (
        record d { ordered = c; ordered_dirty = false; scc_indexes = m },
        rw (numbered, ◌>>=◌) (rw whole (rw (populated, ◌>>=◌) (rw (closed, ◌>>=◌) refl))),
        refl,
        order_lem m r c nums same bits same_c law,
      )
