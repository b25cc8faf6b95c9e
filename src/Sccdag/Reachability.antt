-- ===== src/Sccdag/Reachability.antt =====
-- computeReachabilityAmongSCCs of SCCDAG.cpp: the walks of its bit matrix are the chains of the graph.
use noelle_public.BitVector.{BitVector}
use noelle_public.BitMatrix.{BitMatrix}
use noelle_public.BitMatrix.Access.{bit}
use noelle_public.BitMatrix.Walk.{Walk, first, onward}
use noelle_public.Dg.Store.{Dg}
use noelle_public.Dg.Node.{get_src, get_dst}
use noelle_public.Dg.Invariant.{IsValid}
use noelle_public.Dg.Values.{values}
use noelle_public.Dg.Chain.{Chain, link, onto}
use noelle_public.Dg.Ends.{ends_of_edge, in_values}
use noelle_public.Sccdag.Reported.{Reported, IsIndexed}
use noelle_public.Prelude.{ℕ, ◌≤◌, ◌<◌, ◌≡◌, sym, ◌↔◌, true, some, List, has, lookup, subst, arith}

module _ (B : BitVector) (g : Dg) (v : IsValid g) (m : List (ℕ × ℕ)) (n : ℕ)
    (numbers : (s : ℕ)
      → has s (values g g.all_nodes) ≡ true
      → (i : ℕ) × (lookup s m ≡ some i) × (0 ≤ i) × (i < n))
    (distinct : (s t i : ℕ)
      → has s (values g g.all_nodes) ≡ true
      → has t (values g g.all_nodes) ≡ true
      → lookup s m ≡ some i
      → lookup t m ≡ some i
      → s ≡ t) where
  pub edge-IsIndexed : (e : ℕ) → has e g.all_edges ≡ true → IsIndexed B g m n e
  edge-IsIndexed e member =
      let (p, x, q, y, (in_p, at_p, _, src), (in_q, at_q, _, dst)) = ends_of_edge g v e member in
      let (i, at_i, _, li) = numbers x.the_t (in_values g v p x in_p at_p) in
      let (j, at_j, _, lj) = numbers y.the_t (in_values g v q y in_q at_q) in
      (x.the_t, y.the_t, i, j, src, dst, at_i, at_j, li, lj)

  -- The two ends of a reported edge are SCCs of the graph.
  ends_in :
      (a b : ℕ) (x : Reported g m g.all_edges a b)
      → (has x.early (values g g.all_nodes) ≡ true) × (has x.late (values g g.all_nodes) ≡ true)
  ends_in a b x =
      let (p, k, q, l, (in_p, at_p, _, src), (in_q, at_q, _, dst)) =
        ends_of_edge g v x.edge x.listed in
      let is_p : k.the_t ≡ x.early = cc (src, x.src) in
      let is_q : l.the_t ≡ x.late = cc (dst, x.dst) in
      (
        subst (λ z. has z (values g g.all_nodes) ≡ true) is_p (in_values g v p k in_p at_p),
        subst (λ z. has z (values g g.all_nodes) ≡ true) is_q (in_values g v q l in_q at_q),
      )

  module _ (r : BitMatrix B) (same : r.n ≡ n)
      (bits : (a b : ℕ) → a < n → b < n → (bit B r a b ≡ true) ↔ Reported g m g.all_edges a b) where
    index_lt : (s a : ℕ) → has s (values g g.all_nodes) ≡ true → lookup s m ≡ some a → a < n
    index_lt s a in_s at_s = let (i, at_i, _, l) = numbers s in_s in ground arith

    -- A walk of the matrix from the index of an SCC leads to the index of an SCC at the end of a chain.
    pub to_chain :
        (s a b : ℕ)
        → has s (values g g.all_nodes) ≡ true
        → lookup s m ≡ some a
        → Walk B r a b
        → (t : ℕ) × (lookup t m ≡ some b)
          × (has t (values g g.all_nodes) ≡ true)
          × Chain g (get_src g) (get_dst g) s t
    to_chain s a b in_s at_s (first l e) =
        let x = (bits a b (index_lt s a in_s at_s) (subst (λ z. b < z) same l)).0 e in
        let (in_early, in_late) = ends_in a b x in
        let is_s : x.early ≡ s = distinct x.early s a in_early in_s x.early_index at_s in
        (
          x.late,
          x.late_index,
          in_late,
          link x.edge x.listed (subst (λ z. get_src g x.edge ≡ some z) is_s x.src) x.dst,
        )
    to_chain s a c in_s at_s (onward {b} w l e) =
        let (t, at_t, in_t, chain) = to_chain s a b in_s at_s w in
        let x = (bits b c (index_lt t b in_t at_t) (subst (λ z. c < z) same l)).0 e in
        let (in_early, in_late) = ends_in b c x in
        let is_t : x.early ≡ t = distinct x.early t b in_early in_t x.early_index at_t in
        (
          x.late,
          x.late_index,
          in_late,
          onto x.edge chain x.listed (subst (λ z. get_src g x.edge ≡ some z) is_t x.src) x.dst,
        )

    -- An edge is a bit between the indexes of its ends.
    bit_of_edge :
        (e s t a b : ℕ)
        → has e g.all_edges ≡ true
        → get_src g e ≡ some s
        → get_dst g e ≡ some t
        → lookup s m ≡ some a
        → lookup t m ≡ some b
        → a < n
        → b < n
        → bit B r a b ≡ true
    bit_of_edge e s t a b member src dst at_s at_t k l = (bits a b k l).1 (record {
      edge = e;
      early = s;
      late = t;
      listed = member;
      src = src;
      dst = dst;
      early_index = at_s;
      late_index = at_t;
    })

    pub of_chain :
        (s a t : ℕ)
        → lookup s m ≡ some a
        → a < n
        → Chain g (get_src g) (get_dst g) s t
        → (b : ℕ) × (lookup t m ≡ some b) × (has t (values g g.all_nodes) ≡ true) × Walk B r a b
    of_chain s a t at_s k (link e member src dst) =
        let (_, _, q, y, _, (in_q, at_q, _, dst')) = ends_of_edge g v e member in
        let is_t : y.the_t ≡ t = cc (dst, dst') in
        let in_t =
          subst (λ z. has z (values g g.all_nodes) ≡ true) is_t (in_values g v q y in_q at_q) in
        let (b, at_t, _, l) = numbers t in_t in
        (
          b,
          at_t,
          in_t,
          first (subst (λ z. b < z) (sym same) l)
              (bit_of_edge e s t a b member src dst at_s at_t k l),
        )
    of_chain s a u at_s k (onto {t} e chain member src dst) =
        let (b, at_t, in_t, w) = of_chain s a t at_s k chain in
        let (_, _, q, y, _, (in_q, at_q, _, dst')) = ends_of_edge g v e member in
        let is_u : y.the_t ≡ u = cc (dst, dst') in
        let in_u =
          subst (λ z. has z (values g g.all_nodes) ≡ true) is_u (in_values g v q y in_q at_q) in
        let (c, at_u, _, l) = numbers u in_u in
        (
          c,
          at_u,
          in_u,
          onward w (subst (λ z. c < z) (sym same) l)
              (bit_of_edge e t u b c member src dst at_t at_u (index_lt t b in_t at_t) l),
        )
