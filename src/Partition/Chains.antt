-- ===== src/Partition/Chains.antt =====
-- The search of SCCDAGPartition.cpp in one direction finds the ends of the walks of a valid graph.
use noelle_public.Dg.Store.{Dg, Node}
use noelle_public.Dg.Build.{fetch_node}
use noelle_public.Dg.Invariant.{IsValid}
use noelle_public.Partition.Partitioner.{sets_at, collect}
use noelle_public.Partition.Collect.{Reaches, one, more, search_lem}
use noelle_public.Dg.Values.{IsRegistered, value_at, values, length-values, of_values}
use noelle_public.Dg.Chain.{Chain, link, onto}
use noelle_public.Partition.Reach.{sets_at_lem}
use noelle_public.Prelude.{
  ℕ, ◌+◌, ◌≡◌, refl, sym, ◌∙◌, ap, ◌↔◌, true, Option, none, some, List, [], ◌∷◌, length, has, subst,
}

-- One of the two directions: `listed` are the edges of a node, from their end `near` to `far`.
module _ (g : Dg) (reg : IsRegistered g) (v : IsValid g) (near far : ℕ → Option ℕ)
    (listed : Node → List ℕ) (next : Dg → ℕ → Option (Dg × List ℕ))
    (edge_of : (p e : ℕ) (n : Node)
      → has p g.all_nodes ≡ true
      → g.nodes p ≡ some n
      → has e (listed n) ≡ true
      → (has e g.all_edges ≡ true)
        × (near e ≡ some n.the_t)
        × ((t : ℕ) × (far e ≡ some t) × (has t (values g g.all_nodes) ≡ true)))
    (node_of : (e s : ℕ)
      → has e g.all_edges ≡ true
      → near e ≡ some s
      → (p : ℕ) × (n : Node) × (has p g.all_nodes ≡ true)
        × (g.nodes p ≡ some n)
        × (n.the_t ≡ s)
        × (has e (listed n) ≡ true))
    (next_eq : (s p : ℕ) (n : Node) (ss : List ℕ)
      → fetch_node g s ≡ (g, some p)
      → g.nodes p ≡ some n
      → sets_at far (listed n) ≡ some ss
      → next g s ≡ some (g, ss)) where
  abbrev Steps : ℕ → ℕ → Type 0
  Steps s t = (e : ℕ) × (has e g.all_edges ≡ true) × (near e ≡ some s) × (far e ≡ some t)

  next_lem :
      (s : ℕ)
      → has s (values g g.all_nodes) ≡ true
      → (ss : List ℕ) × (next g s ≡ some (g, ss)) × ((t : ℕ) → (has t ss ≡ true) ↔ Steps s t)
  next_lem s in_us =
      let (p, in_p, at) = of_values g g.all_nodes s in_us in
      let (n, at_p) = v.node_lives p in_p in
      let is_s : n.the_t ≡ s = ap value_at (sym at_p) ∙ at in
      let (ss, run, law) =
        sets_at_lem far (listed n)
          (λ e t. let (_, _, (r, far_r, _)) = edge_of p e n in_p at_p t in (r, far_r)) in
      let fetched = subst (λ z. fetch_node g z ≡ (g, some p)) is_s (reg p n in_p at_p) in
      (
        ss,
        next_eq s p n ss fetched at_p run,
        λ t. (
          λ in_t.
              let (e, in_e, far_e) = (law t).0 in_t in
              let (member, near_e, _) = edge_of p e n in_p at_p in_e in
              (e, member, near_e ∙ ap some is_s, far_e),
          λ (e, member, near_e, far_e).
              let (q, m, in_q, at_q, is_s', in_e) = node_of e s member near_e in
              let fetched' = subst (λ z. fetch_node g z ≡ (g, some q)) is_s' (reg q m in_q at_q) in
              let same : q ≡ p = cc (ap (λ (r : Dg × Option ℕ). r.1) (sym fetched' ∙ fetched)) in
              let same_n : m ≡ n = cc (at_p, at_q, same) in
              (law t).1 (e, subst (λ z. has e (listed z) ≡ true) same_n in_e, far_e),
        ),
      )

  -- The values that `next` gives; no values where it fails.
  abbrev succ : ℕ → List ℕ
  succ s = elim (next g s) [ none ↦ [] | some r ↦ r.1 ]

  succ_lem :
      (s : ℕ)
      → has s (values g g.all_nodes) ≡ true
      → (next g s ≡ some (g, succ s)) × ((t : ℕ) → (has t (succ s) ≡ true) ↔ Steps s t)
  succ_lem s in_us =
      let (ss, run, law) = next_lem s in_us in
      let same : succ s ≡ ss = rw (run, succ) refl in
      (
        run ∙ ap (λ (z : List ℕ). some (g, z)) (sym same),
        λ t. subst (λ z. (has t z ≡ true) ↔ Steps s t) (sym same) (law t),
      )

  closed :
      (s t : ℕ)
      → has s (values g g.all_nodes) ≡ true
      → has t (succ s) ≡ true
      → has t (values g g.all_nodes) ≡ true
  closed s t in_us in_t =
      let (e, member, near_e, far_e) = ((succ_lem s in_us).1 t).0 in_t in
      let (q, m, in_q, at_q, _, in_e) = node_of e s member near_e in
      let (_, _, (r, far_r, in_r)) = edge_of q e m in_q at_q in_e in
      let same : r ≡ t = cc (far_r, far_e) in
      subst (λ z. has z (values g g.all_nodes) ≡ true) same in_r

  to_chain :
      (s t : ℕ)
      → has s (values g g.all_nodes) ≡ true
      → Reaches succ s t
      → Chain g near far s t × (has t (values g g.all_nodes) ≡ true)
  to_chain s t in_us (one in_t) =
      let (e, member, near_e, far_e) = ((succ_lem s in_us).1 t).0 in_t in
      (link e member near_e far_e, closed s t in_us in_t)
  to_chain s t in_us (more {t = u} r in_t) =
      let (c, in_u) = to_chain s u in_us r in
      let (e, member, near_e, far_e) = ((succ_lem u in_u).1 t).0 in_t in
      (onto e c member near_e far_e, closed u t in_u in_t)

  of_chain :
      (s t : ℕ)
      → has s (values g g.all_nodes) ≡ true
      → Chain g near far s t
      → Reaches succ s t × (has t (values g g.all_nodes) ≡ true)
  of_chain s t in_us (link e member near_e far_e) =
      let in_t = ((succ_lem s in_us).1 t).1 (e, member, near_e, far_e) in
      (one in_t, closed s t in_us in_t)
  of_chain s t in_us (onto {t = u} e c member near_e far_e) =
      let (r, in_u) = of_chain s u in_us c in
      let in_t = ((succ_lem u in_u).1 t).1 (e, member, near_e, far_e) in
      (more r in_t, closed u t in_u in_t)

  pub collect_chain :
      (s : ℕ)
      → has s (values g g.all_nodes) ≡ true
      → (l : List ℕ) × (collect (length g.all_nodes + 1) next g [] (s ∷ []) ≡ some (g, l))
        × ((t : ℕ) → (has t l ≡ true) ↔ Chain g near far s t)
  collect_chain s in_us =
      let (l, run, law) =
        search_lem g next succ (values g g.all_nodes) closed (λ x in_x. (succ_lem x in_x).0) s
          in_us in
      (
        l,
        subst (λ z. collect (z + 1) next g [] (s ∷ []) ≡ some (g, l)) (length-values g g.all_nodes)
            run,
        λ t. (
          λ in_l. (to_chain s t in_us ((law t).0 in_l)).0,
          λ c. (law t).1 (of_chain s t in_us c).0,
        ),
      )
