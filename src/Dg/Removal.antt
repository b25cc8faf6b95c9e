-- ===== src/Dg/Removal.antt =====
-- DGBase.hpp, removeNode: what its loops do to the heaps of a valid graph.
use mathlib.Core.Option
use noelle_public.Dg.Store.{Dg, Node, Edge}
use noelle_public.Dg.Node.{src_node, dst_node}
use noelle_public.Dg.Remove.{detach, delete_edge, delete_edges, unregister}
use noelle_public.Dg.Invariant.{IsValid, lists_out, lists_in, starts, ends}
use noelle_public.Dg.Detaching.{Alive, Thin, Thin-trans, Clean, Clean-Thin, Alive-Thin, detach_lem}
use noelle_public.Prelude.{
  ℕ, ◌≡◌, refl, inl, inr, Bool, true, false, not, ◌&&◌, Option, none, some, List, [], ◌∷◌, has,
  has-erase, if◌then◌else◌, arith, Bool-cases, eq_of_==,
}

agree :
    (a b c : Bool)
    → (a ≡ true → b ≡ true)
    → (a ≡ true → c ≡ false)
    → (c ≡ false → b ≡ true → a ≡ true)
    → a ≡ (b && not c)
agree a b c f g h = ground (arith, f, g, h)

pub delete_edges_lem :
    (g : Dg) (es : List ℕ)
    → (left : List ℕ) × (heap : ℕ → Option Edge) × (delete_edges g es
        ≡ record g { all_edges = left; edges = heap })
      × ((d : ℕ) → has d left ≡ (has d g.all_edges && not (has d es)))
      × ((d : ℕ) → heap d ≡ (if has d es then none else g.edges d))
unfolding delete_edges delete_edge has
delete_edges_lem g [] = (g.all_edges, g.edges, refl, (λ d. ground arith), λ d. refl)
delete_edges_lem g (e ∷ es) =
    let (left, heap, run, law, at) = delete_edges_lem (delete_edge g e) es in
    (
      left,
      heap,
      run,
      (λ d. ground (arith, law d, has-erase d e g.all_edges)),
      λ d. ground (arith, at d, eq_of_== d e, eq_of_== e d),
    )

module _ (g : Dg) (v : IsValid g) where
  member_Alive : (r : ℕ) → has r g.all_nodes ≡ true → Alive g (g.nodes r)
  member_Alive r in_r = (
    (λ d t. v.edge_lives d (ground (arith, v.outgoing r d))),
    λ d t. v.edge_lives d (ground (arith, v.incoming r d)),
  )

  -- The node at the other end of an edge that node p lists.
  source_ready :
      (p : ℕ) (n : Node)
      → has p g.all_nodes ≡ true
      → g.nodes p ≡ some n
      → (e : ℕ) → has e n.incoming ≡ true
      → (q : ℕ) × (k : Node) × (src_node g e ≡ some q)
        × (g.nodes q ≡ some k)
        × (has q g.all_nodes ≡ true)
  unfolding src_node
  source_ready p n in_p at_p e t =
      let in_e : has e g.all_edges ≡ true = ground (arith, v.incoming p e) in
      let (x, at_e) = v.edge_lives e in_e in
      let in_q : has x.from g.all_nodes ≡ true = ground (arith, v.outgoing x.from e) in
      let (k, at_q) = v.node_lives x.from in_q in (x.from, k, rw at_e, at_q, in_q)

  target_ready :
      (p : ℕ) (n : Node)
      → has p g.all_nodes ≡ true
      → g.nodes p ≡ some n
      → (e : ℕ) → has e n.outgoing ≡ true
      → (q : ℕ) × (k : Node) × (dst_node g e ≡ some q)
        × (g.nodes q ≡ some k)
        × (has q g.all_nodes ≡ true)
  unfolding dst_node
  target_ready p n in_p at_p e t =
      let in_e : has e g.all_edges ≡ true = ground (arith, v.outgoing p e) in
      let (x, at_e) = v.edge_lives e in_e in
      let in_q : has x.to g.all_nodes ≡ true = ground (arith, v.incoming x.to e) in
      let (k, at_q) = v.node_lives x.to in_q in (x.to, k, rw at_e, at_q, in_q)

  -- Both loops of removeNode.
  module _ (p : ℕ) (n : Node) (in_p : has p g.all_nodes ≡ true) (at_p : g.nodes p ≡ some n) where
    abbrev pub start : Dg
    start = unregister g p n.the_t

    pub record Detached (h : ℕ → Option Node) : Type 0 where
      pub thin : Thin g.edges p g.nodes h
      pub outs :
          (r d : ℕ)
          → has r g.all_nodes ≡ true
          → lists_out (h r) d ≡ (lists_out (g.nodes r) d && not (ends (g.edges d) p))
      pub ins :
          (r d : ℕ)
          → has r g.all_nodes ≡ true
          → lists_in (h r) d ≡ (lists_in (g.nodes r) d && not (starts (g.edges d) p))

    Clean-Detached :
        (h : ℕ → Option Node)
        → Thin g.edges p g.nodes h
        → ((e q : ℕ) → has e n.incoming ≡ true → src_node g e ≡ some q → Clean g.edges p (h q))
        → ((e q : ℕ) → has e n.outgoing ≡ true → dst_node g e ≡ some q → Clean g.edges p (h q))
        → Detached h
    unfolding src_node dst_node
    Clean-Detached h thin from_in from_out = record {
      thin = thin;
      outs = λ r d in_r.
          agree _ _ _ (thin.out_sub r d)
            (λ t. elim (Bool-cases (ends (g.edges d) p)) [
              | inl at ↦
                  let listed = thin.out_sub r d t in
                  let source : Option.map (λ (x : Edge). x.from) (g.edges d) ≡ some r =
                    ground (arith, v.outgoing r d) in
                  let in_list : has d n.incoming ≡ true =
                    ground (arith, v.outgoing r d, v.incoming p d) in
                  (from_in d r in_list source).no_out d t
              | inr away ↦ away
            ])
            (thin.out_kept r d);
      ins = λ r d in_r.
          agree _ _ _ (thin.in_sub r d)
            (λ t. elim (Bool-cases (starts (g.edges d) p)) [
              | inl at ↦
                  let listed = thin.in_sub r d t in
                  let target : Option.map (λ (x : Edge). x.to) (g.edges d) ≡ some r =
                    ground (arith, v.incoming r d) in
                  let in_list : has d n.outgoing ≡ true =
                    ground (arith, v.incoming r d, v.outgoing p d) in
                  (from_out d r in_list target).no_in d t
              | inr away ↦ away
            ])
            (thin.in_kept r d);
    }

    pub detached :
        (h₁ h₂ : ℕ → Option Node) × (detach src_node p start n.incoming
          ≡ some (record start { nodes = h₁ }))
        × (detach dst_node p (record start { nodes = h₁ }) n.outgoing
            ≡ some (record start { nodes = h₂ }))
        × Detached h₂
    unfolding unregister src_node dst_node
    detached =
        let (h₁, run₁, thin₁, clean₁) =
          detach_lem src_node p start n.incoming (λ h e. refl)
            (λ e t.
              let (q, k, at_e, at_q, in_q) = source_ready p n in_p at_p e t in
              (q, k, at_e, at_q, member_Alive q in_q)) in
        let (h₂, run₂, thin₂, clean₂) =
          detach_lem dst_node p (record start { nodes = h₁ }) n.outgoing (λ h e. refl)
            (λ e t.
              let (q, k, at_e, at_q, in_q) = target_ready p n in_p at_p e t in
              let (k', at_q', _) = thin₁.lives q k at_q in
              (q, k', at_e, at_q', Alive-Thin g p q h₁ thin₁ (member_Alive q in_q))) in
        (
          h₁,
          h₂,
          run₁,
          run₂,
          Clean-Detached h₂ (Thin-trans g.edges p g.nodes h₁ h₂ thin₁ thin₂)
              (λ e q t f. Clean-Thin g.edges p q h₁ h₂ thin₂ (clean₁ e q t f)) clean₂,
        )
