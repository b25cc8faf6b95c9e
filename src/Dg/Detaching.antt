-- ===== src/Dg/Detaching.antt =====
-- DGBase.hpp, removeNode: the loops that take a node out of the edge sets of its neighbours.

use noelle_public.Dg.Store.{Dg, Node, Edge, update}
use noelle_public.Dg.Node.{src_node, dst_node, drop_edges_at, remove_connected_node, at_node}
use noelle_public.Dg.Remove.{detach}
use noelle_public.Dg.Invariant.{lists_out, lists_in, starts, ends}
use noelle_public.Dg.Linking.{at_node_lem}
use noelle_public.Prelude.{
  ℕ, ◌≡◌, refl, sym, ◌∙◌, ap, inl, inr, Bool, true, false, not, ◌&&◌, Option, none, some, List, [],
  ◌∷◌, has, ◌==◌, if◌then◌else◌, arith, Bool-cases, eq_of_==, subst, ◌>>=◌,
}

abbrev pub is_at : Option ℕ → ℕ → Bool
is_at none p = false
is_at (some q) p = q == p

src-starts : (g : Dg) (e p : ℕ) → is_at (src_node g e) p ≡ starts (g.edges e) p
unfolding src_node
src-starts g e p = ground arith

dst-ends : (g : Dg) (e p : ℕ) → is_at (dst_node g e) p ≡ ends (g.edges e) p
unfolding dst_node
dst-ends g e p = ground arith

drop_edges_at_lem :
    (end : ℕ → Option ℕ) (p : ℕ) (es : List ℕ)
    → ((d : ℕ) → has d es ≡ true → (q : ℕ) × (end d ≡ some q))
    → (rest : List ℕ) × (drop_edges_at end p es ≡ some rest)
      × ((d : ℕ) → has d rest ≡ (has d es && not (is_at (end d) p)))
unfolding drop_edges_at has
drop_edges_at_lem end p [] alive = ([], refl, λ d. refl)
drop_edges_at_lem end p (e ∷ es) alive =
    let (q, at_e) = alive e (ground arith) in
    let (rest, run, law) = drop_edges_at_lem end p es (λ d t. alive d (ground arith)) in
    (
      (if q == p then rest else e ∷ rest),
      rw (at_e, ◌>>=◌) (rw run),
      λ d. ground (arith, law d, eq_of_== d e),
    )

-- The edges that a node lists are all there.
abbrev pub Alive : Dg → Option Node → Type 0
Alive g o =
    ((d : ℕ) → lists_out o d ≡ true → (x : Edge) × (g.edges d ≡ some x))
    × ((d : ℕ) → lists_in o d ≡ true → (x : Edge) × (g.edges d ≡ some x))

remove_connected_node_lem :
    (g : Dg) (p : ℕ) (k : Node)
    → Alive g (some k)
    → (k' : Node) × (remove_connected_node g p k ≡ some k')
      × (k'.the_t ≡ k.the_t)
      × ((d : ℕ) → has d k'.outgoing ≡ (has d k.outgoing && not (ends (g.edges d) p)))
      × ((d : ℕ) → has d k'.incoming ≡ (has d k.incoming && not (starts (g.edges d) p)))
unfolding remove_connected_node
remove_connected_node_lem g p k (out_alive, in_alive) =
    let (outs, run_out, law_out) =
      drop_edges_at_lem (dst_node g) p k.outgoing
        (λ d t. let (x, at_d) = out_alive d t in (x.to, unfold dst_node in rw at_d)) in
    let (ins, run_in, law_in) =
      drop_edges_at_lem (src_node g) p k.incoming
        (λ d t. let (x, at_d) = in_alive d t in (x.from, unfold src_node in rw at_d)) in
    (
      record k { outgoing = outs; incoming = ins },
      rw (run_out, ◌>>=◌) (rw run_in),
      refl,
      λ d. law_out d ∙ rw (dst-ends g d p),
      λ d. law_in d ∙ rw (src-starts g d p),
    )

-- A heap from which some edges at node p have gone, and nothing else.
pub record Thin (edges : ℕ → Option Edge) (p : ℕ) (h h' : ℕ → Option Node) : Type 0 where
  pub lives :
      (r : ℕ) (k : Node) → h r ≡ some k → (k' : Node) × (h' r ≡ some k') × (k'.the_t ≡ k.the_t)
  pub out_sub : (r d : ℕ) → lists_out (h' r) d ≡ true → lists_out (h r) d ≡ true
  pub in_sub : (r d : ℕ) → lists_in (h' r) d ≡ true → lists_in (h r) d ≡ true
  pub out_kept :
      (r d : ℕ) → ends (edges d) p ≡ false → lists_out (h r) d ≡ true → lists_out (h' r) d ≡ true
  pub in_kept :
      (r d : ℕ) → starts (edges d) p ≡ false → lists_in (h r) d ≡ true → lists_in (h' r) d ≡ true

Thin-refl : (edges : ℕ → Option Edge) (p : ℕ) (h : ℕ → Option Node) → Thin edges p h h
Thin-refl edges p h = record {
  lives = λ r k e. (k, e, refl);
  out_sub = λ r d t. t;
  in_sub = λ r d t. t;
  out_kept = λ r d u t. t;
  in_kept = λ r d u t. t;
}

pub Thin-trans :
    (edges : ℕ → Option Edge) (p : ℕ) (h h' h'' : ℕ → Option Node)
    → Thin edges p h h'
    → Thin edges p h' h''
    → Thin edges p h h''
Thin-trans edges p h h' h'' a b = record {
  lives = λ r k e.
      let (k', e', s) = a.lives r k e in let (k'', e'', s') = b.lives r k' e' in (k'', e'', s' ∙ s);
  out_sub = λ r d t. a.out_sub r d (b.out_sub r d t);
  in_sub = λ r d t. a.in_sub r d (b.in_sub r d t);
  out_kept = λ r d u t. b.out_kept r d u (a.out_kept r d u t);
  in_kept = λ r d u t. b.in_kept r d u (a.in_kept r d u t);
}

-- A node that no longer lists an edge at p.
pub record Clean (edges : ℕ → Option Edge) (p : ℕ) (o : Option Node) : Type 0 where
  pub no_out : (d : ℕ) → lists_out o d ≡ true → ends (edges d) p ≡ false
  pub no_in : (d : ℕ) → lists_in o d ≡ true → starts (edges d) p ≡ false

pub Clean-Thin :
    (edges : ℕ → Option Edge) (p r : ℕ) (h h' : ℕ → Option Node)
    → Thin edges p h h'
    → Clean edges p (h r)
    → Clean edges p (h' r)
Clean-Thin edges p r h h' thin c = record {
  no_out = λ d t. c.no_out d (thin.out_sub r d t);
  no_in = λ d t. c.no_in d (thin.in_sub r d t);
}

-- One round: the node q at the other end of an edge is cleaned.
detach_step :
    (g : Dg) (p q : ℕ) (k : Node)
    → g.nodes q ≡ some k
    → Alive g (some k)
    → (h' : ℕ → Option Node) × (at_node g q (remove_connected_node g p)
        ≡ some (record g { nodes = h' }))
      × Thin g.edges p g.nodes h'
      × Clean g.edges p (h' q)
detach_step g p q k at_q alive =
    let (k', run, same, outs, ins) = remove_connected_node_lem g p k alive in
    (
      update g.nodes q (some k'),
      at_node_lem g q k k' (remove_connected_node g p) at_q run,
      record {
        lives = λ r j e. elim (Bool-cases (q == r)) [
          | inl here ↦ (k', rw here, ground (arith, eq_of_== q r here))
          | inr other ↦ (j, rw other e, refl)
        ];
        out_sub = λ r d t. ground (arith, outs d, eq_of_== q r);
        in_sub = λ r d t. ground (arith, ins d, eq_of_== q r);
        out_kept = λ r d u t. ground (arith, outs d, eq_of_== q r);
        in_kept = λ r d u t. ground (arith, ins d, eq_of_== q r);
      },
      record { no_out = λ d t. ground (arith, outs d); no_in = λ d t. ground (arith, ins d) },
    )

pub Alive-Thin :
    (g : Dg) (p r : ℕ) (h' : ℕ → Option Node)
    → Thin g.edges p g.nodes h'
    → Alive g (g.nodes r)
    → Alive (record g { nodes = h' }) (h' r)
Alive-Thin g p r h' thin (outs, ins) =
    ((λ d t. outs d (thin.out_sub r d t)), (λ d t. ins d (thin.in_sub r d t)))

-- The whole loop: every node at the other end of one of the edges is cleaned.
pub detach_lem :
    (end : Dg → ℕ → Option ℕ) (p : ℕ) (g : Dg) (es : List ℕ)
    → ((h : ℕ → Option Node) (e : ℕ) → end (record g { nodes = h }) e ≡ end g e)
    → ((e : ℕ)
        → has e es ≡ true
        → (q : ℕ) × (k : Node) × (end g e ≡ some q) × (g.nodes q ≡ some k) × Alive g (g.nodes q))
    → (h' : ℕ → Option Node) × (detach end p g es ≡ some (record g { nodes = h' }))
      × Thin g.edges p g.nodes h'
      × ((e q : ℕ) → has e es ≡ true → end g e ≡ some q → Clean g.edges p (h' q))
unfolding detach has
detach_lem end p g [] same ready = (g.nodes, refl, Thin-refl g.edges p g.nodes, λ e q t f. cc)
detach_lem end p g (e ∷ es) same ready =
    let (q, k, at_e, at_q, alive) = ready e (ground arith) in
    let (h₁, run₁, thin₁, clean₁) = detach_step g p q k at_q (subst (Alive g) at_q alive) in
    let g₁ = record g { nodes = h₁ } in
    let (h', run, thin, clean) =
      detach_lem end p g₁ es (λ h d. same h d ∙ sym (same h₁ d))
        (λ d t.
          let (q', k', at_d, at_q', alive') = ready d (ground arith) in
          let (k'', at_q'', _) = thin₁.lives q' k' at_q' in
          (q', k'', same h₁ d ∙ at_d, at_q'', Alive-Thin g p q' h₁ thin₁ alive')) in
    (
      h',
      rw (at_e, ◌>>=◌) (rw (run₁, ◌>>=◌) run),
      Thin-trans g.edges p g.nodes h₁ h' thin₁ thin,
      λ d r t f. elim (Bool-cases (d == e)) [
        | inl here ↦
            let same_q : q ≡ r = cc (ap (end g) (eq_of_== d e here)) in
            Clean-Thin g.edges p r h₁ h' thin (subst (λ z. Clean g.edges p (h₁ z)) same_q clean₁)
        | inr other ↦ clean d r (ground arith) (same h₁ d ∙ f)
      ],
    )
