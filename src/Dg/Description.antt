-- ===== src/Dg/Description.antt =====
-- What an edge of a graph of src/core/dg says, without addresses: kind, flag and the values it joins.
use noelle_public.Dg.Store.{Dg, Edge, DependenceKind}
use noelle_public.Dg.Node.{get_src, get_dst}
use noelle_public.Dg.Invariant.{IsValid, Holds, starts, ends}
use noelle_public.Dg.Joining.{Grows, Joins}
use noelle_public.Prelude.{
  ℕ, ◌≡◌, refl, sym, ◌∙◌, ap, true, Bool, Option, some, List, [], ◌∷◌, map, has, has-cons, ==_refl,
  ◌>>=◌, arith, subst, insert-new,
}

unfoldable pub describe : Dg → ℕ → Option (DependenceKind × Bool × ℕ × ℕ)
describe g e = do
  x ← g.edges e
  s ← g.nodes x.from
  t ← g.nodes x.to
  some (x.kind, x.loop_carried, s.the_t, t.the_t)

describe_at :
    (g : Dg) (e : ℕ) (x : Edge) (s t : ℕ)
    → g.edges e ≡ some x
    → Holds g s (some x.from)
    → Holds g t (some x.to)
    → describe g e ≡ some (x.kind, x.loop_carried, s, t)
unfolding describe
describe_at g e x s t at_e (_, (n, at_p, is_s)) (_, (m, at_q, is_t)) =
    rw (at_e, ◌>>=◌) (rw (at_p, ◌>>=◌) (rw (at_q, ◌>>=◌) (rw (is_s, is_t) refl)))

-- An edge of a valid graph has an end at a node for each of two values.
pub ends_hold :
    (g : Dg) (e : ℕ)
    → IsValid g
    → has e g.all_edges ≡ true
    → (x : Edge) × (s : ℕ) × (t : ℕ) × (g.edges e ≡ some x)
      × Holds g s (some x.from)
      × Holds g t (some x.to)
ends_hold g e v member =
    let (x, at_e) = v.edge_lives e member in
    let from_p : starts (g.edges e) x.from ≡ true = rw at_e (==_refl x.from) in
    let to_q : ends (g.edges e) x.to ≡ true = rw at_e (==_refl x.to) in
    let in_p : has x.from g.all_nodes ≡ true = ground (arith, v.outgoing x.from e) in
    let in_q : has x.to g.all_nodes ≡ true = ground (arith, v.incoming x.to e) in
    let (n, at_p) = v.node_lives x.from in_p in
    let (m, at_q) = v.node_lives x.to in_q in
    (x, n.the_t, m.the_t, at_e, (in_p, (n, at_p, refl)), (in_q, (m, at_q, refl)))

-- A graph that grows says the same of its old edges.
pub describe_kept :
    (g g' : Dg) (e : ℕ)
    → IsValid g
    → Grows g g'
    → has e g.all_edges ≡ true
    → describe g' e ≡ describe g e
describe_kept g g' e v grows member =
    let (x, s, t, at_e, from_s, to_t) = ends_hold g e v member in
    describe_at g' e x s t (grows.edges_kept e member ∙ at_e)
      (grows.nodes_kept s (some x.from) from_s) (grows.nodes_kept t (some x.to) to_t)
    ∙ sym (describe_at g e x s t at_e from_s to_t)

pub map-describe_kept :
    (g g' : Dg) (es : List ℕ)
    → IsValid g
    → Grows g g'
    → ((e : ℕ) → has e es ≡ true → has e g.all_edges ≡ true)
    → map (describe g') es ≡ map (describe g) es
map-describe_kept g g' [] v grows inside = refl
map-describe_kept g g' (e ∷ es) v grows inside =
    let here =
      describe_kept g g' e v grows (inside e (ground (arith, has-cons e e es, ==_refl e))) in
    let rest =
      map-describe_kept g g' es v grows (λ d l. inside d (ground (arith, has-cons d e es))) in
    rw (here, rest) refl

-- A new edge joins the two values it was made for.
pub describe_joined :
    (g g' : Dg) (a b : ℕ) (make : ℕ → ℕ → Edge) (x : Edge)
    → (j : Joins g a b make g') → make j.p j.q ≡ x
    → x.from ≡ j.p
    → x.to ≡ j.q
    → describe g' g.next_edge ≡ some (x.kind, x.loop_carried, a, b)
describe_joined g g' a b make x j is_x from_p to_q =
    describe_at g' g.next_edge x a b (j.made ∙ ap some is_x)
      (subst (λ z. Holds g' a (some z)) (sym from_p) j.holds_a)
      (subst (λ z. Holds g' b (some z)) (sym to_q) j.holds_b)

-- What the description says of the ends is what getSrc and getDst say.
pub describe_ends :
    (g : Dg) (e : ℕ)
    → IsValid g
    → has e g.all_edges ≡ true
    → (x : Edge) × (s : ℕ) × (t : ℕ) × (g.edges e ≡ some x)
      × (get_src g e ≡ some s)
      × (get_dst g e ≡ some t)
      × (describe g e ≡ some (x.kind, x.loop_carried, s, t))
unfolding get_src get_dst
describe_ends g e v member =
    let (x, s, t, at_e, (in_p, (n, at_p, is_s)), (in_q, (m, at_q, is_t))) =
      ends_hold g e v member in
    (
      x,
      s,
      t,
      at_e,
      rw (at_e, ◌>>=◌) (rw (at_p, ◌>>=◌) (ap some is_s)),
      rw (at_e, ◌>>=◌) (rw (at_q, ◌>>=◌) (ap some is_t)),
      describe_at g e x s t at_e (in_p, (n, at_p, is_s)) (in_q, (m, at_q, is_t)),
    )

-- A graph with one edge more says one thing more.
pub map-describe_joined :
    (g g' : Dg) (a b : ℕ) (make : ℕ → ℕ → Edge)
    → IsValid g
    → Joins g a b make g'
    → map (describe g') g'.all_edges ≡ describe g' g.next_edge ∷ map (describe g) g.all_edges
map-describe_joined g g' a b make v j =
    ap (λ es. map (describe g') es) (j.added ∙ insert-new g.next_edge g.all_edges j.fresh)
    ∙ ap (λ ds. describe g' g.next_edge ∷ ds)
        (map-describe_kept g g' g.all_edges v j.grows (λ e l. l))
