-- ===== src/Sccdag/Owners.antt =====
-- SCCDAG.cpp: after markValuesInSCC, sccOfValue finds the SCC that has a value inside.
use noelle_public.BitVector.{BitVector}
use noelle_public.Dg.Store.{Dg, Node, NodeMap, find, put, find-put}
use noelle_public.Dg.Build.{is_internal}
use noelle_public.Sccdag.State.{Sccdag}
use noelle_public.Sccdag.Marks.{put_values, mark_nodes, mark_values_in_scc, scc_of_value}
use noelle_public.Prelude.{
  ℕ, ◌≡◌, refl, ◌∙◌, ◌↔◌, ◌⊎◌, inl, inr, Bool, true, false, Option, none, some, List, [], ◌∷◌, has,
  has-cons, has-nil, ◌==◌, ==_refl, eq_of_==, if◌then◌else◌, Bool-cases, subst, arith, ◌>>=◌,
}

abbrev pub is_key : ℕ → NodeMap → Bool
is_key v m = elim (find v m) [ none ↦ false | some r ↦ true ]

-- Every value of the list of pairs then leads to node p.
find-put_values :
    (p v : ℕ) (pairs m : NodeMap)
    → find v (put_values p pairs m) ≡ (if is_key v pairs then some (some p) else find v m)
unfolding put_values find
find-put_values p v [] m = refl
find-put_values p v ((t, r) ∷ pairs) m = elim (Bool-cases (is_key v pairs)) [
  | inl inside ↦
      find-put_values p v pairs (put t (some p) m) ∙ ground (arith, find-put t v (some p) m)
  | inr outside ↦
      find-put_values p v pairs (put t (some p) m) ∙ ground (arith, find-put t v (some p) m)
]

module _ (g : Dg) (sccs : ℕ → Option Dg) where
  -- The SCC at node p has value v inside.
  pub record Owns (p v : ℕ) : Type 0 where
    pub node : Node
    pub scc : Dg
    pub at_p : g.nodes p ≡ some node
    pub at_scc : sccs node.the_t ≡ some scc
    pub inside : is_internal scc v ≡ true

  abbrev pub Lives : ℕ → Type 0
  Lives p = (n : Node) × (s : Dg) × (g.nodes p ≡ some n) × (sccs n.the_t ≡ some s)

  pub not_owned :
      (p v : ℕ) (n : Node) (s : Dg)
      → g.nodes p ≡ some n
      → sccs n.the_t ≡ some s
      → is_internal s v ≡ false
      → Owns p v
      → ⊥
  not_owned p v n s at_p at_scc outside o =
      let is_n : o.node ≡ n = cc (at_p, o.at_p) in
      let at_o = subst (λ z. sccs z.the_t ≡ some o.scc) is_n o.at_scc in
      let is_s : o.scc ≡ s = cc (at_scc, at_o) in
      cc (outside, subst (λ z. is_internal z v ≡ true) is_s o.inside)

  -- What the map says of a value: what it said, or a node that has it inside.
  abbrev Found : List ℕ → NodeMap → NodeMap → ℕ → Type 0
  Found ps m m' v =
      ((find v m' ≡ find v m) × ((p : ℕ) → has p ps ≡ true → Owns p v → ⊥))
      ⊎ ((p : ℕ) × (has p ps ≡ true) × Owns p v × (find v m' ≡ some (some p)))

  mark_nodes_lem :
      (ps : List ℕ) (m : NodeMap)
      → ((p : ℕ) → has p ps ≡ true → Lives p)
      → (m' : NodeMap) × (mark_nodes g sccs ps m ≡ some m') × ((v : ℕ) → Found ps m m' v)
  unfolding mark_nodes is_internal
  mark_nodes_lem [] m live = (m, refl, λ v. inl (refl, λ p e. absurd (cc (has-nil p, e))))
  mark_nodes_lem (p ∷ ps) m live =
      let (n, s, at_p, at_scc) = live p (ground (arith, has-cons p p ps, ==_refl p)) in
      let (m', run, found) =
        mark_nodes_lem ps (put_values p s.internal m)
          (λ q e. live q (ground (arith, has-cons q p ps))) in
      (
        m',
        rw (at_p, ◌>>=◌) (rw (at_scc, ◌>>=◌) run),
        λ v. elim (found v) [
          | inr (q, in_ps, owns, at_v) ↦ inr (q, ground (arith, has-cons q p ps), owns, at_v)
          | inl (same, nobody) ↦ elim (Bool-cases (is_internal s v)) [
            | inl inside ↦ inr (
              p,
              ground (arith, has-cons p p ps, ==_refl p),
              record { node = n; scc = s; at_p = at_p; at_scc = at_scc; inside = inside },
              same ∙ (find-put_values p v s.internal m ∙ rw inside refl),
            )
            | inr outside ↦ inl (
              same ∙ (find-put_values p v s.internal m ∙ rw outside refl),
              λ q e owns. elim (Bool-cases (q == p)) [
                | inl here ↦
                    not_owned p v n s at_p at_scc outside
                      (subst (λ z. Owns z v) (eq_of_== q p here) owns)
                | inr other ↦ nobody q (ground (arith, has-cons q p ps)) owns
              ],
            )
          ]
        ],
      )

module _ (B : BitVector) (d : Sccdag B)
    (live : (p : ℕ) → has p d.graph.all_nodes ≡ true → Lives d.graph d.sccs p)
    (apart : (p q v : ℕ)
      → has p d.graph.all_nodes ≡ true
      → has q d.graph.all_nodes ≡ true
      → Owns d.graph d.sccs p v
      → Owns d.graph d.sccs q v
      → p ≡ q) where
  found_node :
      (m : NodeMap) (p v : ℕ) (o : Owns d.graph d.sccs p v)
      → find v m ≡ some (some p)
      → scc_of_value B (record d { value_to_node = m }) v ≡ some (some o.node.the_t)
  unfolding scc_of_value
  found_node m p v o at_v = rw (at_v, scc_of_value) (rw (o.at_p, ◌>>=◌) refl)

  found_none :
      (m : NodeMap) (v : ℕ)
      → find v m ≡ none
      → scc_of_value B (record d { value_to_node = m }) v ≡ some none
  unfolding scc_of_value
  found_none m v at_v = rw (at_v, scc_of_value) refl

  -- In an SCCDAG whose nodes lead to SCCs and where no value is inside two SCCs, markValuesInSCC meets
  -- nothing deleted and keeps the graph; sccOfValue of a value then answers the SCC of the node that
  -- has it inside, and null exactly when there is none.
  pub mark_values_in_scc_lem :
      (d' : Sccdag B) × (mark_values_in_scc B d ≡ some d')
      × (d'.graph ≡ d.graph)
      × ((p v : ℕ)
          → has p d.graph.all_nodes ≡ true
          → (o : Owns d.graph d.sccs p v) → scc_of_value B d' v ≡ some (some o.node.the_t))
      × ((v : ℕ)
          → (scc_of_value B d' v ≡ some none)
            ↔ ((p : ℕ) → has p d.graph.all_nodes ≡ true → Owns d.graph d.sccs p v → ⊥))
  unfolding mark_values_in_scc find
  mark_values_in_scc_lem =
      let (m, run, found) = mark_nodes_lem d.graph d.sccs d.graph.all_nodes [] live in
      (
        record d { value_to_node = m },
        rw (run, ◌>>=◌) refl,
        refl,
        λ p v in_p o. elim (found v) [
          | inl (_, nobody) ↦ absurd (nobody p in_p o)
          | inr (q, in_q, o', at_v) ↦
              let same = apart q p v in_q in_p o' o in
              found_node m p v o (subst (λ z. find v m ≡ some (some z)) same at_v)
        ],
        λ v. elim (found v) [
          | inl (same, nobody) ↦ (λ e. nobody, λ f. found_none m v same)
          | inr (q, in_q, o', at_v) ↦
              (λ e. absurd (cc (e, found_node m q v o' at_v)), λ nobody. absurd (nobody q in_q o'))
        ],
      )
