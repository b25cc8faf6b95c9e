-- ===== src/Sccdag/Stale.antt =====
-- SCCDAG.cpp: the order between SCCs after a merge.
use noelle_public.BitVector.{BitVector}
use noelle_public.Sccdag.State.{Sccdag}
use noelle_public.Dg.Store.{update}
use noelle_public.Dg.Build.{add_node}
use noelle_public.Sccdag.Scc.{new_scc}
use noelle_public.Sccdag.Marks.{
  mark_nodes, mark_edges_of, merge_nodes, remove_nodes, mark_values_in_scc,
  mark_edges_and_sub_edges, merge_sccs,
}
use noelle_public.Sccdag.Order.{ordered_before, get_scc_index}
use noelle_public.Prelude.{
  ℕ, ◌+◌, [], ◌≤◌, ◌≡◌, refl, ◌∙◌, ap, Bool, true, false, none, some, List, length, lookup, ltb,
  arith, >>=-eq-some, ◌>>=◌, subst, Bool-cases, inl, inr,
}

module _ (B : BitVector) where
  -- The fields that keep the order.
  abbrev SameOrder : Sccdag B → Sccdag B → Type 0
  SameOrder d d' =
      (d'.scc_indexes ≡ d.scc_indexes)
      × (d'.ordered ≡ d.ordered)
      × (d'.ordered_dirty ≡ d.ordered_dirty)

  kept :
      (d k d' : Sccdag B)
      → k.scc_indexes ≡ d.scc_indexes
      → k.ordered ≡ d.ordered
      → k.ordered_dirty ≡ d.ordered_dirty
      → some k ≡ some d'
      → SameOrder d d'
  kept d k d' a b c e = let same : k ≡ d' = cc e in subst (SameOrder d) same (a, b, c)

  mark_values_in_scc-SameOrder :
      (d d' : Sccdag B) → mark_values_in_scc B d ≡ some d' → SameOrder d d'
  unfolding mark_values_in_scc
  mark_values_in_scc-SameOrder d d' e =
      let (m, _, e') = >>=-eq-some (mark_nodes d.graph d.sccs d.graph.all_nodes []) _ e in
      kept d (record d { value_to_node = m }) d' refl refl refl e'

  mark_edges_and_sub_edges-SameOrder :
      (d d' : Sccdag B) → mark_edges_and_sub_edges B d ≡ some d' → SameOrder d d'
  unfolding mark_edges_and_sub_edges
  mark_edges_and_sub_edges-SameOrder d d' e =
      let ((g, m, cleared), _, e') =
        >>=-eq-some (mark_edges_of d.sccs d.graph.all_nodes (d.graph, d.value_to_node, [])) _ e in
      kept d (record d { graph = g; value_to_node = m }) d' refl refl refl e'

  merge_sccs-SameOrder :
      (carried : ℕ → Bool) (d d' : Sccdag B) (set : List ℕ)
      → 2 ≤ length set
      → merge_sccs B carried d set ≡ some d'
      → SameOrder d d'
  unfolding merge_sccs
  merge_sccs-SameOrder carried d d' set two e =
      let many : ltb (length set) 2 ≡ false = ground arith in
      let (nodes, _, e₁) = >>=-eq-some (merge_nodes d.graph d.sccs set) _ (rw many at e) in
      let (scc, _, e₂) = >>=-eq-some (new_scc carried d.sccs nodes) _ e₁ in
      let (g, _, e₃) = >>=-eq-some (remove_nodes (add_node d.graph d.next_scc true).0 set) _ e₂ in
      let before = record d {
        graph = g;
        sccs = update d.sccs d.next_scc (some scc);
        next_scc = d.next_scc + 1;
      } in
      let (d₁, marked, e₄) = >>=-eq-some (mark_values_in_scc B before) _ e₃ in
      let (i₁, o₁, f₁) = mark_values_in_scc-SameOrder before d₁ marked in
      let (i₂, o₂, f₂) = mark_edges_and_sub_edges-SameOrder d₁ d' e₄ in (i₂ ∙ i₁, o₂ ∙ o₁, f₂ ∙ f₁)

  -- A merge of at least two SCCs leaves the order as it was, and does not mark it as out of date: where
  -- the address of the new SCC has no index yet, it has none after the merge, and orderedBefore of it
  -- passes the assertion and dereferences the end of the map.
  pub merge_sccs_lem :
      (carried : ℕ → Bool) (d d' : Sccdag B) (set : List ℕ)
      → 2 ≤ length set
      → merge_sccs B carried d set ≡ some d'
      → lookup d.next_scc d.scc_indexes ≡ none
      → (d'.ordered_dirty ≡ d.ordered_dirty)
        × (get_scc_index B d' d.next_scc ≡ none)
        × ((late : ℕ) → ordered_before B d' d.next_scc late ≡ none)
  unfolding get_scc_index ordered_before
  merge_sccs_lem carried d d' set two e new =
      let (indexes, _, dirty) = merge_sccs-SameOrder carried d d' set two e in
      let missing = ap (lookup d.next_scc) indexes ∙ new in
      (
        dirty,
        missing,
        λ late. elim (Bool-cases d'.ordered_dirty) [
          | inl on ↦ rw on refl
          | inr off ↦ rw off (rw (missing, ◌>>=◌) refl)
        ],
      )
