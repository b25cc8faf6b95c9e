-- ===== src/Dominators/Tests.antt =====
-- A root with two children: the theorems about src/core/dominators at work.
use noelle_public.Dominators.Forest.{
  DominatorForest, DominatorNode, dominators, dominates_node, find_nearest_common_dominator_node,
}
use noelle_public.Dominators.Invariant.{IsForest, Dominates}
use noelle_public.Dominators.Ancestors.{dominators_lem}
use noelle_public.Dominators.Nearest.{IsNearestCommon, find_nearest_common_dominator_node_lem}
use noelle_public.Dominators.Search.{dominates_node_lem}
use noelle_public.Prelude.{
  ℕ, ◌<◌, ◌≡◌, refl, ◌↔◌, ◌⊎◌, inl, inr, Bool, true, false, Option, none, some, List, [], ◌∷◌, has,
  ◌==◌, eq_of_==, if◌then◌else◌, arith, insert, ap, subst, sym, Bool-cases, has-cons, has-nil,
}

abbrev root : DominatorNode
root = record { b = 10; level = 0; parent = none; children = 1 ∷ 2 ∷ [] }

abbrev leaf : ℕ → DominatorNode
leaf bb = record { b = bb; level = 1; parent = some 0; children = [] }

abbrev heap : ℕ → Option DominatorNode
heap n =
    if n == 0
    then some root
    else if n == 1
    then some (leaf 11)
    else if n == 2
    then some (leaf 12)
    else none

abbrev fork : DominatorForest
fork = record {
  nodes = 0 ∷ 1 ∷ 2 ∷ [];
  bb_node_map = (10, 0) ∷ (11, 1) ∷ (12, 2) ∷ [];
  post = false;
  heap = heap;
  next = 3;
}

members : (n : ℕ) → has n fork.nodes ≡ true → (n ≡ 0) ⊎ ((n ≡ 1) ⊎ (n ≡ 2))
members n e =
    ground (arith, has-cons n 0 (1 ∷ 2 ∷ []), has-cons n 1 (2 ∷ []), has-cons n 2 [], has-nil n)

abbrev Up : ℕ → ℕ → DominatorNode → Type 0
Up n p x =
    (has p fork.nodes ≡ true)
    × ((y : DominatorNode) × (heap p ≡ some y) × (y.level < x.level) × (has n y.children ≡ true))

leaf-Up :
    (n bb p : ℕ) (x : DominatorNode)
    → has n root.children ≡ true
    → leaf bb ≡ x
    → x.parent ≡ some p
    → Up n p x
unfolding has
leaf-Up n bb p x listed is up =
    let at_root : 0 ≡ p = cc (ap (λ (y : DominatorNode). y.parent) is, up) in
    subst (λ q. Up n q x) at_root
      (subst (λ z. Up n 0 z) is (refl, (root, refl, omega arith, listed)))

abbrev Down : ℕ → ℕ → DominatorNode → Type 0
Down n c x =
    (has c fork.nodes ≡ true)
    × ((y : DominatorNode) × (heap c ≡ some y) × (x.level < y.level) × (y.parent ≡ some n))

root-Down : (c : ℕ) (x : DominatorNode) → root ≡ x → has c x.children ≡ true → Down 0 c x
unfolding has
root-Down c x is in_c =
    let listed = subst (λ z. has c z.children ≡ true) (sym is) in_c in
    subst (λ z. Down 0 c z) is
      (elim (Bool-cases (c == 1)) [
        | inl one ↦
            subst (λ k. Down 0 k root) (sym (eq_of_== c 1 one))
              (refl, (leaf 11, refl, omega arith, refl))
        | inr other ↦
            subst (λ k. Down 0 k root) (sym (eq_of_== c 2 (ground arith)))
              (refl, (leaf 12, refl, omega arith, refl))
      ])

leaf-Down : (n bb c : ℕ) (x : DominatorNode) → leaf bb ≡ x → has c x.children ≡ true → Down n c x
leaf-Down n bb c x is in_c =
    let listed : has c [] ≡ true = subst (λ z. has c z.children ≡ true) (sym is) in_c in
    absurd (cc (has-nil c, listed))

fork-IsForest : IsForest fork
unfolding has
fork-IsForest = record {
  lives = λ n e. elim (members n e) [
    | inl z ↦ subst (λ k. (x : DominatorNode) × (heap k ≡ some x)) (sym z) (root, refl)
    | inr (inl z) ↦ subst (λ k. (x : DominatorNode) × (heap k ≡ some x)) (sym z) (leaf 11, refl)
    | inr (inr z) ↦ subst (λ k. (x : DominatorNode) × (heap k ≡ some x)) (sym z) (leaf 12, refl)
  ];
  parent_lists = λ n p x e at_n up. elim (members n e) [
    | inl z ↦
        let is : root ≡ x = cc (subst (λ k. heap k ≡ some x) z at_n) in
        absurd (cc (ap (λ (y : DominatorNode). y.parent) is, up))
    | inr (inl z) ↦
        leaf-Up n 11 p x (subst (λ k. has k root.children ≡ true) (sym z) refl)
          (cc (subst (λ k. heap k ≡ some x) z at_n)) up
    | inr (inr z) ↦
        leaf-Up n 12 p x (subst (λ k. has k root.children ≡ true) (sym z) refl)
          (cc (subst (λ k. heap k ≡ some x) z at_n)) up
  ];
  child_points = λ n c x e at_n in_c. elim (members n e) [
    | inl z ↦
        subst (λ k. Down k c x) (sym z)
          (root-Down c x (cc (subst (λ k. heap k ≡ some x) z at_n)) in_c)
    | inr (inl z) ↦ leaf-Down n 11 c x (cc (subst (λ k. heap k ≡ some x) z at_n)) in_c
    | inr (inr z) ↦ leaf-Down n 12 c x (cc (subst (λ k. heap k ≡ some x) z at_n)) in_c
  ];
}

fork_runs :
    (dominates_node fork 0 2 ≡ some true)
    × (dominates_node fork 1 2 ≡ some false)
    × (find_nearest_common_dominator_node fork 1 2 ≡ some (some 0))
unfolding dominates_node find_nearest_common_dominator_node has insert
fork_runs = (refl, refl, refl)

in_0 : has 0 fork.nodes ≡ true
unfolding has
in_0 = refl

in_1 : has 1 fork.nodes ≡ true
unfolding has
in_1 = refl

in_2 : has 2 fork.nodes ≡ true
unfolding has
in_2 = refl

dominators_lem_example :
    (l : List ℕ) × (dominators fork 2 ≡ some l) × ((d : ℕ) → (has d l ≡ true) ↔ Dominates fork d 2)
dominators_lem_example = dominators_lem fork fork-IsForest 2 in_2

find_nearest_common_dominator_node_lem_example :
    (r : Option ℕ) × (find_nearest_common_dominator_node fork 1 2 ≡ some r)
    × IsNearestCommon fork fork-IsForest 1 2 r
find_nearest_common_dominator_node_lem_example =
    find_nearest_common_dominator_node_lem fork fork-IsForest 1 2 in_1 in_2

dominates_node_lem_example :
    (b : Bool) × (dominates_node fork 0 2 ≡ some b) × ((b ≡ true) ↔ Dominates fork 0 2)
dominates_node_lem_example = dominates_node_lem fork fork-IsForest 0 2 in_0 in_2
