-- ===== src/Loops/Nested.antt =====
-- Loop nests of src/core/loop_forest around one block, and the innermost loop that includes it.
use noelle_public.Loops.Tree.{
  LoopTree, Children, Loop, node, nil, cons, get_loop, get_children, is_included, child_includes,
}
use noelle_public.Prelude.{
  ℕ, suc, ◌≤◌, ◌<◌, ◌≡◌, refl, inl, inr, true, false, Option, none, some, ltb, if◌then◌else◌, arith,
  Bool-cases, Option-cases, subst,
}

mutual
  pub data Within : LoopTree → LoopTree → Type 0 where
    self : {t : LoopTree} → Within t t
    deeper : {u : LoopTree} {p : ℕ} {l : Loop} {ts : Children} → Among u ts → Within u (node p l ts)

  pub data Among : LoopTree → Children → Type 0 where
    first : {u t : LoopTree} {ts : Children} → Within u t → Among u (cons t ts)
    later : {u t : LoopTree} {ts : Children} → Among u ts → Among u (cons t ts)

-- The number of levels of a tree.
unfoldable mutual
  pub height : LoopTree → ℕ
  height (node p l ts) = suc (height_children ts)

  pub height_children : Children → ℕ
  height_children nil = 0
  height_children (cons t ts) =
      let rest = height_children ts in if ltb rest (height t) then height t else rest

pub height-pos : (t : LoopTree) → 0 < height t
unfolding height
height-pos (node p l ts) = omega arith

pub first-le : (t : LoopTree) (ts : Children) → height t ≤ height_children (cons t ts)
unfolding height
first-le t ts = ground arith

module _ (bb : ℕ) where
  -- Around the block: a loop that includes it lies in a parent that does, and has no sibling behind
  -- it that does.
  unfoldable mutual
    pub IsNested : LoopTree → Type 0
    IsNested (node p l ts) = AreNested l ts

    pub AreNested : Loop → Children → Type 0
    AreNested l nil = true ≡ true
    AreNested l (cons t ts) =
        (is_included (get_loop t) bb ≡ true
          → (is_included l bb ≡ true) × (child_includes ts bb ≡ false))
        × IsNested t
        × AreNested l ts

  unfoldable mutual
    pub innermost : LoopTree → Option LoopTree
    innermost (node p l ts) =
        let below = innermost_child ts in
        if is_included l bb then some (elim below [ none ↦ node p l ts | some u ↦ u ]) else none

    pub innermost_child : Children → Option LoopTree
    innermost_child nil = none
    innermost_child (cons t ts) =
        let rest = innermost_child ts in elim (innermost t) [ some u ↦ some u | none ↦ rest ]

  pub innermost_outside : (t : LoopTree) → is_included (get_loop t) bb ≡ false → innermost t ≡ none
  unfolding innermost
  innermost_outside (node p l ts) e = ground arith

  pub innermost-eq-none : (t : LoopTree) → innermost t ≡ none → is_included (get_loop t) bb ≡ false
  unfolding innermost
  innermost-eq-none (node p l ts) e = ground arith

  pub innermost-eq-some :
      (t u : LoopTree) → innermost t ≡ some u → is_included (get_loop t) bb ≡ true
  unfolding innermost
  innermost-eq-some (node p l ts) u e = ground arith

  pub children_outside :
      (l : Loop) (ts : Children)
      → AreNested l ts
      → is_included l bb ≡ false
      → (child_includes ts bb ≡ false) × (innermost_child ts ≡ none)
  unfolding AreNested innermost child_includes
  children_outside l nil h e = (refl, refl)
  children_outside l (cons t ts) (inside, _, h) e =
      let (no_child, no_inner) = children_outside l ts h e in
      elim (Bool-cases (is_included (get_loop t) bb)) [
        | inl seen ↦ absurd (cc (e, (inside seen).0))
        | inr unseen ↦ (ground arith, rw (innermost_outside t unseen) no_inner)
      ]

  innermost_child-eq-none :
      (ts : Children) → innermost_child ts ≡ none → child_includes ts bb ≡ false
  unfolding innermost child_includes
  innermost_child-eq-none nil e = refl
  innermost_child-eq-none (cons (node p l us) ts) e = elim (Bool-cases (is_included l bb)) [
    | inl seen ↦ absurd (ground arith)
    | inr unseen ↦ ground (arith, innermost_child-eq-none ts)
  ]

  -- A loop that includes the block and has no sub-loop that does.
  abbrev pub IsInnermost : LoopTree → Type 0
  IsInnermost u =
      (is_included (get_loop u) bb ≡ true) × (child_includes (get_children u) bb ≡ false)

  mutual
    unfolding innermost

    pub innermost-Within : (t u : LoopTree) → innermost t ≡ some u → Within u t × IsInnermost u
    innermost-Within (node p l ts) u e = elim (Bool-cases (is_included l bb)) [
      | inr unseen ↦ absurd (ground arith)
      | inl seen ↦ elim (Option-cases (innermost_child ts)) [
        | inl nowhere ↦
            let same : node p l ts ≡ u = ground arith in
            subst (λ x. Within x (node p l ts) × IsInnermost x) same
              (self, (seen, innermost_child-eq-none ts nowhere))
        | inr (v, below) ↦
            let same : v ≡ u = ground arith in
            let (among, good) = innermost_child-Among ts v below in
            subst (λ x. Within x (node p l ts) × IsInnermost x) same (deeper among, good)
      ]
    ]

    innermost_child-Among :
        (ts : Children) (u : LoopTree) → innermost_child ts ≡ some u → Among u ts × IsInnermost u
    innermost_child-Among nil u e = cc
    innermost_child-Among (cons t ts) u e = elim (Option-cases (innermost t)) [
      | inl nowhere ↦
          let (among, good) = innermost_child-Among ts u (ground arith) in (later among, good)
      | inr (v, here) ↦
          let (within, good) = innermost-Within t u (ground arith) in (first within, good)
    ]

  pub innermost_here :
      (p : ℕ) (l : Loop) (ts : Children)
      → is_included l bb ≡ true
      → innermost_child ts ≡ none
      → innermost (node p l ts) ≡ some (node p l ts)
  unfolding innermost
  innermost_here p l ts seen nowhere = ground arith

  pub innermost_below :
      (p : ℕ) (l : Loop) (ts : Children) (u : LoopTree)
      → is_included l bb ≡ true
      → innermost_child ts ≡ some u
      → innermost (node p l ts) ≡ some u
  unfolding innermost
  innermost_below p l ts u seen there = ground arith
