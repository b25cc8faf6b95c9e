-- ===== src/BitMatrix/Cursor.antt =====
-- firstSuccessor and nextSuccessor of BitMatrix.cpp walk the set bits of one row in order.
use native.Mathlib.Nat.{mul_comm}
use noelle_public.BitVector.{BitVector}
use noelle_public.BitMatrix.{BitMatrix, u32, in_row, first_successor, next_successor}
use noelle_public.BitMatrix.Access.{bit, IsSized, index-lt}
use noelle_public.Prelude.{
  ℕ, suc, ◌+◌, ◌-◌, ◌*◌, ◌%◌, ◌≤◌, ◌<◌, ◌≡◌, inl, inr, true, false, lt_of_leb, leb→le, eq_of_==,
  ne_of_==, Option, none, some, arith, leb, ◌==◌, Bool-cases, Option-cases,
}

row_end : (a n : ℕ) → a < n → a * n + n ≤ n * n
row_end a n p = grind arith

module _ (B : BitVector) where
  -- The least set position of the vector from s on.
  abbrev From : B.Vec → ℕ → Option ℕ → Type 0
  From v s none = (k : ℕ) → s ≤ k → k < B.size v → B.get v k ≡ false
  From v s (some j) =
      (s ≤ j) × (j < B.size v) × (B.get v j ≡ true) × ((k : ℕ) → s ≤ k → k < j → B.get v k ≡ false)

  -- The least set column of a row from p on.
  abbrev pub Cursor : BitMatrix B → ℕ → ℕ → Option ℕ → Type 0
  Cursor m row p none = (k : ℕ) → p ≤ k → k < m.n → bit B m row k ≡ false
  Cursor m row p (some k) =
      (p ≤ k)
      × (k < m.n)
      × (bit B m row k ≡ true)
      × ((l : ℕ) → p ≤ l → l < k → bit B m row l ≡ false)

  in_row-Cursor :
      (m : BitMatrix B) (row p : ℕ) (r : Option ℕ)
      → IsSized B m
      → row < m.n
      → From m.bv (row * m.n + p) r
      → Cursor m row p (in_row B m (m.n * row % u32) r)
  unfolding in_row
  in_row-Cursor m row p none h lt f =
      λ k ge l. f (row * m.n + k) (omega arith) (omega (arith, h.filled, index-lt row k m.n lt l))
  in_row-Cursor m row p (some x) h lt f =
      let small = h.small in
      let filled = h.filled in
      let e : m.n * row % u32 ≡ row * m.n =
        omega (arith, mul_comm m.n row, index-lt row 0 m.n lt) in
      rw e (elim (Bool-cases (leb ((row * m.n + m.n) % u32) x)) [
        | inl outside ↦ rw outside (λ k ge l.
            f.3 (row * m.n + k) (omega arith)
              (omega (arith, leb→le _ _ outside, row_end row m.n lt)))
        | inr inside ↦ rw inside (
            let bound : x < row * m.n + m.n =
              omega (arith, lt_of_leb _ _ inside, row_end row m.n lt) in
            let column : (x + u32 - row * m.n) % u32 ≡ x - row * m.n = omega arith in
            let back : row * m.n + (x - row * m.n) ≡ x = omega arith in
            rw column (
              omega arith,
              omega arith,
              rw (back, bit) f.2,
              λ l ge less. f.3 (row * m.n + l) (omega arith) (omega arith),
            ))
      ])

  find_first-From : (v : B.Vec) → From v 0 (B.find_first v)
  find_first-From v = elim (Option-cases (B.find_first v)) [
    | inl e ↦ rw e (λ k ge l. B.find_first_none v k e l)
    | inr (j, e) ↦ rw e (
      omega arith,
      (B.find_first_some v j e).0,
      (B.find_first_some v j e).1,
      λ k ge l. B.find_first_least v j k e l,
    )
  ]

  find_next-From : (v : B.Vec) (p s : ℕ) → suc p ≡ s → From v s (B.find_next v p)
  find_next-From v p s es = elim (Option-cases (B.find_next v p)) [
    | inl e ↦ rw e (λ k ge l. B.find_next_none v p k e (omega arith) l)
    | inr (j, e) ↦ rw e (
      omega (arith, B.find_next_some v p j e),
      (B.find_next_some v p j e).1,
      (B.find_next_some v p j e).2,
      λ k ge l. B.find_next_least v p j k e (omega arith) l,
    )
  ]

  pub first_successor-Cursor :
      (m : BitMatrix B) (row : ℕ)
      → IsSized B m
      → row < m.n
      → Cursor m row 0 (first_successor B m row)
  unfolding first_successor
  first_successor-Cursor m row h lt =
      in_row-Cursor m row 0 _ h lt (elim (Bool-cases (m.n * row % u32 == 0)) [
        | inl start ↦
            let at_zero : row * m.n + 0 ≡ 0 = omega (
              arith,
              eq_of_== _ _ start,
              mul_comm m.n row,
              index-lt row 0 m.n lt (omega arith),
              h.small,
            ) in
            rw (start, at_zero) (find_first-From m.bv)
        | inr later ↦ rw later (
            find_next-From m.bv _ _ (
              omega (
                arith,
                ne_of_== _ _ later,
                mul_comm m.n row,
                index-lt row 0 m.n lt (omega arith),
                h.small,
              )))
      ])

  pub next_successor-Cursor :
      (m : BitMatrix B) (row prev : ℕ)
      → IsSized B m
      → row < m.n
      → prev < m.n
      → Cursor m row (suc prev) (next_successor B m row prev)
  unfolding next_successor
  next_successor-Cursor m row prev h lt lp =
      in_row-Cursor m row (suc prev) _ h lt
        (find_next-From m.bv _ _ (omega (arith, mul_comm m.n row, index-lt row prev m.n lt lp)))

  -- In a matrix of fewer than 2^31 bits, firstSuccessor returns the least column that is set in the
  -- row and nextSuccessor the least one behind the given column, and each -1 exactly where there is
  -- none; neither runs into the next row.
  pub successors_lem :
      (m : BitMatrix B) (row prev : ℕ)
      → IsSized B m
      → row < m.n
      → prev < m.n
      → Cursor m row 0 (first_successor B m row)
        × Cursor m row (suc prev) (next_successor B m row prev)
  successors_lem m row prev h lt lp =
      (first_successor-Cursor m row h lt, next_successor-Cursor m row prev h lt lp)
