-- ===== src/BitMatrix.antt =====
-- src/core/basic_utilities/src/BitMatrix.cpp: an N x N Boolean matrix in one bit vector, and its
-- transitive closure by a work list of rows. A result `none` of `set`, `test` and the closure is a
-- failed assertion or a loop out of rounds; of the successor functions it is the source's -1.
pub mod Access
pub mod Cells
pub mod Cursor
pub mod Merge
pub mod Walk
pub mod Relax
pub mod Rounds
pub mod Pending
pub mod Cover
pub mod Measure
pub mod Closure
mod Tests
use noelle_public.BitVector.{BitVector}
use noelle_public.Prelude.{
  ℕ, zero, suc, ◌+◌, ◌-◌, ◌*◌, ◌%◌, ◌^◌, Bool, true, false, ◌&&◌, Option, none, some, List, [], ◌∷◌,
  ◌++◌, ltb, leb, ◌==◌, if◌then◌else◌, ◌>>=◌, has,
}

-- uint32_t arithmetic wraps at this value.
abbrev pub u32 : ℕ
u32 = 2 ^ 32

module _ (B : BitVector) where
  open B use {Vec, get, find_first, find_next}

  pub record BitMatrix : Type 0 where
    pub n : ℕ
    pub bv : Vec

  unfoldable pub resize : BitMatrix → ℕ → BitMatrix
  resize m n = record { n = n; bv = B.resize (B.clear m.bv) (n * n % u32) }

  unfoldable pub idx : BitMatrix → ℕ → ℕ → Option ℕ
  idx m row col = if ltb row m.n && ltb col m.n then some ((row * m.n + col) % u32) else none

  unfoldable pub count : BitMatrix → ℕ
  count m = B.count m.bv

  unfoldable pub set : BitMatrix → ℕ → ℕ → Bool → Option BitMatrix
  unfolding idx
  set m row col v = do
    i ← idx m row col
    some (record m { bv = if v then B.set m.bv i else B.reset m.bv i })

  unfoldable pub test : BitMatrix → ℕ → ℕ → Option Bool
  unfolding idx
  test m row col = do i ← idx m row col; some (get m.bv i)

  -- The end of both successor functions: a bit behind the row does not count.
  unfoldable pub in_row : BitMatrix → ℕ → Option ℕ → Option ℕ
  in_row m row_begin none = none
  in_row m row_begin (some next) =
      if leb ((row_begin + m.n) % u32) next then none else some ((next + u32 - row_begin) % u32)

  unfoldable pub first_successor : BitMatrix → ℕ → Option ℕ
  unfolding in_row
  first_successor m row =
      let row_begin = m.n * row % u32 in
      in_row m row_begin
        (if row_begin == 0 then find_first m.bv else find_next m.bv (row_begin - 1))

  unfoldable pub next_successor : BitMatrix → ℕ → ℕ → Option ℕ
  unfolding in_row
  next_successor m row prev = in_row m (m.n * row % u32) (find_next m.bv ((m.n * row + prev) % u32))

  -- The loop over k: row[i] |= row[j]. The flag is `changedI`.
  unfoldable pub merge_row : ℕ → BitMatrix → ℕ → ℕ → Option ℕ → Bool → Option (BitMatrix × Bool)
  merge_row fuel m i j none changed = some (m, changed)
  merge_row zero m i j (some k) changed = none
  merge_row (suc fuel) m i j (some k) changed = do
    present ← test m i k
    elim present [
      | true ↦ merge_row fuel m i j (next_successor m j k) changed
      | false ↦ do m' ← set m i k true; merge_row fuel m' i j (next_successor m' j k) true
    ]

  -- The loop over j: the rows of all successors of i.
  unfoldable pub merge_rows : ℕ → BitMatrix → ℕ → Option ℕ → Bool → Option (BitMatrix × Bool)
  merge_rows fuel m i none changed = some (m, changed)
  merge_rows zero m i (some j) changed = none
  merge_rows (suc fuel) m i (some j) changed = do
    (m', changed') ← merge_row m.n m i j (first_successor m j) changed
    merge_rows fuel m' i (next_successor m' i j) changed'

  -- The loop over p, with `left` rows to go from p on: the predecessors of i that are not waiting.
  unfoldable pub push_predecessors : ℕ → BitMatrix → ℕ → ℕ → List ℕ → Option (List ℕ)
  push_predecessors zero m i p worklist = some worklist
  push_predecessors (suc left) m i p worklist = do
    edge ← test m p i
    push_predecessors left m i (p + 1)
        (if edge then if has p worklist then worklist else worklist ++ p ∷ [] else worklist)

  -- The numbers from i on, `left` of them: the initial work list.
  unfoldable pub indices : ℕ → ℕ → List ℕ
  indices zero i = []
  indices (suc left) i = i ∷ indices left (i + 1)

  -- One round of the outer loop, after i left the head of the work list.
  unfoldable pub close_row : BitMatrix → ℕ → List ℕ → Option (BitMatrix × List ℕ)
  close_row m i worklist = do
    (m', changed) ← merge_rows m.n m i (first_successor m i) false
    elim changed [
      | true ↦ do worklist' ← push_predecessors m'.n m' i 0 worklist; some (m', worklist')
      | false ↦ some (m', worklist)
    ]

  unfoldable pub close : ℕ → BitMatrix → List ℕ → Option BitMatrix
  close fuel m [] = some m
  close zero m (i ∷ worklist) = none
  close (suc fuel) m (i ∷ worklist) = do
    (m', worklist') ← close_row m i worklist
    close fuel m' worklist'

  -- A round that changes the matrix sets one of N * N bits and queues at most N rows.
  unfoldable pub transitive_closure : BitMatrix → Option BitMatrix
  unfolding close indices
  transitive_closure m = close ((m.n * m.n + 1) * (m.n + 1)) m (indices m.n 0)
