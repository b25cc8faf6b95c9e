-- ===== src/BitMatrix/Tests.antt =====
-- Runs of the bit matrix over a bit vector that is a length and a function.
use noelle_public.BitVector.Sample.{vector, scan}
use noelle_public.BitMatrix.{
  BitMatrix, resize, set, test, transitive_closure, close_row, merge_rows, first_successor,
  merge_row, next_successor, push_predecessors,
}
use noelle_public.BitMatrix.Access.{IsSized}
use noelle_public.BitMatrix.Walk.{Walk}
use noelle_public.BitMatrix.Cursor.{Cursor, successors_lem}
use noelle_public.BitMatrix.Cells.{test-set, test-resize}
use noelle_public.BitMatrix.Closure.{transitive_closure_correct}
use noelle_public.Prelude.{
  ℕ, ◌<◌, ◌≡◌, refl, ◌↔◌, Bool, true, false, Option, none, some, arith, ltb, ◌==◌, if◌then◌else◌,
  ◌>>=◌, has, ◌||◌, ◌&&◌,
}

-- 0 → 2 → 1 → 3: row 0 is redone after row 2 gains 3.
abbrev chain : BitMatrix vector
chain = record { n = 4; bv = record { len = 16; at = λ i. i == 2 || i == 7 || i == 9 } }

chain-IsSized : IsSized vector chain
chain-IsSized = record { small = omega arith; filled = refl }

related : BitMatrix vector → ℕ → ℕ → Option Bool
related m a b = do m' ← transitive_closure vector m; test vector m' a b

chain_closed :
    (related chain 0 3 ≡ some true)
    × (related chain 2 3 ≡ some true)
    × (related chain 3 0 ≡ some false)
    × (related chain 4 0 ≡ none)
unfolding related transitive_closure test scan close_row merge_rows first_successor merge_row set
    next_successor push_predecessors has
chain_closed = (refl, refl, refl, refl)

transitive_closure_correct_example :
    (m' : BitMatrix vector) × (transitive_closure vector chain ≡ some m')
    × (m'.n ≡ chain.n)
    × ((a b : ℕ)
        → a < chain.n
        → b < chain.n
        → (test vector m' a b ≡ some true) ↔ Walk vector chain a b)
transitive_closure_correct_example = transitive_closure_correct vector chain chain-IsSized

abbrev grid : BitMatrix vector
grid = record { n = 4; bv = record { len = 16; at = λ i. i == 2 } }

grid-IsSized : IsSized vector grid
grid-IsSized = record { small = omega arith; filled = refl }

abbrev grid_set : BitMatrix vector
grid_set = record { n = 4; bv = vector.set grid.bv 13 }

grid_written : set vector grid 3 1 true ≡ some grid_set
unfolding set
grid_written = refl

test-set_example :
    test vector grid_set 3 1 ≡ (if (3 == 3) && (1 == 1) then some true else test vector grid 3 1)
test-set_example = test-set vector grid grid_set 3 1 true grid-IsSized grid_written 3 1

test-resize_example :
    IsSized vector (resize vector grid 3)
    × ((a b : ℕ)
        → test vector (resize vector grid 3) a b
          ≡ (if ltb a 3 && ltb b 3 then some false else none))
test-resize_example = test-resize vector grid 3 (omega arith)

successors_lem_example :
    Cursor vector chain 1 0 (first_successor vector chain 1)
    × Cursor vector chain 1 4 (next_successor vector chain 1 3)
successors_lem_example = successors_lem vector chain 1 3 chain-IsSized (omega arith) (omega arith)
