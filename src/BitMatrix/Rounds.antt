-- ===== src/BitMatrix/Rounds.antt =====
-- One round of the work list of BitMatrix::transitiveClosure.
use noelle_public.BitVector.{BitVector}
use noelle_public.BitMatrix.{BitMatrix, first_successor, push_predecessors, close_row}
use noelle_public.BitMatrix.Access.{bit, IsSized, test_lem}
use noelle_public.BitMatrix.Cursor.{first_successor-Cursor}
use noelle_public.BitMatrix.Merge.{Extends}
use noelle_public.BitMatrix.Relax.{Relaxed, merge_rows_lem}
use noelle_public.Prelude.{
  ℕ, zero, suc, ◌+◌, ◌≤◌, ◌<◌, ◌≡◌, refl, sym, ◌∙◌, ◌⊎◌, inl, inr, Bool, true, false, some, List,
  [], ◌∷◌, ◌++◌, arith, ◌==◌, Bool-cases, eq_of_==, ne_of_==, has, has-append, subst, length,
  length-append, if◌then◌else◌,
}

-- Every waiting row is a row of the matrix.
abbrev pub Below : ℕ → List ℕ → Type 0
Below n worklist = (a : ℕ) → has a worklist ≡ true → a < n

module _ (B : BitVector) where
  -- What the loop over p adds, from row p on.
  pub record Pushed (m : BitMatrix B) (i p left : ℕ) (worklist worklist' : List ℕ) : Type 0 where
    pub kept : (a : ℕ) → has a worklist ≡ true → has a worklist' ≡ true
    pub below : Below m.n worklist → Below m.n worklist'
    pub found : (a : ℕ) → p ≤ a → a < m.n → bit B m a i ≡ true → has a worklist' ≡ true
    pub few : length worklist' ≤ length worklist + left

  push_one : Bool → ℕ → List ℕ → List ℕ
  push_one edge p worklist =
      if edge then if has p worklist then worklist else worklist ++ p ∷ [] else worklist

  has-push_one :
      (edge : Bool) (p a : ℕ) (worklist : List ℕ)
      → has a (push_one edge p worklist)
        ≡ (if edge then if a == p then true else has a worklist else has a worklist)
  unfolding push_one has
  has-push_one edge p a worklist = ground (arith, has-append a worklist (p ∷ []))

  length-push_one :
      (edge : Bool) (p : ℕ) (worklist : List ℕ)
      → length (push_one edge p worklist) ≤ length worklist + 1
  unfolding push_one
  length-push_one edge p worklist = ground (arith, length-append worklist (p ∷ []))

  push_predecessors_lem :
      (left : ℕ) (m : BitMatrix B) (i p : ℕ) (worklist : List ℕ)
      → IsSized B m
      → i < m.n
      → left + p ≡ m.n
      → (worklist' : List ℕ) × (push_predecessors B left m i p worklist ≡ some worklist')
        × Pushed m i p left worklist worklist'
  unfolding push_predecessors push_one
  push_predecessors_lem zero m i p worklist h li e = (
    worklist,
    refl,
    record {
      kept = λ a t. t;
      below = λ b. b;
      found = λ a ge l t. absurd (omega arith);
      few = omega arith;
    },
  )
  push_predecessors_lem (suc left) m i p worklist h li e =
      let edge = bit B m p i in
      let (w, e₁, rest) =
        push_predecessors_lem left m i (p + 1) (push_one edge p worklist) h li (omega arith) in
      let law = λ (a : ℕ). has-push_one edge p a worklist in
      (
        w,
        rw (test_lem B m p i h (omega arith) li) e₁,
        record {
          kept = λ a t. rest.kept a (ground (arith, law a));
          below = λ b. rest.below (λ a t. ground (arith, law a, b a));
          found = λ a ge l t. elim (Bool-cases (a == p)) [
            | inl here ↦
                let on : edge ≡ true = subst (λ x. bit B m x i ≡ true) (eq_of_== a p here) t in
                rest.kept a (law a ∙ rw (on, here))
            | inr later ↦ rest.found a (omega (arith, ne_of_== a p later)) l t
          ];
          few = omega (arith, rest.few, length-push_one edge p worklist);
        },
      )

  -- What one round has done, with i gone from the head of the work list.
  pub record Round (i : ℕ) (m m' : BitMatrix B) (worklist worklist' : List ℕ) : Type 0 where
    pub ext : Extends B i m m'
    pub relaxed : Relaxed B i 0 m m'
    pub kept : (a : ℕ) → has a worklist ≡ true → has a worklist' ≡ true
    pub below : Below m.n worklist → Below m.n worklist'
    pub notified :
        (k : ℕ)
        → k < m.n
        → bit B m i k ≡ false
        → bit B m' i k ≡ true
        → (a : ℕ) → a < m.n
        → bit B m' a i ≡ true
        → has a worklist' ≡ true
    pub progress :
        (worklist' ≡ worklist)
        ⊎ ((b : ℕ) × (b < m.n)
            × (bit B m i b ≡ false)
            × (bit B m' i b ≡ true)
            × (length worklist' ≤ length worklist + m.n))

  pub close_row_lem :
      (m : BitMatrix B) (i : ℕ) (worklist : List ℕ)
      → IsSized B m
      → i < m.n
      → (m' : BitMatrix B) × (worklist' : List ℕ) × (close_row B m i worklist
          ≡ some (m', worklist'))
        × Round i m m' worklist worklist'
  unfolding close_row
  close_row_lem m i worklist h li =
      let (m', changed, e, x, flag, relaxed) =
        merge_rows_lem B m.n m i 0 (first_successor B m i) false h li (omega arith)
          (first_successor-Cursor B m i h li) in
      elim (Bool-cases changed) [
        | inl yes_changed ↦
            let (w, e', push) =
              push_predecessors_lem m'.n m' i 0 worklist x.sized (rw x.same_n li) (omega arith) in
            (
              m',
              w,
              rw (e, yes_changed) (rw e'),
              record {
                ext = x;
                relaxed = relaxed;
                kept = push.kept;
                below = λ b.
                    subst (λ z. Below z w) x.same_n
                      (push.below (subst (λ z. Below z worklist) (sym x.same_n) b));
                notified = λ k lk was now a la t. push.found a (omega arith) (rw x.same_n la) t;
                progress = elim (flag.gained yes_changed) [
                  | inl never ↦ cc
                  | inr (b, lb, was, now) ↦ inr (b, lb, was, now, omega (arith, push.few, x.same_n))
                ];
              },
            )
        | inr not_changed ↦ (
          m',
          worklist,
          rw (e, not_changed),
          record {
            ext = x;
            relaxed = relaxed;
            kept = λ a t. t;
            below = λ b. b;
            notified = λ k lk was now a la t. cc (flag.unset not_changed k lk, was, now);
            progress = inl refl;
          },
        )
      ]
