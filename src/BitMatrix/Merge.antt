-- ===== src/BitMatrix/Merge.antt =====
-- The loop over k of BitMatrix::transitiveClosure: row[i] |= row[j].
use noelle_public.BitVector.{BitVector}
use noelle_public.BitMatrix.{BitMatrix, set, next_successor, merge_row}
use noelle_public.BitMatrix.Access.{bit, IsSized, test_lem, set_lem}
use noelle_public.BitMatrix.Cursor.{Cursor, next_successor-Cursor}
use noelle_public.Prelude.{
  ℕ, zero, suc, ◌+◌, ◌≤◌, ◌<◌, ◌≡◌, ◌≢◌, refl, sym, ◌∙◌, ap, ◌⊎◌, inl, inr, Bool, true, false,
  Option, none, some, arith, Bool-cases,
}

pub lt_cases : (a b : ℕ) → (a < b) ⊎ (a ≡ b) ⊎ (b < a)
lt_cases a b = grind arith

false_of_kept : (y z : Bool) → (y ≡ true → z ≡ true) → z ≡ false → y ≡ false
false_of_kept true z h e = cc (h refl)
false_of_kept false z h e = refl

module _ (B : BitVector) where
  -- What an update of row i leaves alone.
  pub record Extends (i : ℕ) (m m' : BitMatrix B) : Type 0 where
    pub sized : IsSized B m'
    pub same_n : m'.n ≡ m.n
    pub others : (a b : ℕ) → a ≢ i → b < m.n → bit B m' a b ≡ bit B m a b
    pub grows : (b : ℕ) → b < m.n → bit B m i b ≡ true → bit B m' i b ≡ true

  -- The flag says whether row i has a new bit, or had one before.
  pub record Flagged (i : ℕ) (m m' : BitMatrix B) (before after : Bool) : Type 0 where
    pub kept : before ≡ true → after ≡ true
    pub unset : after ≡ false → (b : ℕ) → b < m.n → bit B m' i b ≡ bit B m i b
    pub gained :
        after ≡ true
        → (before ≡ true) ⊎ ((b : ℕ) × (b < m.n) × (bit B m i b ≡ false) × (bit B m' i b ≡ true))

  -- From column p on, row j is now part of row i, and row i has nothing else that is new.
  pub record Merged (i j p : ℕ) (m m' : BitMatrix B) : Type 0 where
    pub full : (k : ℕ) → p ≤ k → k < m.n → bit B m j k ≡ true → bit B m' i k ≡ true
    pub only : (b : ℕ) → b < m.n → bit B m' i b ≡ true → (bit B m i b ≡ true) ⊎ (bit B m j b ≡ true)

  pub Extends-refl : (i : ℕ) (m : BitMatrix B) → IsSized B m → Extends i m m
  Extends-refl i m h = record {
    sized = h;
    same_n = refl;
    others = λ a b ne l. refl;
    grows = λ b l e. e;
  }

  pub Extends-trans :
      (i : ℕ) (m m' m'' : BitMatrix B) → Extends i m m' → Extends i m' m'' → Extends i m m''
  Extends-trans i m m' m'' f g = record {
    sized = g.sized;
    same_n = g.same_n ∙ f.same_n;
    others = λ a b ne l. g.others a b ne (rw f.same_n l) ∙ f.others a b ne l;
    grows = λ b l e. g.grows b (rw f.same_n l) (f.grows b l e);
  }

  pub Flagged-refl : (i : ℕ) (m : BitMatrix B) (x : Bool) → Flagged i m m x x
  Flagged-refl i m x = record { kept = λ t. t; unset = λ u b l. refl; gained = λ t. inl t }

  pub Flagged-trans :
      (i : ℕ) (m m' m'' : BitMatrix B) (x y z : Bool)
      → Extends i m m'
      → Extends i m' m''
      → Flagged i m m' x y
      → Flagged i m' m'' y z
      → Flagged i m m'' x z
  Flagged-trans i m m' m'' x y z c d f g = record {
    kept = λ t. g.kept (f.kept t);
    unset = λ u b l. g.unset u b (rw c.same_n l) ∙ f.unset (false_of_kept y z g.kept u) b l;
    gained = λ t. elim (g.gained t) [
      | inl earlier ↦ elim (f.gained earlier) [
        | inl before ↦ inl before
        | inr (b, l, was, now) ↦ inr (b, l, was, d.grows b (rw c.same_n l) now)
      ]
      | inr (b, l, was, now) ↦
          let l' : b < m.n = rw (← c.same_n) l in
          inr (b, l', false_of_kept (bit B m i b) (bit B m' i b) (c.grows b l') was, now)
    ];
  }

  -- The part of row j up to k, and a first write at k, in front of the rest of the loop.
  Merged-widen :
      (i j p k : ℕ) (m m₁ m' : BitMatrix B)
      → m₁.n ≡ m.n
      → ((l : ℕ) → p ≤ l → l < k → bit B m j l ≡ false)
      → bit B m' i k ≡ true
      → ((b : ℕ) → b < m.n → bit B m₁ j b ≡ bit B m j b)
      → ((b : ℕ) → b < m.n → bit B m₁ i b ≡ true → (bit B m i b ≡ true) ⊎ (bit B m j b ≡ true))
      → Merged i j (suc k) m₁ m'
      → Merged i j p m m'
  Merged-widen i j p k m m₁ m' same gap at_k row_j row_i rest = record {
    full = λ l ge less e. elim (lt_cases l k) [
      | inl below ↦ cc (gap l ge below, e)
      | inr (inl here) ↦ rw here at_k
      | inr (inr above) ↦ rest.full l above (rw same less) (row_j l less ∙ e)
    ];
    only = λ b less e. elim (rest.only b (rw same less) e) [
      | inl old ↦ row_i b less old
      | inr new ↦ inr (sym (row_j b less) ∙ new)
    ];
  }

  -- The write of one bit into row i.
  set-Extends :
      (m : BitMatrix B) (i k : ℕ)
      → IsSized B m
      → i < m.n
      → k < m.n
      → (m₁ : BitMatrix B) × (set B m i k true ≡ some m₁)
        × Extends i m m₁
        × (bit B m₁ i k ≡ true)
        × ((b : ℕ) → b < m.n → bit B m₁ i b ≡ true → (bit B m i b ≡ true) ⊎ (b ≡ k))
  set-Extends m i k h li lk =
      let (m₁, e, same, sized, law) = set_lem B m i k true h li lk in
      (
        m₁,
        e,
        record {
          sized = sized;
          same_n = same;
          others = λ a b ne l. ground (arith, law a b l);
          grows = λ b l t. ground (arith, law i b l);
        },
        ground (arith, law i k lk),
        λ b l t. ground (arith, law i b l),
      )

  abbrev pub MergeResult : ℕ → ℕ → ℕ → BitMatrix B → Bool → Option (BitMatrix B × Bool) → Type 0
  MergeResult i j p m changed r =
      (m' : BitMatrix B) × (after : Bool) × (r ≡ some (m', after))
      × Extends i m m'
      × Flagged i m m' changed after
      × Merged i j p m m'

  -- The loop ends within the rounds left, no assertion fails, and row j is merged from p on.
  pub merge_row_lem :
      (fuel : ℕ) (m : BitMatrix B) (i j p : ℕ) (from : Option ℕ) (changed : Bool)
      → IsSized B m
      → i < m.n
      → j < m.n
      → m.n ≤ fuel + p
      → Cursor B m j p from
      → MergeResult i j p m changed (merge_row B fuel m i j from changed)
  unfolding merge_row
  merge_row_lem fuel m i j p none changed h li lj enough c = (
    m,
    changed,
    refl,
    Extends-refl i m h,
    Flagged-refl i m changed,
    record { full = λ k ge l e. cc (c k ge l, e); only = λ b l e. inl e },
  )
  merge_row_lem zero m i j p (some k) changed h li lj enough c = absurd (omega arith)
  merge_row_lem (suc fuel) m i j p (some k) changed h li lj enough (ge, lk, at_k, gap) =
      elim (Bool-cases (bit B m i k)) [
        | inl present ↦
            let (m', after, e, ext, flag, merged) =
              merge_row_lem fuel m i j (suc k) (next_successor B m j k) changed h li lj
                (omega arith) (next_successor-Cursor B m j k h lj lk) in
            (
              m',
              after,
              rw (test_lem B m i k h li lk, present) e,
              ext,
              flag,
              Merged-widen i j p k m m m' refl gap (ext.grows k lk present) (λ b l. refl)
                  (λ b l t. inl t) merged,
            )
        | inr absent ↦
            let (m₁, e₁, step, wrote, row_i) = set-Extends m i k h li lk in
            let apart : j ≢ i = λ e. cc (ap (λ a. bit B m a k) e, at_k, absent) in
            let (m', after, e, ext, flag, merged) =
              merge_row_lem fuel m₁ i j (suc k) (next_successor B m₁ j k) true step.sized
                (rw step.same_n li) (rw step.same_n lj) (rw step.same_n (omega arith))
                (next_successor-Cursor B m₁ j k step.sized (rw step.same_n lj)
                  (rw step.same_n lk)) in
            (
              m',
              after,
              rw (test_lem B m i k h li lk, absent) (rw e₁ e),
              Extends-trans i m m₁ m' step ext,
              record {
                kept = λ t. flag.kept refl;
                unset = λ u. cc (flag.kept refl, u);
                gained = λ t. inr (k, lk, absent, ext.grows k (rw step.same_n lk) wrote);
              },
              Merged-widen i j p k m m₁ m' step.same_n gap (ext.grows k (rw step.same_n lk) wrote)
                  (λ b l. step.others j b apart l)
                  (λ b l t. elim (row_i b l t) [
                    | inl old ↦ inl old
                    | inr here ↦ inr (rw here at_k)
                  ])
                  merged,
            )
      ]
