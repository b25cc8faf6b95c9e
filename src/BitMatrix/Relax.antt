-- ===== src/BitMatrix/Relax.antt =====
-- The loop over j of BitMatrix::transitiveClosure: row i takes in the rows of its successors.
use noelle_public.BitVector.{BitVector}
use noelle_public.BitMatrix.{BitMatrix, first_successor, next_successor, merge_rows}
use noelle_public.BitMatrix.Access.{bit, IsSized}
use noelle_public.BitMatrix.Cursor.{Cursor, first_successor-Cursor, next_successor-Cursor}
use noelle_public.BitMatrix.Merge.{
  Extends, Extends-refl, Extends-trans, Flagged, Flagged-refl, Flagged-trans, Merged, merge_row_lem,
  lt_cases,
}
use noelle_public.BitMatrix.Walk.{Walk, first, onward}
use noelle_public.Prelude.{
  subst, ℕ, zero, suc, ◌+◌, ◌≤◌, ◌<◌, ◌≡◌, refl, sym, ◌∙◌, ◌⊎◌, inl, inr, Bool, true, false, Option,
  none, some, arith, ◌==◌, Bool-cases, eq_of_==, ne_of_==,
}

module _ (B : BitVector) where
  pub Extends-mono :
      (i : ℕ) (m m' : BitMatrix B) (a b : ℕ)
      → Extends B i m m'
      → b < m.n
      → bit B m a b ≡ true
      → bit B m' a b ≡ true
  Extends-mono i m m' a b x l e = elim (Bool-cases (a == i)) [
    | inl own ↦ let here : a ≡ i = eq_of_== a i own in rw here (x.grows b l (rw here at e))
    | inr other ↦ x.others a b (ne_of_== a i other) l ∙ e
  ]

  -- A row of the old matrix that the new row i contains as a whole.
  pub record Absorbed (i j : ℕ) (m m' : BitMatrix B) : Type 0 where
    pub bound : j < m.n
    pub edge : bit B m' i j ≡ true
    pub whole : (l : ℕ) → l < m.n → bit B m j l ≡ true → bit B m' i l ≡ true

  pub record Relaxed (i p : ℕ) (m m' : BitMatrix B) : Type 0 where
    pub full :
        (k l : ℕ)
        → p ≤ k
        → k < m.n
        → l < m.n
        → bit B m i k ≡ true
        → bit B m k l ≡ true
        → bit B m' i l ≡ true
    pub reason :
        (k : ℕ)
        → k < m.n
        → bit B m' i k ≡ true
        → (bit B m i k ≡ true) ⊎ ((j : ℕ) × Absorbed i j m m' × (bit B m j k ≡ true))
    pub sound : (k : ℕ) → k < m.n → bit B m' i k ≡ true → Walk B m i k

  -- The merge of row j into row i makes no new walks.
  Merged-Walk :
      (i j : ℕ) (m m₁ : BitMatrix B)
      → j < m.n
      → bit B m i j ≡ true
      → Extends B i m m₁
      → Merged B i j 0 m m₁
      → {k : ℕ} → Walk B m₁ i k
      → Walk B m i k
  Merged-Walk i j m m₁ lj at_j x merged w = go w
    where
      direct : (k : ℕ) → k < m₁.n → bit B m₁ i k ≡ true → Walk B m i k
      direct k l e =
          let l' : k < m.n = rw (← x.same_n) l in
          elim (merged.only k l' e) [
            | inl old ↦ first l' old
            | inr new ↦ onward (first lj at_j) l' new
          ]

      go : {k : ℕ} → Walk B m₁ i k → Walk B m i k
      go (first {b} l e) = direct b l e
      go (onward {b} {c} v l e) = elim (Bool-cases (b == i)) [
        | inl own ↦ direct c l (subst (λ a. bit B m₁ a c ≡ true) (eq_of_== b i own) e)
        | inr other ↦
            let l' : c < m.n = rw (← x.same_n) l in
            onward (go v) l' (sym (x.others b c (ne_of_== b i other) l') ∙ e)
      ]

  abbrev pub RowsResult : ℕ → ℕ → BitMatrix B → Bool → Option (BitMatrix B × Bool) → Type 0
  RowsResult i p m changed r =
      (m' : BitMatrix B) × (after : Bool) × (r ≡ some (m', after))
      × Extends B i m m'
      × Flagged B i m m' changed after
      × Relaxed i p m m'

  -- One successor j in front of the rest of the loop.
  Relaxed-step :
      (i j p : ℕ) (m m₁ m' : BitMatrix B)
      → j < m.n
      → bit B m i j ≡ true
      → ((l : ℕ) → p ≤ l → l < j → bit B m i l ≡ false)
      → Extends B i m m₁
      → Merged B i j 0 m m₁
      → Extends B i m₁ m'
      → Relaxed i (suc j) m₁ m'
      → Relaxed i p m m'
  Relaxed-step i j p m m₁ m' lj at_j gap x₁ merged x₂ rest = record {
    full = λ k l ge lk ll e f. elim (lt_cases k j) [
      | inl below ↦ cc (gap k ge below, e)
      | inr (inl here) ↦ up l ll (merged.full l (omega arith) ll (rw here at f))
      | inr (inr above) ↦
          rest.full k l above (rw x₁.same_n lk) (rw x₁.same_n ll) (Extends-mono i m m₁ i k x₁ lk e)
            (Extends-mono i m m₁ k l x₁ ll f)
    ];
    reason = λ k lk e. elim (rest.reason k (rw x₁.same_n lk) e) [
      | inl old ↦ direct k lk old
      | inr (j', a, f) ↦ elim (Bool-cases (j' == i)) [
        | inl own ↦ direct k lk (rw (eq_of_== j' i own) at f)
        | inr other ↦
            let same = λ (b : ℕ) (lb : b < m.n). x₁.others j' b (ne_of_== j' i other) lb in
            inr (
              j',
              record {
                bound = rw (← x₁.same_n) a.bound;
                edge = a.edge;
                whole = λ l ll t. a.whole l (rw x₁.same_n ll) (same l ll ∙ t);
              },
              sym (same k lk) ∙ f,
            )
      ]
    ];
    sound = λ k lk e. Merged-Walk i j m m₁ lj at_j x₁ merged (rest.sound k (rw x₁.same_n lk) e);
  }
    where
      up : (l : ℕ) → l < m.n → bit B m₁ i l ≡ true → bit B m' i l ≡ true
      up l ll t = x₂.grows l (rw x₁.same_n ll) t

      direct :
          (k : ℕ)
          → k < m.n
          → bit B m₁ i k ≡ true
          → (bit B m i k ≡ true) ⊎ ((j : ℕ) × Absorbed i j m m' × (bit B m j k ≡ true))
      direct k lk t = elim (merged.only k lk t) [
        | inl old ↦ inl old
        | inr new ↦ inr (
          j,
          record {
            bound = lj;
            edge = up j lj (x₁.grows j lj at_j);
            whole = λ l ll f. up l ll (merged.full l (omega arith) ll f);
          },
          new,
        )
      ]

  pub merge_rows_lem :
      (fuel : ℕ) (m : BitMatrix B) (i p : ℕ) (from : Option ℕ) (changed : Bool)
      → IsSized B m
      → i < m.n
      → m.n ≤ fuel + p
      → Cursor B m i p from
      → RowsResult i p m changed (merge_rows B fuel m i from changed)
  unfolding merge_rows
  merge_rows_lem fuel m i p none changed h li enough c = (
    m,
    changed,
    refl,
    Extends-refl B i m h,
    Flagged-refl B i m changed,
    record {
      full = λ k l ge lk ll e f. cc (c k ge lk, e);
      reason = λ k lk e. inl e;
      sound = λ k lk e. first lk e;
    },
  )
  merge_rows_lem zero m i p (some j) changed h li enough c = absurd (omega arith)
  merge_rows_lem (suc fuel) m i p (some j) changed h li enough (ge, lj, at_j, gap) =
      let (m₁, mid, e₁, x₁, flag₁, merged) =
        merge_row_lem B m.n m i j 0 (first_successor B m j) changed h li lj (omega arith)
          (first_successor-Cursor B m j h lj) in
      let (m', after, e₂, x₂, flag₂, rest) =
        merge_rows_lem fuel m₁ i (suc j) (next_successor B m₁ i j) mid x₁.sized (rw x₁.same_n li)
          (rw x₁.same_n (omega arith))
          (next_successor-Cursor B m₁ i j x₁.sized (rw x₁.same_n li) (rw x₁.same_n lj)) in
      (
        m',
        after,
        rw e₁ e₂,
        Extends-trans B i m m₁ m' x₁ x₂,
        Flagged-trans B i m m₁ m' changed mid after x₁ x₂ flag₁ flag₂,
        Relaxed-step i j p m m₁ m' lj at_j gap x₁ merged x₂ rest,
      )
