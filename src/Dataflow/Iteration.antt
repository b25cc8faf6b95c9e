-- ===== src/Dataflow/Iteration.antt =====
-- DataFlowEngine.cpp: the work list runs empty, and what holds then.
use mathlib.Core.List.{reverse}
use noelle_public.Dataflow.State.{Function, DataFlowResult}
use noelle_public.Dataflow.Engine.{head}
use noelle_public.Dataflow.Flow.{IsFunction}
use noelle_public.Dataflow.Rounds.{Round}
use noelle_public.Prelude.{
  ℕ, ◌+◌, ◌*◌, ◌≤◌, ◌<◌, ◌≡◌, ap, ◌⊎◌, inl, inr, true, false, none, some, List, ◌∷◌, length,
  length-append, has, has-insert, insert, ==_refl, if◌then◌else◌, Bool-cases, arith, total,
  total_mono, total_lt, total-le, total_drop,
}

-- The last instruction of a block, where the analysis starts.
abbrev pub start_of : Function → ℕ → ℕ
start_of f b = elim (head (reverse (f.insts b))) [ none ↦ 0 | some i ↦ i ]

-- How often a block can still be pushed on: once if it was not computed, and once for each instruction
-- below n that is not in its IN.
pub missing : ℕ → List ℕ → ℕ
missing n s = total n (λ a. if has a s then 0 else 1)

abbrev pub weight : Function → ℕ → DataFlowResult → List ℕ → ℕ → ℕ
weight f n df computed b =
    length (f.predecessors b)
    * ((if has b computed then 0 else 1) + missing n (df.ins (start_of f b)))

pub missing_mono :
    (n : ℕ) (s t : List ℕ) → ((a : ℕ) → has a s ≡ true → has a t ≡ true) → missing n t ≤ missing n s
unfolding missing
missing_mono n s t h = total_mono n _ _ (λ a l. elim (Bool-cases (has a s)) [
  | inl old ↦ rw (old, h a old) (omega arith)
  | inr new ↦ ground arith
])

missing_lt :
    (n : ℕ) (s t : List ℕ) (a : ℕ)
    → ((a : ℕ) → has a s ≡ true → has a t ≡ true)
    → a < n
    → has a s ≡ false
    → has a t ≡ true
    → missing n t < missing n s
unfolding missing
missing_lt n s t a h l out there =
    total_lt n _ _ a
      (λ c k. elim (Bool-cases (has c s)) [
        | inl old ↦ rw (old, h c old) (omega arith)
        | inr new ↦ ground arith
      ])
      l (rw (out, there) (omega arith))

pub missing-le : (n : ℕ) (s : List ℕ) → missing n s ≤ n
unfolding missing
missing-le n s = omega (arith, total-le n 1 (λ a. if has a s then 0 else 1) (λ a l. ground arith))

scale_up : (c x y : ℕ) → x ≤ y → c * x ≤ c * y
scale_up c x y h = grind arith

scale_more : (c x y : ℕ) → x < y → c * x + c ≤ c * y
scale_more c x y h = grind arith

pub start_at :
    (f : Function) (b i : ℕ) (is : List ℕ) → reverse (f.insts b) ≡ i ∷ is → start_of f b ≡ i
unfolding head
start_at f b i is shape =
    ap (λ (l : List ℕ). elim (head l) as (λ o. ℕ) [ none ↦ 0 | some k ↦ k ]) shape

module _ (P Q : ℕ → ℕ → Type 0) (f : Function) (n m : ℕ) (w : IsFunction f n m)
    (small : (i a : ℕ) → Q i a → a < n) where
  abbrev pub work : DataFlowResult → List ℕ → List ℕ → ℕ
  work df computed worklist = total m (weight f n df computed) + length worklist

  pub work_falls :
      (df df' : DataFlowResult) (computed computed' worklist worklist' : List ℕ) (b i : ℕ)
      (is : List ℕ)
      → has b f.blocks ≡ true
      → reverse (f.insts b) ≡ i ∷ is
      → Round P Q f df computed worklist b i is df' computed' worklist'
      → work df' computed' worklist' < work df computed (b ∷ worklist)
  work_falls df df' computed computed' worklist worklist' b i is member shape round =
      elim round.outcome [
        | inr (is_c, is_w, known, members) ↦
            rw (is_c, is_w)
              (omega (
                arith,
                total_mono m (weight f n df' computed) (weight f n df computed) (λ c l.
                    scale_up _ _ _ (
                      omega (
                        arith,
                        missing_mono n (df.ins (start_of f c)) (df'.ins (start_of f c))
                            (round.grown.ins_grow (start_of f c)),
                      ))),
              ))
        | inl (is_c, is_w, progress) ↦
            rw (is_c, is_w)
              (omega (
                arith,
                length-append worklist (f.predecessors b),
                total_drop m (weight f n df' (insert b computed)) (weight f n df computed) b
                    (length (f.predecessors b)) (λ c l. scale_up _ _ _ (no_more c))
                    (w.block_below b member) (scale_more _ _ _ (less progress)),
              ))
      ]
    where
      no_more :
          (c : ℕ)
          → (if has c (insert b computed) then 0 else 1) + missing n (df'.ins (start_of f c))
            ≤ (if has c computed then 0 else 1) + missing n (df.ins (start_of f c))
      no_more c =
          let shrink =
            missing_mono n (df.ins (start_of f c)) (df'.ins (start_of f c))
              (round.grown.ins_grow (start_of f c)) in
          ground (arith, has-insert c b computed)

      less :
          ((has b computed ≡ false)
            ⊎ ((a : ℕ) × (has a (df.ins i) ≡ false) × (has a (df'.ins i) ≡ true)))
          → (if has b (insert b computed) then 0 else 1) + missing n (df'.ins (start_of f b))
            < (if has b computed then 0 else 1) + missing n (df.ins (start_of f b))
      less o =
          let is_start = start_at f b i is shape in
          let in_set : has b (insert b computed) ≡ true =
            ground (arith, has-insert b b computed, ==_refl b) in
          elim o [
            | inl fresh ↦
                let shrink =
                  missing_mono n (df.ins (start_of f b)) (df'.ins (start_of f b))
                    (round.grown.ins_grow (start_of f b)) in
                rw (in_set, fresh) (omega (arith, shrink))
            | inr (a, out, there) ↦
                let fall =
                  missing_lt n (df.ins i) (df'.ins i) a (round.grown.ins_grow i)
                    (small i a (round.sound.ins_sound i a there)) out there in
                rw (in_set, is_start) (ground (arith, fall))
          ]
