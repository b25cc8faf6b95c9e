-- ===== src/Dataflow/Flow.antt =====
-- The order of execution of a function, against which the analyses of src/core/dataflow are judged.
use mathlib.Core.List.{reverse, reverse-cons, reverse-append, append_assoc}
use noelle_public.Dataflow.State.{Function}
use noelle_public.Dataflow.Engine.{head}
use noelle_public.Dataflow.Settled.{Unique, Linked}
use noelle_public.Prelude.{
  ℕ, ◌<◌, ◌≡◌, refl, ◌∙◌, ap, true, some, List, [], ◌∷◌, ◌++◌, has, has-append, has-cons, has-nil,
  arith,
}

-- Instruction j can be executed directly after i: it is the next one of a block, or the first one of
-- a block that the block of i, whose last one i is, leads to.
pub data Next (f : Function) (i j : ℕ) : Type 0 where
  inner :
      (b : ℕ) (before after : List ℕ)
      → has b f.blocks ≡ true
      → f.insts b ≡ before ++ (i ∷ j ∷ after)
      → Next f i j
  jump :
      (b s : ℕ)
      → has b f.blocks ≡ true
      → has s (f.successors b) ≡ true
      → head (reverse (f.insts b)) ≡ some i
      → head (f.insts s) ≡ some j
      → Next f i j

-- Instruction a can be executed after i, in one step or more.
pub data Later (f : Function) : ℕ → ℕ → Type 0 where
  at_once : {i a : ℕ} → Next f i a → Later f i a
  and_then : {i j a : ℕ} → Next f i j → Later f j a → Later f i a

-- Instructions are below n and blocks below m; no block is empty, every instruction stands at one
-- place, and the two directions of the edges between blocks agree.
pub record IsFunction (f : Function) (n m : ℕ) : Type 0 where
  pub not_empty :
      (b : ℕ) → has b f.blocks ≡ true → (i : ℕ) × (is : List ℕ) × (reverse (f.insts b) ≡ i ∷ is)
  pub once : (b : ℕ) → has b f.blocks ≡ true → Unique (reverse (f.insts b))
  pub owner :
      (b c i : ℕ)
      → has b f.blocks ≡ true
      → has c f.blocks ≡ true
      → has i (f.insts b) ≡ true
      → has i (f.insts c) ≡ true
      → b ≡ c
  pub successors_in :
      (b s : ℕ) → has b f.blocks ≡ true → has s (f.successors b) ≡ true → has s f.blocks ≡ true
  pub predecessors_in :
      (b p : ℕ) → has b f.blocks ≡ true → has p (f.predecessors b) ≡ true → has p f.blocks ≡ true
  pub both_ways :
      (b s : ℕ)
      → has b f.blocks ≡ true
      → has s f.blocks ≡ true
      → has s (f.successors b) ≡ has b (f.predecessors s)
  pub inst_below : (b i : ℕ) → has b f.blocks ≡ true → has i (f.insts b) ≡ true → i < n
  pub block_below : (b : ℕ) → has b f.blocks ≡ true → b < m

pub has-reverse : (a : ℕ) (xs : List ℕ) → has a (reverse xs) ≡ has a xs
has-reverse a [] = refl
has-reverse a (x ∷ xs) =
    ap (has a) (reverse-cons x xs)
    ∙ ground (
      arith,
      has-append a (reverse xs) (x ∷ []),
      has-reverse a xs,
      has-cons a x xs,
      has-cons a x [],
      has-nil a,
    )

-- The instructions of a block, from its end on, follow one another.
pub Linked-from :
    (f : Function) (b : ℕ) (is : List ℕ) (next : ℕ) (done : List ℕ)
    → has b f.blocks ≡ true
    → f.insts b ≡ reverse is ++ (next ∷ done)
    → Linked (Next f) next is
Linked-from f b [] next done member e = tt
Linked-from f b (i ∷ is) next done member e =
    let split =
      e
      ∙ (ap (λ l. l ++ (next ∷ done)) (reverse-cons i is)
          ∙ append_assoc (reverse is) (i ∷ []) (next ∷ done)) in
    (inner b (reverse is) done member split, Linked-from f b is i (next ∷ done) member split)

pub reverse_split :
    (before after : List ℕ) (i j : ℕ)
    → reverse (before ++ (i ∷ j ∷ after)) ≡ reverse after ++ (j ∷ i ∷ reverse before)
reverse_split before after i j =
    reverse-append before (i ∷ j ∷ after)
    ∙ (ap (λ l. l ++ reverse before)
          (reverse-cons i (j ∷ after) ∙ ap (λ l. l ++ (i ∷ [])) (reverse-cons j after))
        ∙ (append_assoc (reverse after ++ (j ∷ [])) (i ∷ []) (reverse before)
            ∙ append_assoc (reverse after) (j ∷ []) (i ∷ reverse before)))
