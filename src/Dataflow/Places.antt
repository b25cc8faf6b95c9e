-- ===== src/Dataflow/Places.antt =====
-- Where the instructions of a function of src/core/dataflow stand.
use noelle_public.Dataflow.State.{Function}
use mathlib.Core.List.{reverse}
use noelle_public.Dataflow.Engine.{head, instructions}
use noelle_public.Dataflow.Flow.{Next, inner, jump, IsFunction}
use noelle_public.Dataflow.Invariant.{has-head}
use noelle_public.Prelude.{
  List-cases, ℕ, ◌≡◌, refl, sym, ◌∙◌, ap, inl, inr, true, some, List, [], ◌∷◌, has, has-cons,
  has-nil, has-append, ◌==◌, ==_refl, eq_of_==, Bool-cases, subst, arith,
}

pub has-instructions :
    (f : Function) (bs : List ℕ) (i : ℕ)
    → has i (instructions f bs) ≡ true
    → (b : ℕ) × (has b bs ≡ true) × (has i (f.insts b) ≡ true)
unfolding instructions
has-instructions f [] i e = absurd (cc (has-nil i, e))
has-instructions f (c ∷ bs) i e = elim (Bool-cases (has i (f.insts c))) [
  | inl here ↦ (c, ground (arith, has-cons c c bs, ==_refl c), here)
  | inr there ↦
      let (b, in_bs, inside) =
        has-instructions f bs i (ground (arith, has-append i (f.insts c) (instructions f bs))) in
      (b, ground (arith, has-cons b c bs), inside)
]

pub has-instructions_of :
    (f : Function) (bs : List ℕ) (b i : ℕ)
    → has b bs ≡ true
    → has i (f.insts b) ≡ true
    → has i (instructions f bs) ≡ true
unfolding instructions
has-instructions_of f [] b i e inside = absurd (cc (has-nil b, e))
has-instructions_of f (c ∷ bs) b i e inside = elim (Bool-cases (b == c)) [
  | inl same ↦
      let here = subst (λ z. has i (f.insts z) ≡ true) (eq_of_== b c same) inside in
      ground (arith, has-append i (f.insts c) (instructions f bs))
  | inr other ↦
      let rest = has-instructions_of f bs b i (ground (arith, has-cons b c bs)) inside in
      ground (arith, has-append i (f.insts c) (instructions f bs))
]

module _ (f : Function) (n m : ℕ) (w : IsFunction f n m) where
  -- Both ends of a step are instructions of the function.
  pub next_in :
      (i j : ℕ) → Next f i j → (b : ℕ) × (has b f.blocks ≡ true) × (has j (f.insts b) ≡ true)
  next_in i j (inner b before after member split) = (
    b,
    member,
    rw split (
        ground (
          arith,
          has-append j before (i ∷ j ∷ after),
          has-cons j i (j ∷ after),
          has-cons j j after,
          ==_refl j,
        )),
  )
  next_in i j (jump b s member to_s at_i at_j) =
      (s, w.successors_in b s member to_s, has-head (f.insts s) j at_j)

  pub first_of : (b : ℕ) → has b f.blocks ≡ true → (j : ℕ) × (head (f.insts b) ≡ some j)
  unfolding head
  first_of b member =
      let (i, is, shape) = w.not_empty b member in
      elim (List-cases (f.insts b)) [
        | inr (j, rest, e) ↦ (j, rw e refl)
        | inl e ↦ absurd (not_nil i is (sym (ap reverse e) ∙ shape))
      ]
    where
      not_nil : (i : ℕ) (is : List ℕ) → [] ≡ (i ∷ is) → ⊥
      not_nil i is e = cc
