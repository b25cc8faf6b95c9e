-- ===== src/Dataflow/Invariant.antt =====
-- What holds between two rounds of the work list of DataFlowEngine.cpp.
use mathlib.Core.List.{reverse}
use noelle_public.Dataflow.State.{Function, DataFlowResult}
use noelle_public.Dataflow.Engine.{head}
use noelle_public.Dataflow.Settled.{Sub, IsSound}
use noelle_public.Dataflow.Blocks.{Fits-same, Settled-same}
use noelle_public.Dataflow.Flow.{IsFunction, has-reverse}
use noelle_public.Dataflow.Rounds.{IsSettled, Round}
use noelle_public.Prelude.{
  ℕ, ◌≡◌, sym, ◌∙◌, ap, inl, inr, true, false, ◌||◌, some, List, [], ◌∷◌, has, has-cons, has-append,
  has-insert, ◌==◌, ==_refl, eq_of_==, Bool-cases, subst, arith,
}

-- Blocks that were computed have their equations inside, and those that do not wait have theirs with
-- the successors.
pub record Inv (P Q : ℕ → ℕ → Type 0) (f : Function) (df : DataFlowResult)
    (computed worklist : List ℕ) : Type 0 where
  pub sound : IsSound P Q df
  pub queued : (b : ℕ) → has b f.blocks ≡ true → (has b computed || has b worklist) ≡ true
  pub within : (b : ℕ) → has b worklist ≡ true → has b f.blocks ≡ true
  pub settled :
      (b i : ℕ) (is : List ℕ)
      → has b f.blocks ≡ true
      → has b computed ≡ true
      → reverse (f.insts b) ≡ i ∷ is
      → IsSettled df i is
  pub met :
      (b s i j : ℕ)
      → has b f.blocks ≡ true
      → has b computed ≡ true
      → has b worklist ≡ false
      → has s (f.successors b) ≡ true
      → head (reverse (f.insts b)) ≡ some i
      → head (f.insts s) ≡ some j
      → Sub (df.ins j) (df.outs i)

pub has-head : (xs : List ℕ) (j : ℕ) → head xs ≡ some j → has j xs ≡ true
unfolding head
has-head [] j e = cc
has-head (x ∷ xs) j e = ground (arith, has-cons j x xs, ==_refl x)

head-some : (i : ℕ) (is : List ℕ) (k : ℕ) → head (i ∷ is) ≡ some k → i ≡ k
unfolding head
head-some i is k e = cc e

module _ (P Q : ℕ → ℕ → Type 0) (f : Function) (n m : ℕ) (w : IsFunction f n m)
    (df df' : DataFlowResult) (computed computed' worklist worklist' : List ℕ) (b i : ℕ)
    (is : List ℕ) (shape : reverse (f.insts b) ≡ i ∷ is)
    (inv : Inv P Q f df computed (b ∷ worklist))
    (round : Round P Q f df computed worklist b i is df' computed' worklist') where
  member : has b f.blocks ≡ true
  member = inv.within b (ground (arith, has-cons b b worklist, ==_refl b))

  -- The round leaves the sets of other blocks as they are.
  elsewhere :
      (c k : ℕ)
      → has c f.blocks ≡ true
      → (c == b) ≡ false
      → has k (f.insts c) ≡ true
      → (df'.outs k ≡ df.outs k) × (df'.ins k ≡ df.ins k)
  elsewhere c k in_c other in_insts = elim (Bool-cases (has k (i ∷ is))) [
    | inr out ↦ round.frame k out
    | inl here ↦
        let in_b = sym (has-reverse k (f.insts b)) ∙ (ap (has k) shape ∙ here) in
        let same = w.owner c b k in_c member in_insts in_b in absurd (ground (arith, ==_refl b))
  ]

  queued_after : (c : ℕ) → has c f.blocks ≡ true → (has c computed' || has c worklist') ≡ true
  queued_after c in_c =
      let before = inv.queued c in_c in
      elim round.outcome [
        | inl (is_c, is_w, _) ↦
            rw (is_c, is_w)
              (ground (
                arith,
                has-insert c b computed,
                has-append c worklist (f.predecessors b),
                has-cons c b worklist,
              ))
        | inr (is_c, is_w, known, _) ↦
            rw (is_c, is_w) (ground (arith, has-cons c b worklist, eq_of_== c b))
      ]

  within_after : (c : ℕ) → has c worklist' ≡ true → has c f.blocks ≡ true
  within_after c waits = elim round.outcome [
    | inl (_, is_w, _) ↦
        let there = rw is_w at waits in
        elim (Bool-cases (has c worklist)) [
          | inl old ↦ inv.within c (ground (arith, has-cons c b worklist))
          | inr new ↦
              w.predecessors_in b c member
                (ground (arith, has-append c worklist (f.predecessors b)))
        ]
    | inr (_, is_w, _, _) ↦
        let there = rw is_w at waits in inv.within c (ground (arith, has-cons c b worklist))
  ]

  -- Another block that is computed now was so before, and waits no less.
  computed_before : (c : ℕ) → (c == b) ≡ false → has c computed' ≡ true → has c computed ≡ true
  computed_before c other e = elim round.outcome [
    | inl (is_c, _, _) ↦ let here = rw is_c at e in ground (arith, has-insert c b computed)
    | inr (is_c, _, _, _) ↦ rw is_c at e
  ]

  waits_less : (c : ℕ) → (c == b) ≡ false → has c worklist' ≡ false → has c (b ∷ worklist) ≡ false
  waits_less c other e = elim round.outcome [
    | inl (_, is_w, _) ↦
        let here = rw is_w at e in
        ground (arith, has-cons c b worklist, has-append c worklist (f.predecessors b))
    | inr (_, is_w, _, _) ↦ let here = rw is_w at e in ground (arith, has-cons c b worklist)
  ]

  IsSettled-after :
      (c k : ℕ) (ks : List ℕ)
      → has c f.blocks ≡ true
      → has c computed' ≡ true
      → reverse (f.insts c) ≡ k ∷ ks
      → IsSettled df' k ks
  IsSettled-after c k ks in_c done shape_c = elim (Bool-cases (c == b)) [
    | inl same ↦
        let lists : (k ∷ ks) ≡ (i ∷ is) =
          sym shape_c ∙ (ap (λ x. reverse (f.insts x)) (eq_of_== c b same) ∙ shape) in
        let is_k : i ≡ k = cc lists in
        let is_ks : is ≡ ks = cc lists in
        subst (λ z. IsSettled df' z ks) is_k (subst (λ z. IsSettled df' i z) is_ks round.settled)
    | inr other ↦
        let unchanged : (j : ℕ)
            → has j (k ∷ ks) ≡ true
            → (df'.outs j ≡ df.outs j) × (df'.ins j ≡ df.ins j) =
          (λ j e.
            elsewhere c j in_c other
              (sym (has-reverse j (f.insts c)) ∙ (ap (has j) shape_c ∙ e))) in
        let at_k = unchanged k (ground (arith, has-cons k k ks, ==_refl k)) in
        let (fits, rest) = inv.settled c k ks in_c (computed_before c other done) shape_c in
        (
          Fits-same df df' k at_k.0 at_k.1 (round.grown.same_gens k) fits,
          Settled-same df df' k ks unchanged round.grown.same_gens rest,
        )
  ]

  -- IN of the first instruction of a successor of a block that does not wait did not grow.
  ins_kept :
      (c s j : ℕ)
      → has c f.blocks ≡ true
      → has c worklist' ≡ false
      → has s (f.successors c) ≡ true
      → head (f.insts s) ≡ some j
      → Sub (df'.ins j) (df.ins j)
  ins_kept c s j in_c rests to_s at_s a h = elim round.outcome [
    | inr (_, _, _, members) ↦ sym (members j a) ∙ h
    | inl (_, is_w, _) ↦ elim (Bool-cases (s == b)) [
      | inr other ↦
          let in_s = w.successors_in c s in_c to_s in
          rw (elsewhere s j in_s other (has-head (f.insts s) j at_s)).1 at h
      | inl same ↦
          let to_b = subst (λ z. has z (f.successors c) ≡ true) (eq_of_== s b same) to_s in
          let from_c = sym (w.both_ways c b in_c member) ∙ to_b in
          let there = rw is_w at rests in
          absurd (ground (arith, has-append c worklist (f.predecessors b)))
    ]
  ]

  met_after :
      (c s k j : ℕ)
      → has c f.blocks ≡ true
      → has c computed' ≡ true
      → has c worklist' ≡ false
      → has s (f.successors c) ≡ true
      → head (reverse (f.insts c)) ≡ some k
      → head (f.insts s) ≡ some j
      → Sub (df'.ins j) (df'.outs k)
  met_after c s k j in_c done rests to_s at_k at_s a h =
      let old = ins_kept c s j in_c rests to_s at_s a h in
      elim (Bool-cases (c == b)) [
        | inl same ↦
            let to_s' = subst (λ z. has s (f.successors z) ≡ true) (eq_of_== c b same) to_s in
            let is_k : i ≡ k = first_same same at_k in
            subst (λ z. has a (df'.outs z) ≡ true) is_k (round.met s j to_s' at_s a old)
        | inr other ↦
            let in_k = sym (has-reverse k (f.insts c)) ∙ has-head (reverse (f.insts c)) k at_k in
            rw (elsewhere c k in_c other in_k).0 (
              inv.met c s k j in_c (computed_before c other done) (waits_less c other rests) to_s
                at_k at_s a old)
      ]
    where
      first_same : (c == b) ≡ true → head (reverse (f.insts c)) ≡ some k → i ≡ k
      first_same same at_k =
          let here =
            sym (ap head (ap (λ x. reverse (f.insts x)) (eq_of_== c b same) ∙ shape)) ∙ at_k in
          head-some i is k here

  pub round-Inv : Inv P Q f df' computed' worklist'
  round-Inv = record {
    sound = round.sound;
    queued = queued_after;
    within = within_after;
    settled = IsSettled-after;
    met = met_after;
  }
