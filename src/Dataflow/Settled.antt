-- ===== src/Dataflow/Settled.antt =====
-- DataFlowEngine.cpp: what the analysis of DataFlowAnalysis.cpp does along one block.
use noelle_public.Dataflow.State.{Function, DataFlowResult}
use noelle_public.Dataflow.Engine.{put_ins, put_outs}
use noelle_public.Prelude.{
  ℕ, ◌≡◌, refl, ◌∙◌, inl, inr, Bool, true, false, ◌||◌, List, [], ◌∷◌, has, has-insert_all,
  insert_all, ◌==◌, ==_refl, eq_of_==, if◌then◌else◌, Bool-cases, subst, arith,
}

abbrev pub Sub : List ℕ → List ℕ → Type 0
Sub xs ys = (a : ℕ) → has a xs ≡ true → has a ys ≡ true

-- The sets of a result only grew.
pub record Extends (df df' : DataFlowResult) : Type 0 where
  pub outs_grow : (i : ℕ) → Sub (df.outs i) (df'.outs i)
  pub ins_grow : (i : ℕ) → Sub (df.ins i) (df'.ins i)
  pub same_gens : (i : ℕ) → df'.gens i ≡ df.gens i

pub Extends-refl : (df : DataFlowResult) → Extends df df
Extends-refl df = record { outs_grow = λ i a h. h; ins_grow = λ i a h. h; same_gens = λ i. refl }

pub Extends-trans : (df d₁ d₂ : DataFlowResult) → Extends df d₁ → Extends d₁ d₂ → Extends df d₂
Extends-trans df d₁ d₂ x y = record {
  outs_grow = λ i a h. y.outs_grow i a (x.outs_grow i a h);
  ins_grow = λ i a h. y.ins_grow i a (x.ins_grow i a h);
  same_gens = λ i. y.same_gens i ∙ x.same_gens i;
}

-- Only the sets of the listed instructions changed.
abbrev pub Frame : List ℕ → DataFlowResult → DataFlowResult → Type 0
Frame is df df' = (i : ℕ) → has i is ≡ false → (df'.outs i ≡ df.outs i) × (df'.ins i ≡ df.ins i)

-- What a set may hold: a property for OUT and one for IN, closed under the equations.
pub record IsSound (P Q : ℕ → ℕ → Type 0) (df : DataFlowResult) : Type 0 where
  pub outs_sound : (i a : ℕ) → has a (df.outs i) ≡ true → P i a
  pub ins_sound : (i a : ℕ) → has a (df.ins i) ≡ true → Q i a
  pub gens_sound : (i a : ℕ) → has a (df.gens i) ≡ true → Q i a

abbrev pub Unique : List ℕ → Type 0
Unique [] = Unit {0}
Unique (i ∷ is) = (has i is ≡ false) × Unique is

-- The sets of an instruction fit its own equation.
abbrev pub Fits : DataFlowResult → ℕ → Type 0
Fits df i = Sub (df.gens i) (df.ins i) × Sub (df.outs i) (df.ins i)

-- The rest of a block, after `next`, from the end of the block on.
abbrev pub Settled : DataFlowResult → ℕ → List ℕ → Type 0
Settled df next [] = Unit {0}
Settled df next (i ∷ is) = Sub (df.ins next) (df.outs i) × Fits df i × Settled df i is

-- Each instruction of the list is followed by the one before it in the list.
abbrev pub Linked : (ℕ → ℕ → Type 0) → ℕ → List ℕ → Type 0
Linked R next [] = Unit {0}
Linked R next (i ∷ is) = R i next × Linked R i is

module _ (filter : ℕ → Bool) (f : Function) where
  -- OUT of i gains what IN of the next instruction has, and IN of i gains GEN and OUT of i.
  abbrev pub met : DataFlowResult → ℕ → ℕ → DataFlowResult
  met df i next = put_outs df i (insert_all (df.ins next) (df.outs i))

  abbrev pub transferred : DataFlowResult → ℕ → DataFlowResult
  transferred df i = put_ins df i (insert_all (df.outs i) (insert_all (df.gens i) (df.ins i)))

  pub has-met :
      (df : DataFlowResult) (i next j a : ℕ)
      → has a ((met df i next).outs j)
        ≡ (if i == j then has a (df.ins next) || has a (df.outs i) else has a (df.outs j))
  has-met df i next j a = ground (arith, has-insert_all a (df.ins next) (df.outs i))

  pub has-transferred :
      (df : DataFlowResult) (i j a : ℕ)
      → has a ((transferred df i).ins j) ≡ (
          if i == j
          then has a (df.outs i) || (has a (df.gens i) || has a (df.ins i))
          else has a (df.ins j))
  has-transferred df i j a = ground (
    arith,
    has-insert_all a (df.outs i) (insert_all (df.gens i) (df.ins i)),
    has-insert_all a (df.gens i) (df.ins i),
  )

  pub met-Extends : (df : DataFlowResult) (i next : ℕ) → Extends df (met df i next)
  met-Extends df i next = record {
    outs_grow = λ j a h. ground (arith, has-met df i next j a, eq_of_== i j);
    ins_grow = λ j a h. h;
    same_gens = λ j. refl;
  }

  pub transferred-Extends : (df : DataFlowResult) (i : ℕ) → Extends df (transferred df i)
  transferred-Extends df i = record {
    outs_grow = λ j a h. h;
    ins_grow = λ j a h. ground (arith, has-transferred df i j a, eq_of_== i j);
    same_gens = λ j. refl;
  }

  pub transferred-Fits : (df : DataFlowResult) (i : ℕ) → Fits (transferred df i) i
  transferred-Fits df i = (
    λ a h. ground (arith, has-transferred df i i a, ==_refl i),
    λ a h. ground (arith, has-transferred df i i a, ==_refl i),
  )

  module _ (P Q : ℕ → ℕ → Type 0) (weaken : (i a : ℕ) → P i a → Q i a) (R : ℕ → ℕ → Type 0)
      (step : (i j a : ℕ) → R i j → Q j a → P i a) where
    pub met-IsSound :
        (df : DataFlowResult) (i next : ℕ) → R i next → IsSound P Q df → IsSound P Q (met df i next)
    met-IsSound df i next r s = record {
      outs_sound = λ j a h. elim (Bool-cases (i == j)) [
        | inr other ↦ s.outs_sound j a (ground (arith, has-met df i next j a))
        | inl same ↦
            subst (λ z. P z a) (eq_of_== i j same)
              (elim (Bool-cases (has a (df.ins next))) [
                | inl new ↦ step i next a r (s.ins_sound next a new)
                | inr old ↦ s.outs_sound i a (ground (arith, has-met df i next j a))
              ])
      ];
      ins_sound = s.ins_sound;
      gens_sound = s.gens_sound;
    }

    pub transferred-IsSound :
        (df : DataFlowResult) (i : ℕ) → IsSound P Q df → IsSound P Q (transferred df i)
    transferred-IsSound df i s = record {
      outs_sound = s.outs_sound;
      ins_sound = λ j a h. elim (Bool-cases (i == j)) [
        | inr other ↦ s.ins_sound j a (ground (arith, has-transferred df i j a))
        | inl same ↦
            subst (λ z. Q z a) (eq_of_== i j same)
              (elim (Bool-cases (has a (df.outs i))) [
                | inl x ↦ weaken i a (s.outs_sound i a x)
                | inr no_out ↦ elim (Bool-cases (has a (df.gens i))) [
                  | inl y ↦ s.gens_sound i a y
                  | inr no_gen ↦ s.ins_sound i a (ground (arith, has-transferred df i j a))
                ]
              ])
      ];
      gens_sound = s.gens_sound;
    }
