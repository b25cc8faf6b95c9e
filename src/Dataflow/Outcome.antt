-- ===== src/Dataflow/Outcome.antt =====
-- How a run of src/core/dataflow ends: with a result, or at one of the places where it cannot go on.
use noelle_public.Prelude.{ℕ}

-- The end iterator of a block is dereferenced; a null pointer is cast, in a block without an
-- instruction; the rounds given to a loop are used up.
pub data Fault : Type 0 where
  past_end null_cast : ℕ → Fault
  out_of_rounds : Fault

pub data Outcome {ℓ} (A : Type ℓ) : Type ℓ where
  done : A → Outcome A
  fault : Fault → Outcome A

infixl 5 ◌>>=◌
abbrev pub ◌>>=◌ {ℓ κ} : {A : Type ℓ} {B : Type κ} → Outcome A → (A → Outcome B) → Outcome B
done a >>= f = f a
fault e >>= f = fault e
