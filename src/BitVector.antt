-- ===== src/BitVector.antt =====
-- llvm::BitVector, which src/core/basic_utilities/src/BitMatrix.cpp stores its bits in. It is not
-- part of the repository: its documented behaviour is an interface. `none` is its result -1.
pub mod Sample
use noelle_public.Prelude.{
  ℕ, ◌<◌, ◌≡◌, Bool, true, false, Option, none, some, ltb, ◌==◌, if◌then◌else◌,
}

pub record BitVector : Type 1 where
  pub Vec : Type 0
  pub empty : Vec
  pub size : Vec → ℕ
  pub get : Vec → ℕ → Bool
  pub set : Vec → ℕ → Vec
  pub reset : Vec → ℕ → Vec
  pub clear : Vec → Vec
  pub resize : Vec → ℕ → Vec
  pub count : Vec → ℕ
  pub find_first : Vec → Option ℕ
  pub find_next : Vec → ℕ → Option ℕ
  pub size_set : (v : Vec) (i : ℕ) → size (set v i) ≡ size v
  pub size_reset : (v : Vec) (i : ℕ) → size (reset v i) ≡ size v
  pub size_clear : (v : Vec) → size (clear v) ≡ 0
  pub size_resize : (v : Vec) (n : ℕ) → size (resize v n) ≡ n
  pub get_set :
      (v : Vec) (i j : ℕ) → i < size v → get (set v i) j ≡ (if j == i then true else get v j)
  pub get_reset :
      (v : Vec) (i j : ℕ) → i < size v → get (reset v i) j ≡ (if j == i then false else get v j)
  pub get_resize :
      (v : Vec) (n i : ℕ) → i < n → get (resize v n) i ≡ (if ltb i (size v) then get v i else false)
  pub find_first_some : (v : Vec) (j : ℕ) → find_first v ≡ some j → (j < size v) × (get v j ≡ true)
  pub find_first_least : (v : Vec) (j k : ℕ) → find_first v ≡ some j → k < j → get v k ≡ false
  pub find_first_none : (v : Vec) (k : ℕ) → find_first v ≡ none → k < size v → get v k ≡ false
  pub find_next_some :
      (v : Vec) (p j : ℕ) → find_next v p ≡ some j → (p < j) × (j < size v) × (get v j ≡ true)
  pub find_next_least :
      (v : Vec) (p j k : ℕ) → find_next v p ≡ some j → p < k → k < j → get v k ≡ false
  pub find_next_none :
      (v : Vec) (p k : ℕ) → find_next v p ≡ none → p < k → k < size v → get v k ≡ false
