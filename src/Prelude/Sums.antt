-- ===== src/Prelude/Sums.antt =====
-- Sums over the numbers below n, as measures of loops.
use Prim.Native.Nat.{ℕ, zero, suc, ◌+◌, ◌*◌, ◌≤◌, ◌<◌}
use mathlib.Core.Path.{◌≡◌, subst}
use mathlib.Core.Logic.{◌⊎◌, inl, inr}
use native.Mathlib.Omega.{arith}

pub total : ℕ → (ℕ → ℕ) → ℕ
total zero f = 0
total (suc n) f = f n + total n f

pub total_mono : (n : ℕ) (f g : ℕ → ℕ) → ((a : ℕ) → a < n → f a ≤ g a) → total n f ≤ total n g
unfolding total
total_mono zero f g h = omega arith
total_mono (suc n) f g h =
    omega (arith, h n (omega arith), total_mono n f g (λ a l. h a (omega arith)))

pub total_lt :
    (n : ℕ) (f g : ℕ → ℕ) (b : ℕ)
    → ((a : ℕ) → a < n → f a ≤ g a)
    → b < n
    → f b < g b
    → total n f < total n g
unfolding total
total_lt zero f g b h l s = absurd (omega arith)
total_lt (suc n) f g b h l s = elim (last_or_below b n l) [
  | inl last ↦
      omega (arith, subst (λ x. f x < g x) last s, total_mono n f g (λ a r. h a (omega arith)))
  | inr below ↦
      omega (arith, h n (omega arith), total_lt n f g b (λ a r. h a (omega arith)) below s)
]
  where
    last_or_below : (b n : ℕ) → b < suc n → (b ≡ n) ⊎ (b < n)
    last_or_below b n l = grind arith

pub total-le : (n c : ℕ) (f : ℕ → ℕ) → ((a : ℕ) → a < n → f a ≤ c) → total n f ≤ n * c
unfolding total
total-le zero c f h = omega arith
total-le (suc n) c f h = omega (arith, h n (omega arith), total-le n c f (λ a r. h a (omega arith)))

-- One summand that falls by c makes the sum fall by c.
pub total_drop :
    (n : ℕ) (f g : ℕ → ℕ) (b c : ℕ)
    → ((a : ℕ) → a < n → f a ≤ g a)
    → b < n
    → f b + c ≤ g b
    → total n f + c ≤ total n g
unfolding total
total_drop zero f g b c h l s = absurd (omega arith)
total_drop (suc n) f g b c h l s = elim (last_or_below b n l) [
  | inl last ↦
      omega (arith, subst (λ x. f x + c ≤ g x) last s, total_mono n f g (λ a r. h a (omega arith)))
  | inr below ↦
      omega (arith, h n (omega arith), total_drop n f g b c (λ a r. h a (omega arith)) below s)
]
  where
    last_or_below : (b n : ℕ) → b < suc n → (b ≡ n) ⊎ (b < n)
    last_or_below b n l = grind arith
