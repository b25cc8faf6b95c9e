-- ===== src/BitVector/Sample.antt =====
-- A bit vector that keeps every law of the interface: a length and a function.
use noelle_public.BitVector.{BitVector}
use noelle_public.Prelude.{
  ℕ, zero, suc, ◌+◌, ◌-◌, ◌≤◌, ◌<◌, ◌≡◌, refl, Bool, true, false, Option, none, some, arith, ltb,
  ◌==◌, if◌then◌else◌, total,
}

pub record Bits : Type 0 where
  pub len : ℕ
  pub at : ℕ → Bool

-- The first set position from p on, among `left` of them.
unfoldable pub scan : ℕ → ℕ → (ℕ → Bool) → Option ℕ
scan zero p f = none
scan (suc left) p f = elim (f p) [ true ↦ some p | false ↦ scan left (p + 1) f ]

pub scan-eq-some :
    (left p : ℕ) (f : ℕ → Bool) (j : ℕ)
    → scan left p f ≡ some j
    → (p ≤ j) × (j < p + left) × (f j ≡ true)
unfolding scan
scan-eq-some zero p f j e = cc
scan-eq-some (suc left) p f j e = ground (arith, scan-eq-some left (p + 1) f j)

pub scan_least :
    (left p : ℕ) (f : ℕ → Bool) (j k : ℕ) → scan left p f ≡ some j → p ≤ k → k < j → f k ≡ false
unfolding scan
scan_least zero p f j k e ge l = cc
scan_least (suc left) p f j k e ge l = ground (arith, scan_least left (p + 1) f j k)

pub scan-eq-none :
    (left p : ℕ) (f : ℕ → Bool) (k : ℕ) → scan left p f ≡ none → p ≤ k → k < p + left → f k ≡ false
unfolding scan
scan-eq-none zero p f k e ge l = absurd (omega arith)
scan-eq-none (suc left) p f k e ge l = ground (arith, scan-eq-none left (p + 1) f k)

abbrev pub vector : BitVector
vector = record {
  Vec = Bits;
  empty = record { len = 0; at = λ i. false };
  size = λ v. v.len;
  get = λ v i. v.at i;
  set = λ v i. record v { at = λ j. if j == i then true else v.at j };
  reset = λ v i. record v { at = λ j. if j == i then false else v.at j };
  clear = λ v. record { len = 0; at = λ i. false };
  resize = λ v n. record { len = n; at = λ i. if ltb i v.len then v.at i else false };
  count = λ v. total v.len (λ i. if v.at i then 1 else 0);
  find_first = λ v. scan v.len 0 v.at;
  find_next = λ v p. scan (v.len - (p + 1)) (p + 1) v.at;
  size_set = λ v i. refl;
  size_reset = λ v i. refl;
  size_clear = λ v. refl;
  size_resize = λ v n. refl;
  get_set = λ v i j l. refl;
  get_reset = λ v i j l. refl;
  get_resize = λ v n i l. refl;
  find_first_some = λ v j e. let (a, b, c) = scan-eq-some v.len 0 v.at j e in (omega arith, c);
  find_first_least = λ v j k e l. scan_least v.len 0 v.at j k e (omega arith) l;
  find_first_none = λ v k e l. scan-eq-none v.len 0 v.at k e (omega arith) (omega arith);
  find_next_some = λ v p j e.
      let (a, b, c) = scan-eq-some (v.len - (p + 1)) (p + 1) v.at j e in
      (omega arith, omega arith, c);
  find_next_least =
      λ v p j k e ge l. scan_least (v.len - (p + 1)) (p + 1) v.at j k e (omega arith) l;
  find_next_none =
      λ v p k e ge l. scan-eq-none (v.len - (p + 1)) (p + 1) v.at k e (omega arith) (omega arith);
}
