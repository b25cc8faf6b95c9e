-- ===== src/Sccdag/Numbering.antt =====
-- The indexes that computeReachabilityAmongSCCs of SCCDAG.cpp gives to the SCCs.
use noelle_public.BitMatrix.{u32}
use noelle_public.Dg.Store.{Dg, Node}
use noelle_public.Dg.Values.{value_at, values}
use noelle_public.Sccdag.Order.{number_sccs}
use noelle_public.Prelude.{
  ℕ, ◌+◌, ◌%◌, ◌≤◌, ◌<◌, ◌≡◌, refl, sym, ◌∙◌, inl, inr, true, false, some, List, [], ◌∷◌, length,
  has, has-nil, has-cons, lookup, assign, lookup-assign, ==_refl, eq_of_==, Bool-cases, subst,
  arith, ◌>>=◌,
}

-- The indexes from `low` to below `high` belong to the SCCs of a list, each to one of them.
pub record IsNumbering (us : List ℕ) (low high : ℕ) (m m' : List (ℕ × ℕ)) : Type 0 where
  pub kept : (s : ℕ) → has s us ≡ false → lookup s m' ≡ lookup s m
  pub given : (s : ℕ) → has s us ≡ true → (i : ℕ) × (lookup s m' ≡ some i) × (low ≤ i) × (i < high)
  pub distinct :
      (s t i : ℕ)
      → has s us ≡ true
      → has t us ≡ true
      → lookup s m' ≡ some i
      → lookup t m' ≡ some i
      → s ≡ t

IsNumbering-nil : (low : ℕ) (m : List (ℕ × ℕ)) → IsNumbering [] low low m m
IsNumbering-nil low m = record {
  kept = λ s e. refl;
  given = λ s e. absurd (cc (has-nil s, e));
  distinct = λ s t i e f a b. absurd (cc (has-nil s, e));
}

module _ (us : List ℕ) (u low high : ℕ) (m m' : List (ℕ × ℕ)) (below : low < high)
    (rest : IsNumbering us (low + 1) high (assign u low m) m') where
  -- The head has the first index unless it comes again in the rest.
  at_head : has u us ≡ false → lookup u m' ≡ some low
  at_head new = rest.kept u new ∙ ground (arith, lookup-assign u low u m)

  head_or_rest :
      (s i : ℕ)
      → has s (u ∷ us) ≡ true
      → lookup s m' ≡ some i
      → (has s us ≡ false → (s ≡ u) × (i ≡ low)) × (has s us ≡ true → low < i)
  head_or_rest s i e at = (
    λ new.
        let same : s ≡ u = eq_of_== s u (ground (arith, has-cons s u us)) in
        (same, ground (arith, at_head (rw same at new))),
    λ old. let (k, at_k, l, _) = rest.given s old in ground arith,
  )

  IsNumbering-cons : IsNumbering (u ∷ us) low high m m'
  IsNumbering-cons = record {
    kept = λ s e.
        rest.kept s (ground (arith, has-cons s u us))
        ∙ ground (arith, has-cons s u us, lookup-assign u low s m, ==_refl s);
    given = λ s e. elim (Bool-cases (has s us)) [
      | inl old ↦ let (i, at, l, r) = rest.given s old in (i, at, omega arith, r)
      | inr new ↦
          let same : s ≡ u = eq_of_== s u (ground (arith, has-cons s u us)) in
          (low, rw same (at_head (rw same at new)), omega arith, below)
    ];
    distinct = λ s t i e f at_s at_t. elim (Bool-cases (has s us)) [
      | inl old ↦ elim (Bool-cases (has t us)) [
        | inl old' ↦ rest.distinct s t i old old' at_s at_t
        | inr new' ↦
            absurd
              (omega (arith, (head_or_rest s i e at_s).1 old, ((head_or_rest t i f at_t).0 new').1))
      ]
      | inr new ↦ elim (Bool-cases (has t us)) [
        | inl old' ↦
            absurd
              (omega (arith, (head_or_rest t i f at_t).1 old', ((head_or_rest s i e at_s).0 new).1))
        | inr new' ↦ ((head_or_rest s i e at_s).0 new).0 ∙ sym ((head_or_rest t i f at_t).0 new').0
      ]
    ];
  }

pub number_sccs_lem :
    (g : Dg) (ps : List ℕ) (low : ℕ) (m : List (ℕ × ℕ))
    → ((p : ℕ) → has p ps ≡ true → (n : Node) × (g.nodes p ≡ some n))
    → low + length ps < u32
    → (m' : List (ℕ × ℕ)) × (number_sccs g ps low m ≡ some m')
      × IsNumbering (values g ps) low (low + length ps) m m'
unfolding number_sccs values
number_sccs_lem g [] low m lives small =
    (m, refl, subst (λ h. IsNumbering [] low h m m) (omega arith) (IsNumbering-nil low m))
number_sccs_lem g (p ∷ ps) low m lives small =
    let (n, at_p) = lives p (ground (arith, has-cons p p ps, ==_refl p)) in
    let (m', run, rest) =
      number_sccs_lem g ps (low + 1) (assign n.the_t low m)
        (λ q e. lives q (ground (arith, has-cons q p ps))) (omega arith) in
    let step : (low + 1) % u32 ≡ low + 1 = omega arith in
    let top : low + 1 + length ps ≡ low + length (p ∷ ps) = omega arith in
    (
      m',
      rw (at_p, ◌>>=◌) (rw step run),
      subst (λ z. IsNumbering (value_at z ∷ values g ps) low (low + length (p ∷ ps)) m m')
          (sym at_p)
          (IsNumbering-cons (values g ps) n.the_t low (low + length (p ∷ ps)) m m' (omega arith) (
            subst (λ h. IsNumbering (values g ps) (low + 1) h (assign n.the_t low m) m') top rest)),
    )
