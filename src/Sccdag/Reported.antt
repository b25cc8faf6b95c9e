-- ===== src/Sccdag/Reported.antt =====
-- The bits that computeReachabilityAmongSCCs of SCCDAG.cpp sets for the edges of the SCCDAG.
use noelle_public.BitVector.{BitVector}
use noelle_public.BitMatrix.{BitMatrix}
use noelle_public.BitMatrix.Access.{bit, IsSized, set_lem}
use noelle_public.Dg.Store.{Dg}
use noelle_public.Dg.Node.{get_src, get_dst}
use noelle_public.Sccdag.Order.{index_of, populate}
use noelle_public.Prelude.{
  ℕ, ◌<◌, ◌≡◌, refl, ◌∙◌, ◌↔◌, ◌⊎◌, inl, inr, Bool, true, false, ◌&&◌, some, List, [], ◌∷◌, has,
  has-nil, has-cons, lookup, ◌==◌, ==_refl, eq_of_==, Bool-cases, subst, sym, arith, if◌then◌else◌,
  ◌>>=◌,
}

pub index_of-eq-some : (s i : ℕ) (m : List (ℕ × ℕ)) → lookup s m ≡ some i → index_of s m ≡ (i, m)
unfolding index_of
index_of-eq-some s i m e = rw (e, index_of) refl

-- An edge of a list between the SCCs that have the two indexes.
pub record Reported (g : Dg) (m : List (ℕ × ℕ)) (es : List ℕ) (a b : ℕ) : Type 0 where
  pub edge : ℕ
  pub early : ℕ
  pub late : ℕ
  pub listed : has edge es ≡ true
  pub src : get_src g edge ≡ some early
  pub dst : get_dst g edge ≡ some late
  pub early_index : lookup early m ≡ some a
  pub late_index : lookup late m ≡ some b

module _ (B : BitVector) (g : Dg) (m : List (ℕ × ℕ)) where
  -- The ends of the edge have indexes in the matrix.
  abbrev pub IsIndexed : ℕ → ℕ → Type 0
  IsIndexed n e =
      (s : ℕ) × (t : ℕ) × (i : ℕ) × (j : ℕ) × (get_src g e ≡ some s)
      × (get_dst g e ≡ some t)
      × (lookup s m ≡ some i)
      × (lookup t m ≡ some j)
      × (i < n)
      × (j < n)

  bits_step :
      (e : ℕ) (es : List ℕ) (s t i j : ℕ)
      → get_src g e ≡ some s
      → get_dst g e ≡ some t
      → lookup s m ≡ some i
      → lookup t m ≡ some j
      → (a b : ℕ) (old new final : Bool) → new ≡ (if (a == i) && (b == j) then true else old)
      → ((final ≡ true) ↔ ((new ≡ true) ⊎ Reported g m es a b))
      → (final ≡ true) ↔ ((old ≡ true) ⊎ Reported g m (e ∷ es) a b)
  bits_step e es s t i j src dst at_s at_t a b old new final set law = (
    λ is_set. elim (law.0 is_set) [
      | inr x ↦ inr (more_edges x)
      | inl is_new ↦ elim (Bool-cases ((a == i) && (b == j))) [
        | inl here ↦ inr (record {
          edge = e;
          early = s;
          late = t;
          listed = ground (arith, has-cons e e es, ==_refl e);
          src = src;
          dst = dst;
          early_index = ground arith;
          late_index = ground arith;
        })
        | inr other ↦ inl (ground arith)
      ]
    ],
    λ o. elim o [
      | inl is_old ↦ law.1 (inl (ground arith))
      | inr x ↦ elim (Bool-cases (x.edge == e)) [
        | inl same ↦ law.1 (inl (first_edge x (eq_of_== x.edge e same)))
        | inr other ↦ law.1 (inr (old_edge x other))
      ]
    ],
  )
    where
      more_edges : Reported g m es a b → Reported g m (e ∷ es) a b
      more_edges x = record {
        edge = x.edge;
        early = x.early;
        late = x.late;
        listed = ground (arith, x.listed, has-cons x.edge e es);
        src = x.src;
        dst = x.dst;
        early_index = x.early_index;
        late_index = x.late_index;
      }

      first_edge : (x : Reported g m (e ∷ es) a b) → x.edge ≡ e → new ≡ true
      first_edge x same =
          let is_s : x.early ≡ s = cc (x.src, src, same) in
          let is_t : x.late ≡ t = cc (x.dst, dst, same) in
          let is_i : a ≡ i = cc (x.early_index, at_s, is_s) in
          let is_j : b ≡ j = cc (x.late_index, at_t, is_t) in ground (arith, set)

      old_edge : (x : Reported g m (e ∷ es) a b) → (x.edge == e) ≡ false → Reported g m es a b
      old_edge x other = record {
        edge = x.edge;
        early = x.early;
        late = x.late;
        listed = ground (arith, x.listed, has-cons x.edge e es);
        src = x.src;
        dst = x.dst;
        early_index = x.early_index;
        late_index = x.late_index;
      }

  pub populate_lem :
      (es : List ℕ) (r : BitMatrix B)
      → IsSized B r
      → ((e : ℕ) → has e es ≡ true → IsIndexed r.n e)
      → (r' : BitMatrix B) × (populate B g es r m ≡ some (r', m))
        × (r'.n ≡ r.n)
        × IsSized B r'
        × ((a b : ℕ)
            → b < r.n
            → (bit B r' a b ≡ true) ↔ ((bit B r a b ≡ true) ⊎ Reported g m es a b))
  unfolding populate
  populate_lem [] r sized indexed = (
    r,
    refl,
    refl,
    sized,
    λ a b l.
        (λ e. inl e, λ o. elim o [ inl e ↦ e | inr x ↦ absurd (cc (has-nil x.edge, x.listed)) ]),
  )
  populate_lem (e ∷ es) r sized indexed =
      let (s, t, i, j, src, dst, at_s, at_t, li, lj) =
        indexed e (ground (arith, has-cons e e es, ==_refl e)) in
      let (r₁, done, same, sized₁, law₁) = set_lem B r i j true sized li lj in
      let (r', run, same', sized', law) = populate_lem es r₁ sized₁ (λ d in_es.
        subst (λ n. IsIndexed n d) (sym same) (indexed d (ground (arith, has-cons d e es)))) in
      (
        r',
        rw (src, ◌>>=◌)
            (rw (dst, ◌>>=◌)
              (rw (index_of-eq-some s i m at_s)
                (rw (index_of-eq-some t j m at_t) (rw (done, ◌>>=◌) run)))),
        same' ∙ same,
        sized',
        λ a b l.
            bits_step e es s t i j src dst at_s at_t a b (bit B r a b) (bit B r₁ a b) (bit B r' a b)
              (law₁ a b l) (law a b (subst (λ n. b < n) (sym same) l)),
      )
