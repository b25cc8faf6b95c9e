-- ===== src/Partition/Reach.antt =====
-- The sets of a partition graph of SCCDAGPartition.cpp, and those at one end of some edges.
use noelle_public.Partition.Partitioner.{sets_at}
use noelle_public.Prelude.{
  ℕ, ◌≡◌, refl, sym, ◌∙◌, ap, ◌↔◌, inl, inr, true, Option, some, List, [], ◌∷◌, has, has-nil,
  has-cons, ◌==◌, ==_refl, ◌>>=◌, arith, eq_of_==, Bool-cases, subst,
}

pub sets_at_lem :
    (end : ℕ → Option ℕ) (es : List ℕ)
    → ((e : ℕ) → has e es ≡ true → (t : ℕ) × (end e ≡ some t))
    → (ss : List ℕ) × (sets_at end es ≡ some ss)
      × ((t : ℕ) → (has t ss ≡ true) ↔ ((e : ℕ) × (has e es ≡ true) × (end e ≡ some t)))
unfolding sets_at
sets_at_lem end [] h =
    ([], refl, λ t. ((λ e. absurd (cc (has-nil t, e))), λ c. absurd (cc (has-nil c.0, c.1))))
sets_at_lem end (e ∷ es) h =
    let (s, at_e) = h e (ground (arith, has-cons e e es, ==_refl e)) in
    let (ss, run, law) = sets_at_lem end es (λ d t. h d (ground (arith, has-cons d e es))) in
    (
      s ∷ ss,
      rw (at_e, ◌>>=◌) (rw (run, ◌>>=◌) refl),
      λ t. (
        λ in_t. elim (Bool-cases (t == s)) [
          | inl same ↦ (
            e,
            ground (arith, has-cons e e es, ==_refl e),
            at_e ∙ ap some (sym (eq_of_== t s same)),
          )
          | inr other ↦
              let (d, in_d, at_d) = (law t).0 (ground (arith, has-cons t s ss)) in
              (d, ground (arith, has-cons d e es), at_d)
        ],
        λ (d, in_d, at_d). elim (Bool-cases (d == e)) [
          | inl same ↦
              let is_s : s ≡ t = cc (at_e, at_d, eq_of_== d e same) in
              subst (λ z. has z (s ∷ ss) ≡ true) is_s (ground (arith, has-cons s s ss, ==_refl s))
          | inr other ↦
              let old = (law t).1 (d, ground (arith, has-cons d e es), at_d) in
              ground (arith, has-cons t s ss)
        ],
      ),
    )
