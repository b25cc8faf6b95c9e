-- ===== src/Partition/Collect.antt =====
-- The loop of getDescendants and getAncestors of SCCDAGPartition.cpp finds what can be reached.
use noelle_public.Dg.Store.{Dg}
use noelle_public.Partition.Partitioner.{collect, enqueue}
use noelle_public.Prelude.{
  ℕ, zero, suc, ◌+◌, ◌≤◌, ◌<◌, ◌≡◌, refl, ◌↔◌, ◌⊎◌, inl, inr, true, false, not, ◌&&◌, ◌||◌, some,
  Option, List, [], ◌∷◌, ◌++◌, length, length-append, has, has-nil, has-cons, has-append,
  has-insert, insert, ◌==◌, ==_refl, if◌then◌else◌, ◌>>=◌, arith, eq_of_==, Bool-cases, subst, sym,
}

-- How many members of a list a set lacks.
pub missing : List ℕ → List ℕ → ℕ
missing [] found = 0
missing (u ∷ us) found = (if has u found then 0 else 1) + missing us found

missing-le : (us found : List ℕ) → missing us found ≤ length us
unfolding missing
missing-le [] found = omega arith
missing-le (u ∷ us) found = ground (arith, missing-le us found)

missing-insert : (us found : List ℕ) (s : ℕ) → missing us (insert s found) ≤ missing us found
unfolding missing
missing-insert [] found s = omega arith
missing-insert (u ∷ us) found s = ground (arith, has-insert u s found, missing-insert us found s)

missing_falls :
    (us found : List ℕ) (s : ℕ)
    → has s us ≡ true
    → has s found ≡ false
    → missing us (insert s found) < missing us found
unfolding missing
missing_falls [] found s e out = absurd (cc (has-nil s, e))
missing_falls (u ∷ us) found s e out = ground (
  arith,
  has-cons s u us,
  has-insert u s found,
  missing-insert us found s,
  missing_falls us found s,
  eq_of_== s u,
  ==_refl u,
)

has-enqueue :
    (ss found queue : List ℕ) (t : ℕ)
    → (has t (enqueue ss found queue).0 ≡ (has t found || has t ss))
      × (has t (enqueue ss found queue).1 ≡ (has t queue || (has t ss && not (has t found))))
unfolding enqueue
has-enqueue [] found queue t = (ground (arith, has-nil t), ground (arith, has-nil t))
has-enqueue (s ∷ ss) found queue t = elim (Bool-cases (has s found)) [
  | inl old ↦ rw old (ground (arith, has-cons t s ss, has-enqueue ss found queue t, eq_of_== t s))
  | inr new ↦ rw new (
      ground (
        arith,
        has-cons t s ss,
        has-enqueue ss (insert s found) (queue ++ s ∷ []) t,
        has-insert t s found,
        has-append t queue (s ∷ []),
        has-cons t s [],
        has-nil t,
        eq_of_== t s,
      ))
]

enqueue-le :
    (us ss found queue : List ℕ)
    → ((t : ℕ) → has t ss ≡ true → has t us ≡ true)
    → missing us (enqueue ss found queue).0 + length (enqueue ss found queue).1
      ≤ missing us found + length queue
unfolding enqueue
enqueue-le us [] found queue inside = omega arith
enqueue-le us (s ∷ ss) found queue inside =
    let rest = λ (t : ℕ) (e : has t ss ≡ true). inside t (ground (arith, has-cons t s ss)) in
    elim (Bool-cases (has s found)) [
      | inl old ↦ rw old (enqueue-le us ss found queue rest)
      | inr new ↦ rw new (
          omega (
            arith,
            enqueue-le us ss (insert s found) (queue ++ s ∷ []) rest,
            missing_falls us found s (inside s (ground (arith, has-cons s s ss, ==_refl s))) new,
            length-append queue (s ∷ []),
          ))
    ]

module _ (succ : ℕ → List ℕ) where
  -- A walk of at least one step.
  pub data Reaches (s : ℕ) : ℕ → Type 0 where
    one : {t : ℕ} → has t (succ s) ≡ true → Reaches s t
    more : {t u : ℕ} → Reaches s t → has u (succ t) ≡ true → Reaches s u

module _ (g : Dg) (next : Dg → ℕ → Option (Dg × List ℕ)) (succ : ℕ → List ℕ) (us : List ℕ)
    (closed : (s t : ℕ) → has s us ≡ true → has t (succ s) ≡ true → has t us ≡ true)
    (runs : (s : ℕ) → has s us ≡ true → next g s ≡ some (g, succ s)) (start : ℕ) where
  record Searching (found queue : List ℕ) : Type 0 where
    queue_in : (t : ℕ) → has t queue ≡ true → has t us ≡ true
    reached : (t : ℕ) → has t found ≡ true → Reaches succ start t
    known : (t : ℕ) → has t queue ≡ true → (t ≡ start) ⊎ (has t found ≡ true)
    done :
        (t : ℕ)
        → (t ≡ start) ⊎ (has t found ≡ true)
        → (has t queue ≡ true) ⊎ ((u : ℕ) → has u (succ t) ≡ true → has u found ≡ true)

  step :
      (s : ℕ) (found queue : List ℕ)
      → Searching found (s ∷ queue)
      → Searching (enqueue (succ s) found queue).0 (enqueue (succ s) found queue).1
  step s found queue v = record {
    queue_in = λ t e. elim (Bool-cases (has t queue)) [
      | inl old ↦ v.queue_in t (ground (arith, has-cons t s queue))
      | inr new ↦ closed s t in_us (ground (arith, has-enqueue (succ s) found queue t))
    ];
    reached = λ t e. elim (Bool-cases (has t found)) [
      | inl old ↦ v.reached t old
      | inr new ↦ from_s t (ground (arith, has-enqueue (succ s) found queue t))
    ];
    known = λ t e. elim (Bool-cases (has t queue)) [
      | inl old ↦ elim (v.known t (ground (arith, has-cons t s queue))) [
        | inl first ↦ inl first
        | inr in_found ↦ inr (ground (arith, has-enqueue (succ s) found queue t))
      ]
      | inr new ↦ inr (ground (arith, has-enqueue (succ s) found queue t))
    ];
    done = λ t c. elim (Bool-cases (t == s)) [
      | inl here ↦ inr (λ u e.
          let from_here = subst (λ z. has u (succ z) ≡ true) (eq_of_== t s here) e in
          ground (arith, has-enqueue (succ s) found queue u))
      | inr other ↦ elim (Bool-cases (has t found)) [
        | inl old ↦ kept t other (inr old)
        | inr new ↦ elim c [
          | inl first ↦ kept t other (inl first)
          | inr in_found ↦ inl (ground (arith, has-enqueue (succ s) found queue t))
        ]
      ]
    ];
  }
    where
      in_us : has s us ≡ true
      in_us = v.queue_in s (ground (arith, has-cons s s queue, ==_refl s))

      from_s : (t : ℕ) → has t (succ s) ≡ true → Reaches succ start t
      from_s t e = elim (v.known s (ground (arith, has-cons s s queue, ==_refl s))) [
        | inl first ↦ one (subst (λ z. has t (succ z) ≡ true) first e)
        | inr in_found ↦ more (v.reached s in_found) e
      ]

      kept :
          (t : ℕ)
          → (t == s) ≡ false
          → (t ≡ start) ⊎ (has t found ≡ true)
          → (has t (enqueue (succ s) found queue).1 ≡ true)
            ⊎ ((u : ℕ) → has u (succ t) ≡ true → has u (enqueue (succ s) found queue).0 ≡ true)
      kept t other c = elim (v.done t c) [
        | inl waits ↦ inl (ground (arith, has-cons t s queue, has-enqueue (succ s) found queue t))
        | inr closed_here ↦
            inr (λ u e.
              let old = closed_here u e in ground (arith, has-enqueue (succ s) found queue u))
      ]

  settled :
      (found : List ℕ) (t : ℕ) → Searching found [] → Reaches succ start t → has t found ≡ true
  settled found t v (one e) = elim (v.done start (inl refl)) [
    | inl waits ↦ absurd (cc (has-nil start, waits))
    | inr all ↦ all t e
  ]
  settled found t v (more {t = u} r e) = elim (v.done u (inr (settled found u v r))) [
    | inl waits ↦ absurd (cc (has-nil u, waits))
    | inr all ↦ all t e
  ]

  collect_lem :
      (fuel : ℕ) (found queue : List ℕ)
      → Searching found queue
      → missing us found + length queue ≤ fuel
      → (l : List ℕ) × (collect fuel next g found queue ≡ some (g, l))
        × ((t : ℕ) → (has t l ≡ true) ↔ Reaches succ start t)
  unfolding collect
  collect_lem fuel found [] v room = (found, refl, λ t. (v.reached t, settled found t v))
  collect_lem zero found (s ∷ queue) v room = absurd (omega arith)
  collect_lem (suc fuel) found (s ∷ queue) v room =
      let in_us = v.queue_in s (ground (arith, has-cons s s queue, ==_refl s)) in
      let (l, run, law) =
        collect_lem fuel (enqueue (succ s) found queue).0 (enqueue (succ s) found queue).1
          (step s found queue v)
          (omega (arith, enqueue-le us (succ s) found queue (λ t. closed s t in_us))) in
      (l, rw (runs s in_us, ◌>>=◌) run, law)

  -- From the start alone, with a round for each member of the list and one more.
  pub search_lem :
      has start us ≡ true
      → (l : List ℕ) × (collect (length us + 1) next g [] (start ∷ []) ≡ some (g, l))
        × ((t : ℕ) → (has t l ≡ true) ↔ Reaches succ start t)
  search_lem in_us =
      collect_lem (length us + 1) [] (start ∷ []) first (omega (arith, missing-le us []))
    where
      is_start : (t : ℕ) → has t (start ∷ []) ≡ true → t ≡ start
      is_start t e = eq_of_== t start (ground (arith, has-cons t start [], has-nil t))

      first : Searching [] (start ∷ [])
      first = record {
        queue_in = λ t e. subst (λ z. has z us ≡ true) (sym (is_start t e)) in_us;
        reached = λ t e. absurd (cc (has-nil t, e));
        known = λ t e. inl (is_start t e);
        done = λ t c. elim c [
          | inl here ↦ inl (ground (arith, has-cons t start [], ==_refl t))
          | inr e ↦ absurd (cc (has-nil t, e))
        ];
      }
