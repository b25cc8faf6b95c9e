-- ===== src/Dataflow/Start.antt =====
-- DataFlowEngine.cpp: the sets and the work list that the analysis of DataFlowAnalysis.cpp starts with.
use noelle_public.Dataflow.State.{Function, DataFlowResult, assign_set}
use noelle_public.Dataflow.Engine.{backward, initialize, compute_gen_and_kill, initial_list}
use noelle_public.Dataflow.Analysis.{reachable_equations}
use noelle_public.Prelude.{
  ℕ, ◌+◌, ◌≡◌, refl, ◌∙◌, ap, inl, inr, Bool, true, ◌&&◌, ◌||◌, List, [], ◌∷◌, length, has,
  has-cons, has-nil, has-insert, insert, ◌==◌, eq_of_==, if◌then◌else◌, Bool-cases, subst, arith,
}

-- The initial sets.
pub record IsFresh (df : DataFlowResult) : Type 0 where
  pub no_ins : (i : ℕ) → df.ins i ≡ []
  pub no_outs : (i : ℕ) → df.outs i ≡ []

module _ (filter : ℕ → Bool) where
  pub initialize_lem :
      (is : List ℕ) (df : DataFlowResult)
      → IsFresh df
      → IsFresh (initialize (reachable_equations filter) df is)
        × ((i : ℕ) → (initialize (reachable_equations filter) df is).gens i ≡ df.gens i)
  unfolding initialize
  initialize_lem [] df fresh = (fresh, λ i. refl)
  initialize_lem (k ∷ is) df fresh = initialize_lem is _ (record {
    no_ins = λ i. elim (Bool-cases (k == i)) [
      | inl same ↦ rw same (fresh.no_ins k)
      | inr other ↦ rw other (fresh.no_ins i)
    ];
    no_outs = λ i. elim (Bool-cases (k == i)) [
      | inl same ↦ rw same (fresh.no_outs k)
      | inr other ↦ rw other (fresh.no_outs i)
    ];
  })

  abbrev generated : DataFlowResult → ℕ → DataFlowResult
  generated df k =
      if filter k then record df { gens = assign_set df.gens k (insert k (df.gens k)) } else df

  generated_lem :
      (df : DataFlowResult) (k : ℕ)
      → IsFresh df
      → IsFresh (generated df k)
        × ((i a : ℕ)
            → has a ((generated df k).gens i)
              ≡ ((a == i && (filter k && k == i)) || has a (df.gens i)))
  generated_lem df k fresh = elim (Bool-cases (filter k)) [
    | inr out ↦ (rw out fresh, λ i a. rw out (ground arith))
    | inl kept ↦ (
      rw kept (record { no_ins = fresh.no_ins; no_outs = fresh.no_outs }),
      λ i a. rw kept (elim (Bool-cases (k == i)) [
        | inr other ↦ rw other (ground arith)
        | inl same ↦
            let here = eq_of_== k i same in
            rw same (
              subst
                (λ z.
                  has a (insert k (df.gens k)) ≡ ((a == z && (true && true)) || has a (df.gens z)))
                here (ground (arith, has-insert a k (df.gens k))))
      ]),
    )
  ]

  -- GEN of an instruction holds itself, if it passes the filter.
  pub generate_lem :
      (is : List ℕ) (df : DataFlowResult)
      → IsFresh df
      → IsFresh (compute_gen_and_kill (reachable_equations filter) df is)
        × ((i a : ℕ)
            → has a ((compute_gen_and_kill (reachable_equations filter) df is).gens i)
              ≡ ((a == i && (filter i && has i is)) || has a (df.gens i)))
  unfolding compute_gen_and_kill
  generate_lem [] df fresh = (fresh, λ i a. ground (arith, has-nil i))
  generate_lem (k ∷ is) df fresh =
      let (fresh₁, law₁) = generated_lem df k fresh in
      let (fresh', law) = generate_lem is (generated df k) fresh₁ in
      (
        fresh',
        λ i a.
            law i a
            ∙ (ap (λ b. (a == i && (filter i && has i is)) || b) (law₁ i a)
                ∙ joined i a k is (has a (df.gens i))),
      )
    where
      joined :
          (i a k : ℕ) (is : List ℕ) (old : Bool)
          → ((a == i && (filter i && has i is)) || ((a == i && (filter k && k == i)) || old))
            ≡ ((a == i && (filter i && has i (k ∷ is))) || old)
      joined i a k is old = elim (Bool-cases (k == i)) [
        | inl same ↦
            subst
              (λ z.
                ((a == z && (filter z && has z is)) || ((a == z && (filter k && k == z)) || old))
                ≡ ((a == z && (filter z && has z (k ∷ is))) || old))
              (eq_of_== k i same) (ground (arith, has-cons k k is))
        | inr other ↦ ground (arith, has-cons i k is)
      ]

  pub initial_list_lem :
      (f : Function) (bs l : List ℕ)
      → ((b : ℕ)
          → has b (initial_list (reachable_equations filter) (backward f) l bs)
            ≡ (has b bs || has b l))
        × (length (initial_list (reachable_equations filter) (backward f) l bs)
            ≡ length bs + length l)
  unfolding initial_list
  initial_list_lem f [] l = (λ b. ground (arith, has-nil b), omega arith)
  initial_list_lem f (c ∷ bs) l =
      let (law, size) = initial_list_lem f bs (c ∷ l) in
      (λ b. ground (arith, law b, has-cons b c bs, has-cons b c l), omega (arith, size))
