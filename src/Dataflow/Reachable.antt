-- ===== src/Dataflow/Reachable.antt =====
-- DataFlowAnalysis.cpp: runReachableAnalysis finds the instructions that can be executed afterwards.
use noelle_public.Dataflow.Places.{has-instructions, has-instructions_of, next_in, first_of}
use noelle_public.Dataflow.Start.{IsFresh, initialize_lem, generate_lem, initial_list_lem}
use noelle_public.Dataflow.State.{Function, DataFlowResult, new_result}
use noelle_public.Dataflow.Engine.{
  backward, instructions, initialize, compute_gen_and_kill, initial_list, apply_backward,
  apply_generalized_forward_analysis,
}
use noelle_public.Dataflow.Analysis.{reachable_equations, run_filtered_analysis}
use noelle_public.Dataflow.Flow.{Next, Later, at_once, and_then, IsFunction}
use noelle_public.Dataflow.Invariant.{Inv}
use noelle_public.Dataflow.Iteration.{work, weight, missing-le, start_of}
use noelle_public.Dataflow.Fixpoint.{iterate_lem, all_Fits, next_holds}
use noelle_public.Dataflow.Outcome.{done}
use noelle_public.Prelude.{
  ℕ, ◌+◌, ◌*◌, ◌≤◌, ◌<◌, ◌≡◌, refl, sym, ◌∙◌, ap, ◌↔◌, ◌⊎◌, inl, inr, Bool, true, ◌&&◌, List, [],
  length, has, has-nil, ◌==◌, ==_refl, eq_of_==, subst, arith, total, total_mono,
}

module _ (f : Function) (n m : ℕ) (w : IsFunction f n m) where
  module _ (filter : ℕ → Bool) where
    abbrev InOut : ℕ → ℕ → Type 0
    InOut i a = Later f i a × (filter a ≡ true) × (a < n)

    abbrev InIn : ℕ → ℕ → Type 0
    InIn i a = ((a ≡ i) ⊎ Later f i a) × (filter a ≡ true) × (a < n)

    back : (i j a : ℕ) → Next f i j → InIn j a → InOut i a
    back i j a x (inl same, kept, below) =
        (at_once (subst (λ z. Next f i z) (sym same) x), kept, below)
    back i j a x (inr l, kept, below) = (and_then x l, kept, below)

    -- The state in which the work list starts.
    abbrev start : DataFlowResult
    start =
        compute_gen_and_kill (reachable_equations filter)
          (initialize (reachable_equations filter) new_result (instructions f f.blocks))
          (instructions f f.blocks)

    abbrev first_list : List ℕ
    first_list = initial_list (reachable_equations filter) (backward f) [] f.blocks

    start_lem :
        IsFresh start
        × ((i a : ℕ)
            → has a (start.gens i) ≡ (a == i && (filter i && has i (instructions f f.blocks))))
    unfolding new_result
    start_lem =
        let (fresh, gens) =
          initialize_lem filter (instructions f f.blocks) new_result
            (record { no_ins = λ i. refl; no_outs = λ i. refl }) in
        let (fresh', law) =
          generate_lem filter (instructions f f.blocks)
            (initialize (reachable_equations filter) new_result (instructions f f.blocks)) fresh in
        (fresh', λ i a. law i a ∙ ground (arith, gens i, has-nil a))

    generated_sound :
        (i a : ℕ) → (a == i && (filter i && has i (instructions f f.blocks))) ≡ true → InIn i a
    generated_sound i a e =
        let same : a ≡ i = eq_of_== a i (ground arith) in
        let kept : filter i ≡ true = ground arith in
        let (b, member, inside) = has-instructions f f.blocks i (ground arith) in
        (
          inl same,
          subst (λ z. filter z ≡ true) (sym same) kept,
          subst (λ z. z < n) (sym same) (w.inst_below b i member inside),
        )

    start-Inv : Inv InOut InIn f start [] first_list
    start-Inv =
        let (fresh, gens) = start_lem in
        let (members, _) = initial_list_lem filter f f.blocks [] in
        record {
          sound = record {
            outs_sound = λ i a h. absurd (cc (has-nil a, rw (fresh.no_outs i) at h));
            ins_sound = λ i a h. absurd (cc (has-nil a, rw (fresh.no_ins i) at h));
            gens_sound = λ i a h. generated_sound i a (sym (gens i a) ∙ h);
          };
          queued = λ b e. ground (arith, members b, has-nil b);
          within = λ b e. ground (arith, members b, has-nil b);
          settled = λ b i is e done. absurd (cc (has-nil b, done));
          met = λ b s i j e done. absurd (cc (has-nil b, done));
        }

    -- Enough rounds: each of a block's predecessors can be queued once and for each instruction.
    abbrev pub rounds : ℕ
    rounds = length f.blocks + total m (λ b. length (f.predecessors b) * (n + 1))

    scale_up : (c x y : ℕ) → x ≤ y → c * x ≤ c * y
    scale_up c x y h = grind arith

    start-work : work InOut InIn f n m w (λ i a q. q.2) start [] first_list ≤ rounds
    start-work =
        let (_, size) = initial_list_lem filter f f.blocks [] in
        omega (
          arith,
          total_mono m (weight f n start []) (λ b. length (f.predecessors b) * (n + 1))
              (λ b l.
                scale_up _ _ _
                  (ground (arith, missing-le n (start.ins (start_of f b)), has-nil b))),
          size,
        )

    module _ (df : DataFlowResult) (computed : List ℕ) (inv : Inv InOut InIn f df computed [])
        (gens : (i : ℕ) → df.gens i ≡ start.gens i) where
      own :
          (b a : ℕ)
          → has b f.blocks ≡ true
          → has a (f.insts b) ≡ true
          → filter a ≡ true
          → has a (df.ins a) ≡ true
      own b a member inside kept =
          let listed = has-instructions_of f f.blocks b a member inside in
          let generated : has a (df.gens a) ≡ true =
            ap (has a) (gens a) ∙ (start_lem.1 a a ∙ ground (arith, ==_refl a)) in
          (all_Fits InOut InIn f n m w df computed inv b a member inside).0 a generated

      -- What can be executed later is found.
      found : (i a : ℕ) → Later f i a → filter a ≡ true → has a (df.outs i) ≡ true
      found i a (at_once x) kept =
          let (b, member, inside) = next_in f n m w i a x in
          next_holds InOut InIn f n m w df computed inv i a x a (own b a member inside kept)
      found i a (and_then {j = j} x l) kept =
          let (b, member, inside) = next_in f n m w i j x in
          next_holds InOut InIn f n m w df computed inv i j x a
            ((all_Fits InOut InIn f n m w df computed inv b j member inside).1 a (found j a l kept))

      found_or_own :
          (b i a : ℕ)
          → has b f.blocks ≡ true
          → has i (f.insts b) ≡ true
          → filter a ≡ true
          → (a ≡ i) ⊎ Later f i a
          → has a (df.ins i) ≡ true
      found_or_own b i a member inside kept (inl same) =
          subst (λ z. has a (df.ins z) ≡ true) same
            (own b a member (subst (λ z. has z (f.insts b) ≡ true) (sym same) inside) kept)
      found_or_own b i a member inside kept (inr l) =
          (all_Fits InOut InIn f n m w df computed inv b i member inside).1 a (found i a l kept)

    -- For a function whose blocks are not empty, whose instructions stand at one place each and whose
    -- edges agree in both directions, the analysis ends within `rounds` rounds, without touching the end
    -- of a block. Then OUT of an instruction has exactly the instructions that pass the filter and can
    -- be executed after it, in one step or more, and IN has those and the instruction itself, if it
    -- passes the filter.
    pub run_filtered_analysis_lem :
        (fuel : ℕ)
        → rounds ≤ fuel
        → (df : DataFlowResult) × (run_filtered_analysis filter fuel f ≡ done df)
          × ((b i a : ℕ)
              → has b f.blocks ≡ true
              → has i (f.insts b) ≡ true
              → ((has a (df.outs i) ≡ true) ↔ (Later f i a × (filter a ≡ true)))
                × ((has a (df.ins i) ≡ true) ↔ (((a ≡ i) ⊎ Later f i a) × (filter a ≡ true))))
    unfolding run_filtered_analysis apply_backward apply_generalized_forward_analysis
    run_filtered_analysis_lem fuel enough =
        let (df, computed, run, inv, gens) =
          iterate_lem filter InOut InIn f n m w (λ i a q. q.2) (λ i a p. (inr p.0, p.1, p.2)) back
            (first_of f n m w) fuel start [] first_list start-Inv (omega (arith, start-work)) in
        (
          df,
          run,
          λ b i a member inside. (
            (
              λ h. let (l, kept, _) = inv.sound.outs_sound i a h in (l, kept),
              λ (l, kept). found df computed inv gens i a l kept,
            ),
            (
              λ h. let (o, kept, _) = inv.sound.ins_sound i a h in (o, kept),
              λ (o, kept). found_or_own df computed inv gens b i a member inside kept o,
            ),
          ),
        )
