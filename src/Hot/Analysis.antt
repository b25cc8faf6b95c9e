-- ===== src/Hot/Analysis.antt =====
-- Hot.cpp: the invocations of blocks and their sums. The maps have the blocks and the functions of the
-- program as their keys.
use noelle_public.Hot.Counters.{
  Hot, Program, blank_hot, profiled, wrap_64, is_entry, get_block_invocations,
  get_function_self_instructions, set_basic_block_invocations, set_blocks, set_functions,
  count_blocks, count_functions, compute_self_instructions, analyze_block_counts,
}
use noelle_public.Hot.Profile.{
  set_functions_lem, in_module, keys, size_of, executed_in, Counts, count_all_blocks,
  count_all_module,
}
use noelle_public.Prelude.{
  ℕ, ◌≤◌, ◌≡◌, refl, sym, ◌∙◌, inl, inr, Bool, true, false, ◌||◌, ◌&&◌, some, List, [], ◌∷◌, has,
  has-cons, has-nil, ◌==◌, ==_refl, eq_of_==, if◌then◌else◌, ap, subst, Bool-cases, lookup, assign,
  lookup-assign, arith, ◌>>=◌,
}

keys-assign :
    (k v s : ℕ) (m : List (ℕ × ℕ)) → has s (keys (assign k v m)) ≡ ((k == s) || has s (keys m))
unfolding assign
keys-assign k v s [] = ground (arith, has-cons s k [], has-nil s)
keys-assign k v s ((j, w) ∷ m) = elim (Bool-cases (j == k)) [
  | inl same ↦
      let at_k : j ≡ k = eq_of_== j k same in
      rw same (ground (arith, has-cons s k (keys m), has-cons s j (keys m), ap (λ x. x == s) at_k))
  | inr other ↦ rw other (
      ground
        (arith, keys-assign k v s m, has-cons s j (keys (assign k v m)), has-cons s j (keys m)))
]

-- One of some blocks is the entry.
unfoldable has_entry : List ℕ → List ℕ → Bool
has_entry all [] = false
has_entry all (bb ∷ bbs) = is_entry all bb || has_entry all bbs

entry_lem : (b : ℕ) (bbs : List ℕ) → has b bbs ≡ true → has_entry bbs bbs ≡ true
unfolding has_entry is_entry
entry_lem b [] e = absurd (cc (e, has-nil b))
entry_lem b (entry ∷ bbs) e = ground (arith, ==_refl entry)

module _ (p : Program) where
  block_keys :
      (f s : ℕ) (bbs : List ℕ) (h : Hot)
      → has s (keys (set_blocks p f bbs h).bb_invocations)
        ≡ (has s bbs || has s (keys h.bb_invocations))
  unfolding set_blocks set_basic_block_invocations
  block_keys f s [] h = ground (arith, has-nil s)
  block_keys f s (bb ∷ bbs) h =
      block_keys f s bbs (set_basic_block_invocations p h f bb (profiled p bb))
      ∙ ground (arith, keys-assign bb (profiled p bb) s h.bb_invocations, has-cons s bb bbs)

  function_keys :
      (f g : ℕ) (bbs : List ℕ) (h : Hot)
      → has g (keys (set_blocks p f bbs h).function_invocations)
        ≡ ((f == g) && has_entry (p.blocks f) bbs || has g (keys h.function_invocations))
  unfolding set_blocks set_basic_block_invocations has_entry
  function_keys f g [] h = ground arith
  function_keys f g (bb ∷ bbs) h =
      function_keys f g bbs (set_basic_block_invocations p h f bb (profiled p bb))
      ∙ elim (Bool-cases (is_entry (p.blocks f) bb)) [
        | inl first ↦
            rw first (ground (arith, keys-assign f (profiled p bb) g h.function_invocations))
        | inr later ↦ rw later (ground arith)
      ]

  unfoldable entered : ℕ → List ℕ → Bool
  entered g [] = false
  entered g (f ∷ fs) = (f == g) && has_entry (p.blocks f) (p.blocks f) || entered g fs

  all_block_keys :
      (s : ℕ) (fs : List ℕ) (h : Hot)
      → has s (keys (set_functions p fs h).bb_invocations)
        ≡ (in_module p s fs || has s (keys h.bb_invocations))
  unfolding set_functions in_module
  all_block_keys s [] h = ground arith
  all_block_keys s (f ∷ fs) h =
      all_block_keys s fs (set_blocks p f (p.blocks f) h)
      ∙ ground (arith, block_keys f s (p.blocks f) h)

  all_function_keys :
      (g : ℕ) (fs : List ℕ) (h : Hot)
      → has g (keys (set_functions p fs h).function_invocations)
        ≡ (entered g fs || has g (keys h.function_invocations))
  unfolding set_functions entered
  all_function_keys g [] h = ground arith
  all_function_keys g (f ∷ fs) h =
      all_function_keys g fs (set_blocks p f (p.blocks f) h)
      ∙ ground (arith, function_keys f g (p.blocks f) h)

  blocks_keep :
      (f : ℕ) (bbs : List ℕ) (h : Hot)
      → (set_blocks p f bbs h).module_number_of_instructions_executed
        ≡ h.module_number_of_instructions_executed
  unfolding set_blocks set_basic_block_invocations
  blocks_keep f [] h = refl
  blocks_keep f (bb ∷ bbs) h =
      blocks_keep f bbs (set_basic_block_invocations p h f bb (profiled p bb))

  set_functions_keep :
      (fs : List ℕ) (h : Hot)
      → (set_functions p fs h).module_number_of_instructions_executed
        ≡ h.module_number_of_instructions_executed
  unfolding set_functions
  set_functions_keep [] h = refl
  set_functions_keep (f ∷ fs) h =
      set_functions_keep fs (set_blocks p f (p.blocks f) h) ∙ blocks_keep f (p.blocks f) h

  entered_blocks :
      (g s : ℕ) (fs : List ℕ)
      → entered g fs ≡ true
      → has s (p.blocks g) ≡ true
      → in_module p s fs ≡ true
  unfolding entered in_module
  entered_blocks g s [] e in_g = absurd (cc e)
  entered_blocks g s (f ∷ fs) e in_g = elim (Bool-cases (f == g)) [
    | inl same ↦
        let here = subst (λ x. has s (p.blocks x) ≡ true) (sym (eq_of_== f g same)) in_g in
        ground arith
    | inr other ↦ let rest = entered_blocks g s fs (ground arith) in_g in ground arith
  ]

  members_entered :
      (f b : ℕ) (fs : List ℕ)
      → has f fs ≡ true
      → has b (p.blocks f) ≡ true
      → (entered f fs ≡ true) × (in_module p b fs ≡ true)
  unfolding entered in_module
  members_entered f b [] e in_f = absurd (cc (e, has-nil f))
  members_entered f b (g ∷ fs) e in_f = elim (Bool-cases (g == f)) [
    | inl same ↦
        let at_f = eq_of_== g f same in
        let here = subst (λ x. has b (p.blocks x) ≡ true) (sym at_f) in_f in
        let first = entry_lem b (p.blocks g) here in (ground arith, ground arith)
    | inr other ↦
        let (rest, blocks) = members_entered f b fs (ground (arith, has-cons f g fs)) in_f in
        (ground arith, ground arith)
  ]

module _ (p : Program) (filled : (bb : ℕ) → 1 ≤ size_of p bb) where
  -- Counting the functions changes their map alone, and enters what the blocks executed.
  record Totals (fs : List ℕ) (h h' : Hot) : Type 0 where
    pub same_blocks : h'.bb_invocations ≡ h.bb_invocations
    pub same_module :
        h'.module_number_of_instructions_executed ≡ h.module_number_of_instructions_executed
    pub totals :
        (g : ℕ)
        → lookup g h'.function_self_instructions ≡ (
            if has g fs
            then some (wrap_64 (executed_in p (p.blocks g)))
            else lookup g h.function_self_instructions)

  count_functions_lem :
      (m : List (ℕ × ℕ)) (h : Hot)
      → ((g : ℕ) → has g (keys m) ≡ true → Counts p filled h (p.blocks g))
      → (h' : Hot) × (count_functions p m h ≡ some h') × Totals (keys m) h h'
  unfolding count_functions
  count_functions_lem [] h counts = (
    h,
    refl,
    record { same_blocks = refl; same_module = refl; totals = λ g. rw (has-nil g) refl },
  )
  count_functions_lem ((f, v) ∷ m) h counts =
      let c = wrap_64 (executed_in p (p.blocks f)) in
      let here = counts f (ground (arith, has-cons f f (keys m), ==_refl f)) in
      let run : count_blocks p h (p.blocks f) 0 ≡ some c =
        count_all_blocks p filled h (p.blocks f) here in
      let next = record h {
        function_self_instructions = assign f c h.function_self_instructions;
      } in
      let (h', runs, t) =
        count_functions_lem m next (λ g e. counts g (ground (arith, has-cons g f (keys m)))) in
      (
        h',
        rw (run, ◌>>=◌) runs,
        record {
          same_blocks = t.same_blocks;
          same_module = t.same_module;
          totals = λ g.
              let at_f : (f == g) ≡ true → c ≡ wrap_64 (executed_in p (p.blocks g)) =
                λ e. ap (λ x. wrap_64 (executed_in p (p.blocks x))) (eq_of_== f g e) in
              t.totals g
              ∙ ground (
                arith,
                at_f,
                has-cons g f (keys m),
                lookup-assign f c g h.function_self_instructions,
              );
        },
      )

  -- In a program whose blocks have instructions, the part of analyzeProfiles that sets and sums the
  -- invocations of blocks fails no assertion and throws nothing. Then getInvocations of each block of
  -- the functions given is the count of the profile, and 0 where it has none; getSelfInstructions of
  -- each of the functions that has a block is the sum over its blocks of that count times the
  -- instructions of the block, modulo 2^64; and getSelfInstructions of the module is the sum of these
  -- over all blocks in the map, modulo 2^64.
  pub analyze_block_counts_lem :
      (fs : List ℕ)
      → (h : Hot) × (analyze_block_counts p fs ≡ some h)
        × ((f bb : ℕ)
            → has f fs ≡ true
            → has bb (p.blocks f) ≡ true
            → (get_block_invocations h bb ≡ some (profiled p bb))
              × (get_function_self_instructions h f ≡ some (wrap_64 (executed_in p (p.blocks f)))))
        × (h.module_number_of_instructions_executed
            ≡ wrap_64 (executed_in p (keys h.bb_invocations)))
  unfolding analyze_block_counts compute_self_instructions get_block_invocations
      get_function_self_instructions
  analyze_block_counts_lem fs =
      let h₀ = set_functions p fs blank_hot in
      let inside : (s : ℕ)
          → in_module p s fs ≡ true
          → lookup s h₀.bb_invocations ≡ some (profiled p s) =
        λ s e. set_functions_lem p s fs blank_hot ∙ rw e refl in
      let keyed : Counts p filled h₀ (keys h₀.bb_invocations) =
        λ s e. inside s (ground (arith, all_block_keys p s fs blank_hot, has-nil s)) in
      let h₁ = record h₀ {
        module_number_of_instructions_executed = wrap_64 (executed_in p (keys h₀.bb_invocations));
      } in
      let first = count_all_module p filled h₀ (set_functions_keep p fs blank_hot) keyed in
      let (h₂, runs, t) = count_functions_lem h₀.function_invocations h₁ (λ g e s in_g. inside s (
        entered_blocks p g s fs (ground (arith, all_function_keys p g fs blank_hot, has-nil g))
          in_g)) in
      (
        h₂,
        rw (first, ◌>>=◌) runs,
        λ f bb in_fs in_f.
            let (entered_f, in_all) = members_entered p f bb fs in_fs in_f in
            let key = all_function_keys p f fs blank_hot in
            (
              ap (lookup bb) t.same_blocks ∙ inside bb in_all,
              t.totals f ∙ ground (arith, key, entered_f),
            ),
        t.same_module ∙ ap (λ m. wrap_64 (executed_in p (keys m))) (sym t.same_blocks),
      )
