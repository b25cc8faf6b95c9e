-- ===== src/Hot/Profile.antt =====
-- Hot.cpp: what the analysis of the profile leaves in the map from blocks to their invocations.
use noelle_public.Hot.Counters.{
  Hot, Program, profiled, wrap_64, get_block_invocations, get_static_instructions,
  set_basic_block_invocations, set_blocks, set_functions, count_module, get_block_self_instructions,
  count_blocks,
}
use noelle_public.Prelude.{
  ℕ, ◌+◌, ◌*◌, ◌≤◌, ◌≡◌, refl, ◌∙◌, Bool, true, false, ◌||◌, some, List, [], ◌∷◌, has, has-cons,
  has-nil, ◌==◌, ==_refl, map, eq_of_==, length, if◌then◌else◌, ap, lookup, lookup-assign, arith,
  ◌>>=◌,
}

abbrev pub keys : List (ℕ × ℕ) → List ℕ
keys m = map (λ (x : ℕ × ℕ). x.0) m

zero_wraps : 0 ≡ wrap_64 0
unfolding wrap_64
zero_wraps = omega arith

wrap-wrap : (c x : ℕ) → wrap_64 (wrap_64 c + wrap_64 x) ≡ wrap_64 (c + x)
unfolding wrap_64
wrap-wrap c x = omega arith

module _ (p : Program) where
  set_blocks_lem :
      (f s : ℕ) (bbs : List ℕ) (h : Hot)
      → lookup s (set_blocks p f bbs h).bb_invocations
        ≡ (if has s bbs then some (profiled p s) else lookup s h.bb_invocations)
  unfolding set_blocks set_basic_block_invocations
  set_blocks_lem f s [] h = rw (has-nil s) refl
  set_blocks_lem f s (bb ∷ bbs) h =
      let v = profiled p bb in
      let after = set_blocks_lem f s bbs (set_basic_block_invocations p h f bb v) in
      let first = lookup-assign bb v s h.bb_invocations in
      let same : (bb == s) ≡ true → v ≡ profiled p s = λ e. ap (profiled p) (eq_of_== bb s e) in
      after ∙ ground (arith, first, same, has-cons s bb bbs)

  -- The block is one of a function of the list.
  unfoldable pub in_module : ℕ → List ℕ → Bool
  in_module s [] = false
  in_module s (f ∷ fs) = has s (p.blocks f) || in_module s fs

  pub set_functions_lem :
      (s : ℕ) (fs : List ℕ) (h : Hot)
      → lookup s (set_functions p fs h).bb_invocations
        ≡ (if in_module s fs then some (profiled p s) else lookup s h.bb_invocations)
  unfolding set_functions in_module
  set_functions_lem s [] h = refl
  set_functions_lem s (f ∷ fs) h =
      set_functions_lem s fs (set_blocks p f (p.blocks f) h)
      ∙ ground (arith, set_blocks_lem f s (p.blocks f) h)

  abbrev pub size_of : ℕ → ℕ
  size_of bb = length (p.instructions bb)

  -- The instructions that some blocks executed.
  unfoldable pub executed_in : List ℕ → ℕ
  executed_in [] = 0
  executed_in (bb ∷ bbs) = profiled p bb * size_of bb + executed_in bbs

module _ (p : Program) (filled : (bb : ℕ) → 1 ≤ size_of p bb) where
  static_lem : (bb : ℕ) → get_static_instructions p bb ≡ some (size_of p bb)
  unfolding get_static_instructions
  static_lem bb = ground (arith, filled bb)

  -- The map gives the profile's count for some blocks.
  abbrev pub Counts : Hot → List ℕ → Type 0
  Counts h bbs = (s : ℕ) → has s bbs ≡ true → lookup s h.bb_invocations ≡ some (profiled p s)

  tail-Counts : (h : Hot) (b : ℕ) (bbs : List ℕ) → Counts h (b ∷ bbs) → Counts h bbs
  tail-Counts h b bbs counts s e = counts s (ground (arith, has-cons s b bbs))

  head-Counts :
      (h : Hot) (b : ℕ) (bbs : List ℕ)
      → Counts h (b ∷ bbs)
      → lookup b h.bb_invocations ≡ some (profiled p b)
  head-Counts h b bbs counts = counts b (ground (arith, has-cons b b bbs, ==_refl b))

  count_blocks_lem :
      (h : Hot) (bbs : List ℕ) (c : ℕ)
      → Counts h bbs
      → count_blocks p h bbs (wrap_64 c) ≡ some (wrap_64 (c + executed_in p bbs))
  unfolding count_blocks executed_in get_block_self_instructions get_block_invocations
  count_blocks_lem h [] c counts = ap (λ x. some (wrap_64 x)) (omega arith)
  count_blocks_lem h (b ∷ bbs) c counts =
      rw (head-Counts h b bbs counts, ◌>>=◌)
        (rw (static_lem b, ◌>>=◌)
          (rw (wrap-wrap c (profiled p b * size_of p b)) (
            count_blocks_lem h bbs (c + profiled p b * size_of p b) (tail-Counts h b bbs counts)
            ∙ ap (λ x. some (wrap_64 x)) (omega arith))))

  count_module_lem :
      (m : List (ℕ × ℕ)) (h : Hot) (c : ℕ)
      → h.module_number_of_instructions_executed ≡ wrap_64 c
      → Counts h (keys m)
      → count_module p m h
        ≡ some (record h {
          module_number_of_instructions_executed = wrap_64 (c + executed_in p (keys m));
        })
  unfolding count_module executed_in get_block_invocations
  count_module_lem [] h c at_c counts =
      ap (λ x. some (record h { module_number_of_instructions_executed = x }))
        (at_c ∙ ap wrap_64 (omega arith))
  count_module_lem ((b, v) ∷ m) h c at_c counts =
      let x = profiled p b * size_of p b in
      let now = ap (λ e. wrap_64 (e + wrap_64 x)) at_c ∙ wrap-wrap c x in
      let next = record h {
        module_number_of_instructions_executed =
            wrap_64 (h.module_number_of_instructions_executed + wrap_64 x);
      } in
      rw (head-Counts h b (keys m) counts, ◌>>=◌)
        (rw (static_lem b, ◌>>=◌)
          (count_module_lem m next (c + x) now (tail-Counts h b (keys m) counts)
            ∙ ap (λ y. some (record h { module_number_of_instructions_executed = wrap_64 y }))
                (omega arith)))

  pub count_all_blocks :
      (h : Hot) (bbs : List ℕ)
      → Counts h bbs
      → count_blocks p h bbs 0 ≡ some (wrap_64 (executed_in p bbs))
  unfolding wrap_64
  count_all_blocks h bbs counts =
      ap (count_blocks p h bbs) zero_wraps
      ∙ (count_blocks_lem h bbs 0 counts ∙ ap (λ x. some (wrap_64 x)) (omega arith))

  pub count_all_module :
      (h : Hot)
      → h.module_number_of_instructions_executed ≡ 0
      → Counts h (keys h.bb_invocations)
      → count_module p h.bb_invocations h
        ≡ some (record h {
          module_number_of_instructions_executed = wrap_64 (executed_in p (keys h.bb_invocations));
        })
  unfolding wrap_64
  count_all_module h start counts =
      count_module_lem h.bb_invocations h 0 (start ∙ zero_wraps) counts
      ∙ ap (λ x. some (record h { module_number_of_instructions_executed = wrap_64 x }))
          (omega arith)
