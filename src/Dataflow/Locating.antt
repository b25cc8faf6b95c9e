-- ===== src/Dataflow/Locating.antt =====
-- DataFlowEngine.cpp: where the iterator of an instruction stands in its block.
use mathlib.Core.List.{reverse, reverse-cons, reverse-reverse, append_assoc, append-nil}
use noelle_public.Dataflow.Iterator.{iterator_at}
use noelle_public.Dataflow.Outcome.{done}
use noelle_public.Dataflow.Flow.{has-reverse}
use noelle_public.Prelude.{
  ℕ, ◌≡◌, refl, sym, ◌∙◌, ap, false, List, [], ◌∷◌, ◌++◌, has, has-cons, ==_refl, eq_of_==, ◌==◌,
  arith,
}

iterator_found :
    (b i : ℕ) (pre acc post : List ℕ)
    → has i pre ≡ false
    → iterator_at b i acc (pre ++ (i ∷ post))
      ≡ done (record { block = b; before = reverse pre ++ acc; after = i ∷ post })
unfolding iterator_at
iterator_found b i [] acc post apart = rw (==_refl i) refl
iterator_found b i (x ∷ pre) acc post apart =
    let other : (x == i) ≡ false = ground (arith, has-cons i x pre, eq_of_== x i, ==_refl i) in
    let gone : has i pre ≡ false = ground (arith, has-cons i x pre) in
    let turned =
      ap (λ l. l ++ acc) (reverse-cons x pre) ∙ append_assoc (reverse pre) (x ∷ []) acc in
    rw other (
      iterator_found b i pre (x ∷ acc) post gone
      ∙ ap (λ l. done (record { block = b; before = l; after = i ∷ post })) (sym turned))

-- The iterator of the last instruction of a block, whose others are `is` from there on backwards.
pub iterator_at_last :
    (b i : ℕ) (is insts : List ℕ)
    → reverse insts ≡ i ∷ is
    → has i is ≡ false
    → iterator_at b i [] insts ≡ done (record { block = b; before = is; after = i ∷ [] })
iterator_at_last b i is insts shape apart =
    let whole : insts ≡ reverse is ++ (i ∷ []) =
      sym (reverse-reverse insts) ∙ (ap reverse shape ∙ reverse-cons i is) in
    let same = append-nil (reverse (reverse is)) ∙ reverse-reverse is in
    ap (iterator_at b i []) whole
    ∙ (iterator_found b i (reverse is) [] [] (has-reverse i is ∙ apart)
        ∙ ap (λ l. done (record { block = b; before = l; after = i ∷ [] })) same)
