-- ===== src/Partition/Tests.antt =====
-- Two sets with an edge between them: the theorems about SCCDAGPartition.cpp at work.
use noelle_public.Dg.Store.{find, put}
use noelle_public.Dg.Build.{empty, fetch_or_add_node, add_undefined_dependence_edge}
use noelle_public.Dg.Node.{get_src, get_dst}
use noelle_public.Partition.Partitioner.{get_descendants, get_ancestors}
use noelle_public.Dg.Chain.{Chain}
use noelle_public.Partition.Family.{family_lem}
use noelle_public.Dg.Sample.{row, row-IsValid, row-IsRegistered, row_value}
use noelle_public.Prelude.{ℕ, ◌≡◌, refl, ◌↔◌, true, some, List, [], ◌∷◌, has, insert}

row_runs : (get_descendants row 10 ≡ some (row, 20 ∷ [])) × (get_ancestors row 10 ≡ some (row, []))
unfolding get_descendants get_ancestors add_undefined_dependence_edge fetch_or_add_node empty find
    put has insert
row_runs = (refl, refl)

family_lem_example :
    ((l : List ℕ) × (get_descendants row 10 ≡ some (row, l))
      × ((t : ℕ) → (has t l ≡ true) ↔ Chain row (get_src row) (get_dst row) 10 t))
    × ((l : List ℕ) × (get_ancestors row 10 ≡ some (row, l))
        × ((t : ℕ) → (has t l ≡ true) ↔ Chain row (get_dst row) (get_src row) 10 t))
family_lem_example = family_lem row row-IsValid row-IsRegistered 10 row_value
