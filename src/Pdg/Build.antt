-- ===== src/Pdg/Build.antt =====
-- PDG.cpp: the constructors. What LLVM tells of the program is data: a function has arguments and the
-- instructions of its blocks, and is a declaration if it has no block; a loop has the instructions
-- of its blocks. `none` is a failed assertion or the first element of something empty.
use noelle_public.Dg.Store.{Dg, find}
use noelle_public.Dg.Build.{empty, add_node, set_entry_node}
use noelle_public.Prelude.{ℕ, true, Option, none, some, List, [], ◌∷◌, ◌>>=◌}

pub record Function : Type 0 where
  pub args : List ℕ
  pub blocks : List (List ℕ)

pub record Module : Type 0 where
  pub functions : List Function
  pub main : Option Function

unfoldable pub add_values : Dg → List ℕ → Dg
unfolding add_node
add_values g [] = g
add_values g (t ∷ ts) = add_values (add_node g t true).0 ts

unfoldable pub add_blocks : Dg → List (List ℕ) → Dg
unfolding add_values
add_blocks g [] = g
add_blocks g (b ∷ bs) = add_blocks (add_values g b) bs

unfoldable pub add_nodes_of : Dg → Function → Dg
unfolding add_values add_blocks
add_nodes_of g f = add_blocks (add_values g f.args) f.blocks

-- entryNode = internalNodeMap[t], and the assertion that it is not null.
unfoldable pub enter_at : Dg → ℕ → Option Dg
unfolding set_entry_node
enter_at g t = elim (find t g.internal) [
  | some (some p) ↦ some (set_entry_node g (some p))
  | _ ↦ none
]

-- The first instruction of the first block.
unfoldable pub first_instruction : List (List ℕ) → Option ℕ
first_instruction ((i ∷ is) ∷ bs) = some i
first_instruction ([] ∷ bs) = none
first_instruction [] = none

unfoldable pub set_entry_point_at : Dg → Function → Option Dg
unfolding first_instruction enter_at
set_entry_point_at g f = do i ← first_instruction f.blocks; enter_at g i

unfoldable pub pdg_of_function : Function → Option Dg
unfolding add_nodes_of set_entry_point_at
pdg_of_function f = set_entry_point_at (add_nodes_of empty f) f

-- A declaration has no body to add.
unfoldable pub add_functions : Dg → List Function → Dg
unfolding add_nodes_of
add_functions g [] = g
add_functions g (f ∷ fs) = add_functions (elim f.blocks [ [] ↦ g | b ∷ bs ↦ add_nodes_of g f ]) fs

unfoldable pub pdg_of_module : Module → Option Dg
unfolding add_functions set_entry_point_at
pdg_of_module m = do main ← m.main; set_entry_point_at (add_functions empty m.functions) main

unfoldable pub pdg_of_loop : List (List ℕ) → Option Dg
unfolding add_blocks first_instruction enter_at
pdg_of_loop blocks = do i ← first_instruction blocks; enter_at (add_blocks empty blocks) i

unfoldable pub pdg_of_values : List ℕ → Option Dg
pdg_of_values [] = none
pdg_of_values (v ∷ vs) = enter_at (add_values empty (v ∷ vs)) v
