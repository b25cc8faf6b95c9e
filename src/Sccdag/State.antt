-- ===== src/Sccdag/State.antt =====
-- The state of SCCDAG of SCCDAG.cpp. SCCs are pointers to graphs on a heap; one that was never made
-- is `none` there.
use noelle_public.BitVector.{BitVector}
use noelle_public.BitMatrix.{BitMatrix}
use noelle_public.Dg.Store.{Dg, NodeMap}
use noelle_public.Prelude.{ℕ, Bool, Option, List}

-- `value_to_node` is valueToSCCNode, in which a null pointer can be stored.
pub record Sccdag (B : BitVector) : Type 0 where
  pub graph : Dg
  pub sccs : ℕ → Option Dg
  pub next_scc : ℕ
  pub value_to_node : NodeMap
  pub ordered : BitMatrix B
  pub ordered_dirty : Bool
  pub scc_indexes : List (ℕ × ℕ)
