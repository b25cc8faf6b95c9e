-- ===== src/Dg/Chain.antt =====
-- Walks along the edges of a graph of src/core/dg, by the values of its nodes.
use noelle_public.Dg.Store.{Dg}
use noelle_public.Prelude.{ℕ, ◌≡◌, true, Option, some, has}

-- A walk of at least one edge of the graph, each from the value `near` gives to that of `far`.
pub data Chain (g : Dg) (near far : ℕ → Option ℕ) (s : ℕ) : ℕ → Type 0 where
  link :
      {t : ℕ} (e : ℕ)
      → has e g.all_edges ≡ true
      → near e ≡ some s
      → far e ≡ some t
      → Chain g near far s t
  onto :
      {t u : ℕ} (e : ℕ)
      → Chain g near far s t
      → has e g.all_edges ≡ true
      → near e ≡ some t
      → far e ≡ some u
      → Chain g near far s u
