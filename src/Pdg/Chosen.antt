-- ===== src/Pdg/Chosen.antt =====
-- PDG.cpp: which edges of a graph its copies take, written down without the copies.
use noelle_public.Dg.Store.{Dg}
use noelle_public.Dg.Node.{get_src, get_dst}
use noelle_public.Prelude.{
  ℕ, Bool, false, not, ◌&&◌, ◌||◌, Option, none, some, List, [], ◌∷◌, ◌==◌, has, if◌then◌else◌,
}

-- Both ends are inside, or one of them where the rest of the program may be linked.
abbrev pub crosses : Bool → Bool → Bool → Bool
crosses link_to_external src dst = (src && dst) || (link_to_external && (src || dst))

unfoldable pub is_chosen : (ℕ → Bool) → Dg → Bool → List ℕ → ℕ → Bool
is_chosen inside old link_to_external ignore e = elim (get_src old e) [
  | none ↦ false
  | some s ↦ elim (get_dst old e) [
    | none ↦ false
    | some t ↦ not (has e ignore) && crosses link_to_external (inside s) (inside t)
  ]
]

unfoldable pub chosen : (ℕ → Bool) → Dg → Bool → List ℕ → List ℕ → List ℕ
chosen inside old link_to_external ignore [] = []
chosen inside old link_to_external ignore (e ∷ es) =
    let rest = chosen inside old link_to_external ignore es in
    if is_chosen inside old link_to_external ignore e then e ∷ rest else rest

abbrev pub is_at : Option ℕ → ℕ → Bool
is_at none t = false
is_at (some s) t = s == t

-- Whether a value is at an end of one of the edges.
unfoldable pub touches : Dg → ℕ → List ℕ → Bool
touches old t [] = false
touches old t (e ∷ es) = is_at (get_src old e) t || is_at (get_dst old e) t || touches old t es
