-- ===== src/Exporter/Discovery/Paths.antt =====
-- Adding paths: each is there once, and the order of first appearance is kept.
use mathlib.Core.List.{append-nil, append_assoc}
use amazing_gitlab_exporter.Base.{
  String, false, ◌||◌, ◌≡◌, refl, ◌∙◌, List, [], ◌∷◌, ◌++◌, ◌==◌, comparable_string, Bool-cases,
  inl, inr, arith,
}
use amazing_gitlab_exporter.Exporter.Discovery.{contains, add_path, add_paths}

-- No path stands twice.
abbrev pub IsDistinct : List String → Type 0
IsDistinct [] = Unit
IsDistinct (p ∷ ps) = (contains ps p ≡ false) × IsDistinct ps

pub contains-append :
    (ps qs : List String) (x : String) → contains (ps ++ qs) x ≡ (contains ps x || contains qs x)
unfolding contains
contains-append [] qs x = refl
contains-append (p ∷ ps) qs x = ground (arith, contains-append ps qs x)

IsDistinct-snoc :
    (ps : List String) (x : String)
    → IsDistinct ps
    → contains ps x ≡ false
    → IsDistinct (ps ++ x ∷ [])
unfolding contains
IsDistinct-snoc [] x d h = (refl, tt)
IsDistinct-snoc (p ∷ ps) x d h = (
  ground (
    arith,
    contains-append ps (x ∷ []) p,
    comparable_string.same_iff p x,
    comparable_string.same_iff x p,
  ),
  IsDistinct-snoc ps x d.1 (ground arith),
)

IsDistinct-add_path : (ps : List String) (x : String) → IsDistinct ps → IsDistinct (add_path ps x)
unfolding add_path
IsDistinct-add_path ps x d = elim (Bool-cases (contains ps x)) [
  | inl seen ↦ rw seen d
  | inr fresh ↦ rw fresh (IsDistinct-snoc ps x d fresh)
]

pub IsDistinct-add_paths : (ps qs : List String) → IsDistinct ps → IsDistinct (add_paths ps qs)
unfolding add_paths
IsDistinct-add_paths ps [] d = d
IsDistinct-add_paths ps (q ∷ qs) d =
    IsDistinct-add_paths (add_path ps q) qs (IsDistinct-add_path ps q d)

contains-add_path :
    (ps : List String) (q x : String) → contains (add_path ps q) x ≡ (contains ps x || q == x)
unfolding add_path contains
contains-add_path ps q x =
    ground (arith, contains-append ps (q ∷ []) x, comparable_string.same_iff q x)

-- After adding paths, exactly the old and the added ones are there.
pub contains-add_paths :
    (ps qs : List String) (x : String)
    → contains (add_paths ps qs) x ≡ (contains ps x || contains qs x)
unfolding add_paths contains
contains-add_paths ps [] x = ground arith
contains-add_paths ps (q ∷ qs) x =
    ground (arith, contains-add_paths (add_path ps q) qs x, contains-add_path ps q x)

-- The paths that were there stay in front, in order.
pub add_paths-prefix : (ps qs : List String) → (more : List String) × (add_paths ps qs ≡ ps ++ more)
unfolding add_paths add_path
add_paths-prefix ps [] = ([], rw append-nil)
add_paths-prefix ps (q ∷ qs) = elim (Bool-cases (contains ps q)) [
  | inl seen ↦ rw seen (add_paths-prefix ps qs)
  | inr fresh ↦
      let (more, e) = add_paths-prefix (ps ++ q ∷ []) qs in
      rw fresh (q ∷ more, e ∙ append_assoc ps (q ∷ []) more)
]

pub add_paths-append :
    (ps qs rs : List String) → add_paths ps (qs ++ rs) ≡ add_paths (add_paths ps qs) rs
unfolding add_paths
add_paths-append ps [] rs = refl
add_paths-append ps (q ∷ qs) rs = add_paths-append (add_path ps q) qs rs
