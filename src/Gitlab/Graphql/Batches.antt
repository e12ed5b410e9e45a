-- ===== src/Gitlab/Graphql/Batches.antt =====
-- internal/gitlab/graphql.go: which projects a batch returns, and that the limiter learns nothing.
use amazing_gitlab_exporter.Base.{◌≡◌, String, none, List, [], ◌∷◌, ◌++◌}
use amazing_gitlab_exporter.Base.Int.{ℤ}
use amazing_gitlab_exporter.Base.Errors.{Result}
use amazing_gitlab_exporter.Runtime.{Runtime}
use amazing_gitlab_exporter.Gitlab.Rest.{Session, rest_wait}
use amazing_gitlab_exporter.Gitlab.Graphql.{ProjectWithPipelines, QueriedProject, add_queried}

module _ (r : Runtime) (ceil_div : ℤ → ℤ → ℤ)
    (query : String → ℤ → r.World → Result QueriedProject × r.World) where
  -- The session after the wait for a path and its query.
  abbrev pub after_path : ℤ → String → Session r ceil_div → Session r ceil_div
  after_path first path s =
      let (waited, s1) = rest_wait r ceil_div s in
      record s1 { world = (query path first s1.world).1 }

  abbrev pub answer : ℤ → String → Session r ceil_div → Result QueriedProject
  answer first path s = (query path first (rest_wait r ceil_div s).1.world).0

  -- The projects whose queries are answered, one path after the other.
  abbrev pub answered_projects : ℤ → List String → Session r ceil_div → List ProjectWithPipelines
  answered_projects first [] s = []
  answered_projects first (path ∷ paths) s =
      add_queried r ceil_div (answer first path s) []
      ++ answered_projects first paths (after_path first path s)

  -- The limiter lets each of these paths go.
  abbrev pub Passes : ℤ → List String → Session r ceil_div → Type 0
  Passes first [] s = Unit
  Passes first (path ∷ paths) s =
      ((rest_wait r ceil_div s).0 ≡ none) × Passes first paths (after_path first path s)

  abbrev pub after_paths : ℤ → List String → Session r ceil_div → Session r ceil_div
  after_paths first [] s = s
  after_paths first (path ∷ paths) s = after_paths first paths (after_path first path s)
