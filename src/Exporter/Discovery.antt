-- ===== src/Exporter/Discovery.antt =====
-- internal/exporter/exporter.go `discoverProjects`. The client library's `ListProjects` is a
-- parameter, as a function of the options that the code sets; a page is its project paths.
pub mod Paths
pub mod Expansion
pub mod Served
mod Tests
use amazing_gitlab_exporter.Base.{
  ℕ, zero, suc, String, Bool, true, false, ◌||◌, Option, none, some, List, [], ◌∷◌, ◌++◌, ◌==◌,
  comparable_nat, comparable_string, if◌then◌else◌,
}
use amazing_gitlab_exporter.Base.Errors.{Error, new, Result, ok, err}
use amazing_gitlab_exporter.Gitlab.Api.{Response, Reply, failed, refused, answered}
use amazing_gitlab_exporter.Config.{ProjectConfig, WildcardConfig, Config}

-- Whether a key is in the map `seen`, whose keys are the paths in `projects`.
unfoldable pub contains : List String → String → Bool
contains [] path = false
contains (p ∷ ps) path = p == path || contains ps path

-- `if _, ok := seen[path]; !ok { seen[path] = struct{}{}; projects = append(projects, path) }`
unfoldable pub add_path : List String → String → List String
add_path projects path = if contains projects path then projects else projects ++ path ∷ []

unfoldable pub add_paths : List String → List String → List String
add_paths projects [] = projects
add_paths projects (path ∷ paths) = add_paths (add_path projects path) paths

unfoldable pub explicit_names : List ProjectConfig → List String
explicit_names [] = []
explicit_names (p ∷ ps) = p.name ∷ explicit_names ps

pub record ListProjectsOptions : Type 0 where
  pub search : String
  pub archived : Bool
  pub per_page : ℕ
  pub page : ℕ

unfoldable pub require_projects : List String → Result (List String)
require_projects [] = err (new "no projects configured or discovered" [])
require_projects (p ∷ ps) = ok (p ∷ ps)

-- An error ends the expansion of its wildcard, and is only logged.
module _ {W : Type 0} where
  pub expand_reply :
      (ℕ → List String → W → Option (List String × W))
      → Reply (List String)
      → List String
      → W
      → Option (List String × W)
  expand_reply again (failed e) projects w = some (projects, w)
  expand_reply again (refused response e) projects w = some (projects, w)
  expand_reply again (answered response paths) projects w =
      let projects' = add_paths projects paths in
      if response.next_page == 0 then some (projects', w) else again response.next_page projects' w

module _ {W : Type 0} (list_projects : ListProjectsOptions → W → Reply (List String) × W) where
  -- The loop over the pages of one wildcard, on fuel.
  pub expand_from : ℕ → WildcardConfig → ℕ → List String → W → Option (List String × W)
  expand_from zero wc page projects w = none
  expand_from (suc fuel) wc page projects w =
      let (reply, w') =
        list_projects
          (record { search = wc.search; archived = wc.archived; per_page = 100; page = page }) w in
      expand_reply (expand_from fuel wc) reply projects w'

  unfoldable pub expand_all : ℕ → List WildcardConfig → List String → W → Option (List String × W)
  expand_all fuel [] projects w = some (projects, w)
  expand_all fuel (wc ∷ wcs) projects w = elim (expand_from fuel wc 1 projects w) [
    | none ↦ none
    | some (projects', w') ↦ expand_all fuel wcs projects' w'
  ]

  unfoldable pub discover_projects : ℕ → Config → W → Option (Result (List String) × W)
  discover_projects fuel cfg w =
      elim (expand_all fuel cfg.wildcards (add_paths [] (explicit_names cfg.projects)) w) [
        | none ↦ none
        | some (projects, w') ↦ some (require_projects projects, w')
      ]
