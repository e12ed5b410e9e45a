-- ===== src/Exporter/Discovery/Tests.antt =====
-- One explicit project, and a wildcard that finds it and another.
use amazing_gitlab_exporter.Base.{ℕ, String, true, false, ◌≡◌, ◌≢◌, refl, none, List, [], ◌∷◌, ◌++◌}
use amazing_gitlab_exporter.Base.Errors.{foreign}
use amazing_gitlab_exporter.Gitlab.Api.{Response, Reply, failed, answered}
use amazing_gitlab_exporter.Config.{Config, WildcardConfig, OwnerConfig}
use amazing_gitlab_exporter.Config.Load.{zero_config}
use amazing_gitlab_exporter.Exporter.Discovery.{
  contains, add_path, add_paths, explicit_names, ListProjectsOptions, require_projects,
  expand_reply, expand_from, expand_all, discover_projects,
}
use amazing_gitlab_exporter.Exporter.Discovery.Paths.{IsDistinct}
use amazing_gitlab_exporter.Exporter.Discovery.Expansion.{
  reown, discover_exact, discover_ignores_owner,
}

abbrev cfg : Config
cfg = record zero_config {
  projects = record { name = "g/a"; output_sparse_status_metrics = none; refs = none } ∷ [];
  wildcards =
      record {
        owner = record { name = "g"; kind = "group"; include_subgroups = true };
        search = "";
        archived = false;
        refs = none;
      }
      ∷ [];
}

abbrev listing : Response
listing = record { status_code = 200; next_page = 0; headers = λ key. "" }

abbrev two_projects : ListProjectsOptions → ℕ → Reply (List String) × ℕ
two_projects o w = (answered listing ("g/b" ∷ "g/a" ∷ []), w)

abbrev down : ListProjectsOptions → ℕ → Reply (List String) × ℕ
down o w = (failed (foreign "connection refused"), w)

discover_exact_example :
    let projects : List String = "g/a" ∷ "g/b" ∷ [] in
    (projects ≢ [])
    × IsDistinct projects
    × ((name : String)
        → contains (explicit_names cfg.projects) name ≡ true
        → contains projects name ≡ true)
    × ((more : List String) × (projects ≡ add_paths [] (explicit_names cfg.projects) ++ more))
unfolding discover_projects expand_all expand_from expand_reply require_projects add_paths add_path
    contains explicit_names
discover_exact_example = discover_exact two_projects 1 cfg 0 0 ("g/a" ∷ "g/b" ∷ []) refl

abbrev nobody : WildcardConfig → OwnerConfig
nobody wc = record { name = ""; kind = ""; include_subgroups = false }

discover_ignores_owner_example :
    discover_projects two_projects 1
      (record cfg { wildcards = reown two_projects nobody cfg.wildcards })
      0
    ≡ discover_projects two_projects 1 cfg 0
discover_ignores_owner_example = discover_ignores_owner two_projects 1 nobody cfg 0

abbrev pages : WildcardConfig → List (List String)
pages wc = ("g/b" ∷ "g/a" ∷ []) ∷ []
