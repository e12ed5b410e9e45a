-- ===== src/Gitlab/Graphql/Tests.antt =====
-- Two projects, of which the second cannot be queried.
use amazing_gitlab_exporter.Base.{
  true, String, none, List, [], ◌∷◌, ◌==◌, comparable_string, if◌then◌else◌,
}
use amazing_gitlab_exporter.Base.Int.{ℤ, pos, ◌+ℤ◌}
use amazing_gitlab_exporter.Base.Errors.{Result, foreign, ok, err}
use amazing_gitlab_exporter.Runtime.{Runtime}
use amazing_gitlab_exporter.Gitlab.RateLimiter.{RateLimiter, new_rate_limiter}
use amazing_gitlab_exporter.Gitlab.Rest.{Session}
use amazing_gitlab_exporter.Gitlab.Graphql.{ProjectNode, QueriedProject}

abbrev clock : Runtime
clock = record {
  World = ℤ;
  now = λ w. w;
  later = λ w. w +ℤ pos 1;
  select = λ d w. (true, w +ℤ d);
  bucket_wait = λ b w. (none, w);
  ctx_err = λ w. none;
}

abbrev least : ℤ → ℤ → ℤ
least u k = pos 1

abbrev node : String → ProjectNode
node path = record {
  id = "gid://gitlab/Project/1";
  full_path = path;
  name = path;
  description = "";
  web_url = "";
  created_at = "2024-01-01";
}

abbrev query : String → ℤ → ℤ → Result QueriedProject × ℤ
query path first w =
    if path == "g/a"
    then (ok record { node = node path; pipelines = [] }, w)
    else (err (foreign "not found"), w)

abbrev session : Session clock least
session = record { limiter = new_rate_limiter (pos 10) (pos 20); world = pos 5 }

abbrev paths : List String
paths = "g/a" ∷ "g/b" ∷ []

abbrev none_left : List String
none_left = []
