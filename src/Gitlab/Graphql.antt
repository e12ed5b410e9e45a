-- ===== src/Gitlab/Graphql.antt =====
-- internal/gitlab/graphql.go. A query of the GraphQL library is a parameter, whose answer is the decoded
-- struct; the library gives the program no response whose headers it could read.
pub mod Batches
mod Tests
use amazing_gitlab_exporter.Base.{
  String, Bool, Option, none, some, List, [], ◌∷◌, ◌++◌, if◌then◌else◌,
}
use amazing_gitlab_exporter.Base.Int.{ℤ}
use amazing_gitlab_exporter.Base.Errors.{text, Error, new, wrap, Result, ok, err}
use amazing_gitlab_exporter.Runtime.{Runtime}
use amazing_gitlab_exporter.Gitlab.Rest.{Session, rest_wait}

pub record ProjectNode : Type 0 where
  pub id : String
  pub full_path : String
  pub name : String
  pub description : String
  pub web_url : String
  pub created_at : String

pub record PipelineNode : Type 0 where
  pub id : String
  pub iid : String
  pub status : String
  pub duration : Option ℤ
  pub queued_duration : Option ℤ
  pub created_at : String
  pub finished_at : Option String
  pub source : Option String
  pub ref : Option String

pub record MergeRequestNode : Type 0 where
  pub iid : String
  pub title : String
  pub state : String
  pub created_at : String
  pub updated_at : String
  pub merged_at : Option String
  pub source_branch : String
  pub target_branch : String
  pub web_url : String

pub record ProjectWithPipelines : Type 0 where
  pub project : ProjectNode
  pub pipelines : List PipelineNode

-- The struct `query` of `FetchProjectsWithPipelines`.
pub record QueriedProject : Type 0 where
  pub node : ProjectNode
  pub pipelines : List PipelineNode

module _ (r : Runtime) (ceil_div : ℤ → ℤ → ℤ) where
  -- A query that fails is logged, and the results stay as they are.
  pub add_queried : Result QueriedProject → List ProjectWithPipelines → List ProjectWithPipelines
  add_queried (err e) results = results
  add_queried (ok q) results = results ++ record { project = q.node; pipelines = q.pipelines } ∷ []

  -- The loop over the paths, by a query for a path and the number of pipelines.
  pub fetch_paths :
      (String → ℤ → r.World → Result QueriedProject × r.World)
      → List String
      → ℤ
      → List ProjectWithPipelines
      → Session r ceil_div
      → Result (List ProjectWithPipelines) × Session r ceil_div
  fetch_paths query [] first results s = (ok results, s)
  fetch_paths query (path ∷ paths) first results s =
      let (waited, s1) = rest_wait r ceil_div s in
      let (reply, w) = query path first s1.world in
      let rest =
        fetch_paths query paths first (add_queried reply results) (record s1 { world = w }) in
      elim waited [ some e ↦ (err (wrap "rate limiter: %w" [] e), s1) | none ↦ rest ]

  pub fetch_projects_with_pipelines :
      (String → ℤ → r.World → Result QueriedProject × r.World)
      → Bool
      → List String
      → ℤ
      → Session r ceil_div
      → Result (List ProjectWithPipelines) × Session r ceil_div
  fetch_projects_with_pipelines query use_graphql paths first s =
      if use_graphql
      then fetch_paths query paths first [] s
      else (err (new "GraphQL is not enabled on this client" []), s)

  pub merge_requests_reply :
      String → Result (List MergeRequestNode) → Result (List MergeRequestNode)
  merge_requests_reply path (err e) =
      err (wrap "GraphQL: fetching MRs for %s: %w" (text path ∷ []) e)
  merge_requests_reply path (ok nodes) = ok nodes

  -- The query is for a path, a state and a number of merge requests.
  pub fetch_project_merge_requests :
      (String → String → ℤ → r.World → Result (List MergeRequestNode) × r.World)
      → Bool
      → String
      → String
      → ℤ
      → Session r ceil_div
      → Result (List MergeRequestNode) × Session r ceil_div
  fetch_project_merge_requests query use_graphql path state first s =
      let (waited, s1) = rest_wait r ceil_div s in
      let (reply, w) = query path state first s1.world in
      if use_graphql
      then elim waited [
        | some e ↦ (err (wrap "rate limiter: %w" [] e), s1)
        | none ↦ (merge_requests_reply path reply, record s1 { world = w })
      ]
      else (err (new "GraphQL is not enabled on this client" []), s)
