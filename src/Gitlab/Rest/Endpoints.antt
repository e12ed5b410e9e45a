-- ===== src/Gitlab/Rest/Endpoints.antt =====
-- internal/gitlab/rest.go: the listings, each with its options and its error text.
use amazing_gitlab_exporter.Base.{
  ℕ, String, Option, none, some, List, [], ◌∷◌, ◌==◌, comparable_string, if◌then◌else◌,
}
use amazing_gitlab_exporter.Base.Int.{ℤ, pos}
use amazing_gitlab_exporter.Base.Errors.{num, Error, wrap}
use amazing_gitlab_exporter.Runtime.{Runtime}
use amazing_gitlab_exporter.Gitlab.Api.{Reply}
use amazing_gitlab_exporter.Gitlab.Rest.{ListOptions, Session, Listing, list_all}

-- Options of a given filter, with pages of 100.
abbrev page_of_100 : {F : Type 0} → F → ListOptions F
page_of_100 f = record { page = 0; per_page = 100; filters = f }

-- `opts == nil` stands for options with no filter and no page size.
abbrev options_or : {F : Type 0} → F → Option (ListOptions F) → ListOptions F
options_or empty none = record { page = 0; per_page = 0; filters = empty }
options_or empty (some options) = options

-- `goGitlab.Ptr(s)` unless `s` is empty.
pub optional : String → Option String
optional s = if s == "" then none else some s

module _ (r : Runtime) (ceil_div : ℤ → ℤ → ℤ) (A : Type 0) where
  abbrev pub Call : Type 0 → Type 0
  Call F = ListOptions F → r.World → Reply (List A) × r.World

  abbrev pub Listed : Type 0 → Type 0
  Listed F = Option (Option Error × Listing r ceil_div F A)

  module _ {F : Type 0} (empty : F) where
    pub list_projects : ℕ → Call F → Option (ListOptions F) → Session r ceil_div → Listed F
    unfolding list_all
    list_projects fuel call options =
        list_all r ceil_div fuel call
          (λ page. wrap "listing projects (page %d): %w" (num (pos page) ∷ []))
          (options_or empty options)

    pub list_pipelines :
        ℕ → (ℤ → Call F) → ℤ → Option (ListOptions F) → Session r ceil_div → Listed F
    unfolding list_all
    list_pipelines fuel call project_id options =
        list_all r ceil_div fuel (call project_id)
          (λ page.
            wrap "listing pipelines for project %d (page %d): %w"
              (num project_id ∷ num (pos page) ∷ []))
          (options_or empty options)

    pub list_merge_requests :
        ℕ → (ℤ → Call F) → ℤ → Option (ListOptions F) → Session r ceil_div → Listed F
    unfolding list_all
    list_merge_requests fuel call project_id options =
        list_all r ceil_div fuel (call project_id)
          (λ page.
            wrap "listing merge requests for project %d (page %d): %w"
              (num project_id ∷ num (pos page) ∷ []))
          (options_or empty options)

  pub list_pipeline_jobs : ℕ → (ℤ → ℤ → Call Unit) → ℤ → ℤ → Session r ceil_div → Listed Unit
  unfolding list_all
  list_pipeline_jobs fuel call project_id pipeline_id =
      list_all r ceil_div fuel (call project_id pipeline_id)
        (λ page.
          wrap "listing jobs for pipeline %d/%d (page %d): %w"
            (num project_id ∷ num pipeline_id ∷ num (pos page) ∷ []))
        (page_of_100 tt)

  pub list_pipeline_bridges : ℕ → (ℤ → ℤ → Call Unit) → ℤ → ℤ → Session r ceil_div → Listed Unit
  unfolding list_all
  list_pipeline_bridges fuel call project_id pipeline_id =
      list_all r ceil_div fuel (call project_id pipeline_id)
        (λ page.
          wrap "listing bridges for pipeline %d/%d (page %d): %w"
            (num project_id ∷ num pipeline_id ∷ num (pos page) ∷ []))
        (page_of_100 tt)

  pub list_environments : ℕ → (ℤ → Call Unit) → ℤ → Session r ceil_div → Listed Unit
  unfolding list_all
  list_environments fuel call project_id =
      list_all r ceil_div fuel (call project_id)
        (λ page.
          wrap "listing environments for project %d (page %d): %w"
            (num project_id ∷ num (pos page) ∷ []))
        (page_of_100 tt)

  -- The filter is the environment's name, if one is given.
  pub list_deployments :
      ℕ → (ℤ → Call (Option String)) → ℤ → String → Session r ceil_div → Listed (Option String)
  unfolding list_all
  list_deployments fuel call project_id environment_name =
      list_all r ceil_div fuel (call project_id)
        (λ page.
          wrap "listing deployments for project %d (page %d): %w"
            (num project_id ∷ num (pos page) ∷ []))
        (page_of_100 (optional environment_name))

  -- The filter is the ref, if one is given.
  pub list_commits :
      ℕ → (ℤ → Call (Option String)) → ℤ → String → Session r ceil_div → Listed (Option String)
  unfolding list_all
  list_commits fuel call project_id ref =
      list_all r ceil_div fuel (call project_id)
        (λ page.
          wrap "listing commits for project %d (page %d): %w"
            (num project_id ∷ num (pos page) ∷ []))
        (page_of_100 (optional ref))
