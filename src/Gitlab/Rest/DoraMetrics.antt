-- ===== src/Gitlab/Rest/DoraMetrics.antt =====
-- internal/gitlab/rest.go `GetDORAMetrics`. The request is built by `NewRequest` for a path and sent by
-- `Do`, both of the client library; `format_date` is `Format("2006-01-02")`.
use amazing_gitlab_exporter.Base.{String, none, some, List, [], ◌∷◌}
use amazing_gitlab_exporter.Base.Int.{ℤ}
use amazing_gitlab_exporter.Base.Errors.{Arg, num, text, wrap, Result, ok, err}
use amazing_gitlab_exporter.Runtime.{Runtime}
use amazing_gitlab_exporter.Gitlab.Api.{Reply}
use amazing_gitlab_exporter.Gitlab.Rest.{Session, rest_wait, get_reply}

pub record DoraMetric (F : Type 0) : Type 0 where
  pub date : String
  pub value : F

-- The arguments of the path
-- `projects/%d/dora/metrics?metric=%s&start_date=%s&end_date=%s`.
abbrev pub dora_path_args : (ℤ → String) → ℤ → String → ℤ → ℤ → List Arg
dora_path_args format_date project_id metric start_date end_date =
    num project_id ∷ text metric ∷ text (format_date start_date) ∷ text (format_date end_date) ∷ []

module _ (r : Runtime) (ceil_div : ℤ → ℤ → ℤ) {Request F : Type 0}
    (new_request : List Arg → Result Request)
    (send : Request → r.World → Reply (List (DoraMetric F)) × r.World)
    (format_date : ℤ → String) where
  pub send_dora_request :
      String
      → ℤ
      → Result Request
      → Session r ceil_div
      → Result (List (DoraMetric F)) × Session r ceil_div
  send_dora_request metric project_id (err e) s =
      (err (wrap "building DORA metrics request: %w" [] e), s)
  send_dora_request metric project_id (ok request) s =
      let (reply, w) = send request s.world in
      get_reply r ceil_div "fetching DORA metric %q for project %d: %w"
        (text metric ∷ num project_id ∷ []) reply (record s { world = w })

  pub get_dora_metrics :
      ℤ → String → ℤ → ℤ → Session r ceil_div → Result (List (DoraMetric F)) × Session r ceil_div
  get_dora_metrics project_id metric start_date end_date s =
      let (waited, s1) = rest_wait r ceil_div s in
      let sent =
        send_dora_request metric project_id
          (new_request (dora_path_args format_date project_id metric start_date end_date)) s1 in
      elim waited [ some e ↦ (err (wrap "rate limiter: %w" [] e), s1) | none ↦ sent ]
