-- ===== src/Collector/Listing.antt =====
-- internal/collector: the merge requests that the code review and merge requests collectors list, and
-- the floating-point numbers that they compute with. Both are parameters.
use amazing_gitlab_exporter.Base.{
  ℕ, zero, suc, ◌+◌, ◌/◌, ◌-◌, ◌==◌, comparable_nat, String, Bool, Option, List, if◌then◌else◌,
}
use amazing_gitlab_exporter.Base.Float.{Float64}
use amazing_gitlab_exporter.Base.Int.{ℤ, pos, negsuc, wrap64}
use amazing_gitlab_exporter.Base.Errors.{Result}
use amazing_gitlab_exporter.Collector.Histograms.{Histogram}

-- The fields of `*gitlab.BasicMergeRequest` that the collectors read; of users, the user names.
pub record MergeRequest (Time : Type 0) : Type 0 where
  pub state : String
  pub target_branch : String
  pub user_notes_count : ℤ
  pub changes_count : String
  pub created_at : Option Time
  pub merged_at : Option Time
  pub closed_at : Option Time
  pub merged_by : Option String
  pub reviewers : List String

-- `ListProjectMergeRequestsOptions`.
pub record ListOptions : Type 0 where
  pub state : String
  pub order_by : String
  pub sort : String
  pub per_page : ℕ
  pub page : ℕ

-- The 100 merge requests of a state that were updated last.
abbrev pub latest_of : String → ListOptions
latest_of state = record {
  state = state;
  order_by = "updated_at";
  sort = "desc";
  per_page = 100;
  page = 1;
}

-- `rest.MergeRequests.ListProjectMergeRequests`.
abbrev pub Lister : Type 0 → Type 0 → Type 0
Lister World Time = String → ListOptions → World → Result (List (MergeRequest Time)) × World

-- What the collectors use of `float64` and of `NewConstHistogram`.
pub record Floats (F : Type 0) : Type 0 where
  pub zero_float : F
  pub add : F → F → F
  pub le : F → F → Bool
  pub from_int : ℤ → F
  pub from_float : Float64 → F
  pub multiply : F → F → F
  pub divide : F → F → F
  pub accepts : Histogram F → Bool

-- `n + 1` for an `int` n.
pub successor : ℤ → ℤ
successor (pos n) = wrap64 (n + 1)
successor (negsuc zero) = pos 0
successor (negsuc (suc n)) = negsuc n

-- `n / 2` for an `int` n: the quotient is rounded towards zero.
pub half : ℤ → ℤ
half (pos n) = pos (n / 2)
half (negsuc n) =
    let quotient = (n + 1) / 2 in if quotient == 0 then pos 0 else negsuc (quotient - 1)
