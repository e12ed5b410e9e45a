-- ===== src/Collector/CodeReview/Tests.antt =====
-- One open merge request with two reviewers; the merged ones cannot be listed.
use amazing_gitlab_exporter.Base.{
  ℕ, suc, ◌+◌, ◌-◌, ◌*◌, ◌/◌, ◌==◌, comparable_nat, comparable_string, leb, true, none, some, [],
  ◌∷◌, if◌then◌else◌,
}
use amazing_gitlab_exporter.Base.Float.{Float64, not_a_number, infinite, finite}
use amazing_gitlab_exporter.Base.Int.{pos, pos_part}
use amazing_gitlab_exporter.Base.Errors.{ok, err, foreign}
use amazing_gitlab_exporter.Collector.Listing.{MergeRequest, Lister, Floats}
use amazing_gitlab_exporter.Collector.Observations.{Host, Progress}
use amazing_gitlab_exporter.Collector.CodeReview.{CodeReviewLists, no_lists}

abbrev host : Host ℕ ℕ ℕ
host = record { ctx_err = λ w. none; now = λ w. w; seconds_between = λ a b. b - a }

-- A stand-in for floating-point numbers that keeps the mantissa.
abbrev truncated : Float64 → ℕ
truncated not_a_number = 0
truncated (infinite negative) = 0
truncated (finite negative m e) = m

abbrev floats : Floats ℕ
floats = record {
  zero_float = 0;
  add = λ a b. a + b;
  le = λ a b. leb a b;
  from_int = pos_part;
  from_float = truncated;
  multiply = λ a b. a * b;
  divide = λ a b. a / b;
  accepts = λ h. true;
}

abbrev request : MergeRequest ℕ
request = record {
  state = "merged";
  target_branch = "main";
  user_notes_count = pos 3;
  changes_count = "1000+";
  created_at = some 10;
  merged_at = some 50;
  closed_at = none;
  merged_by = some "ada";
  reviewers = "bob" ∷ "eve" ∷ [];
}

abbrev lister : Lister ℕ ℕ
lister project options w =
    if options.state == "opened"
    then (ok (request ∷ []), suc w)
    else (err (foreign "502 Bad Gateway"), suc w)

abbrev progress : Progress (CodeReviewLists ℕ)
progress = record { lists = no_lists; errors = 1 }
