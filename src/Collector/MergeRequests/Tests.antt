-- ===== src/Collector/MergeRequests/Tests.antt =====
-- One merged merge request with three notes.
use amazing_gitlab_exporter.Base.{
  ℕ, suc, ◌+◌, ◌-◌, ◌*◌, ◌/◌, comparable_nat, comparable_string, leb, true, none, some, [], ◌∷◌,
}
use amazing_gitlab_exporter.Base.Float.{Float64, not_a_number, infinite, finite}
use amazing_gitlab_exporter.Base.Int.{pos, pos_part}
use amazing_gitlab_exporter.Base.Errors.{ok}
use amazing_gitlab_exporter.Collector.Listing.{MergeRequest, Lister, Floats}
use amazing_gitlab_exporter.Collector.Observations.{Host, Progress}
use amazing_gitlab_exporter.Collector.MergeRequests.{MergeRequestLists, no_lists}

abbrev host : Host ℕ ℕ ℕ
host = record { ctx_err = λ w. none; now = λ w. w; seconds_between = λ a b. b - a }

-- A stand-in for floating-point numbers that keeps the mantissa.
abbrev truncated : Float64 → ℕ
truncated not_a_number = 0
truncated (infinite negative) = 0
truncated (finite negative m e) = m

abbrev floats : Floats ℕ
floats = record {
  zero_float = 0;
  add = λ a b. a + b;
  le = λ a b. leb a b;
  from_int = pos_part;
  from_float = truncated;
  multiply = λ a b. a * b;
  divide = λ a b. a / b;
  accepts = λ h. true;
}

abbrev request : MergeRequest ℕ
request = record {
  state = "merged";
  target_branch = "main";
  user_notes_count = pos 3;
  changes_count = "1000+";
  created_at = some 10;
  merged_at = some 50;
  closed_at = none;
  merged_by = some "ada";
  reviewers = "bob" ∷ "eve" ∷ [];
}

abbrev lister : Lister ℕ ℕ
lister project options w = (ok (request ∷ []), suc w)

abbrev progress : Progress (MergeRequestLists ℕ)
progress = record { lists = no_lists; errors = 1 }
