-- ===== src/Gitlab/Rest/Tests.antt =====
-- Two pages of pipelines, and a server that refuses.
use amazing_gitlab_exporter.Base.{
  ℕ, ◌*◌, ◌≡◌, refl, true, none, some, List, [], ◌∷◌, ◌==◌, comparable_string, comparable_nat,
  if◌then◌else◌, arith,
}
use amazing_gitlab_exporter.Base.Lists.{concat}
use amazing_gitlab_exporter.Base.Int.{ℤ, pos, ◌+ℤ◌, ◌≤ℤ◌}
use amazing_gitlab_exporter.Base.Strconv.{atoi, digits}
use amazing_gitlab_exporter.Base.Errors.{num, Error, wrap, foreign}
use amazing_gitlab_exporter.Runtime.{Runtime, IsTimely}
use amazing_gitlab_exporter.Gitlab.RateLimiter.{
  Headers, RateLimiter, nanoseconds, new_rate_limiter, retry_after, wait,
}
use amazing_gitlab_exporter.Gitlab.Api.{Response, Reply, refused, answered}
use amazing_gitlab_exporter.Gitlab.Rest.{
  ListOptions, Session, rest_wait, get_one, Listing, list_all,
}
use amazing_gitlab_exporter.Gitlab.Rest.Pages.{Serves, list_all-served, list_all-refused}
use amazing_gitlab_exporter.Gitlab.Rest.Lookups.{throttled_lookup}

-- A clock that timers move on.
abbrev clock : Runtime
clock = record {
  World = ℤ;
  now = λ w. w;
  later = λ w. w +ℤ pos 1;
  select = λ d w. (true, w +ℤ d);
  bucket_wait = λ b w. (none, w);
  ctx_err = λ w. none;
}

clock-IsTimely : IsTimely clock
clock-IsTimely = record {
  select-timer = λ d w h. omega arith;
  bucket_wait-now = λ b w. omega arith;
}

-- The same with a context that is never cancelled: every wait ends well.
waits : (rl : RateLimiter) (w : ℤ) → (wait clock rl w).0 ≡ none
unfolding wait
waits rl w = ground arith

abbrev least : ℤ → ℤ → ℤ
least u k = pos 1

abbrev headers : Headers
headers key = if key == "Retry-After" then "30" else ""

abbrev page_after : ℕ → Response
page_after next = record { status_code = 200; next_page = next; headers = λ key. "" }

-- The ids of the pipelines on each page.
abbrev items_of : ℕ → List ℕ
items_of page = if page == 1 then 7 ∷ 8 ∷ [] else 9 ∷ []

abbrev served : ListOptions Unit → ℤ → Reply (List ℕ) × ℤ
served o w = (answered (page_after (if o.page == 1 then 2 else 0)) (items_of o.page), w)

abbrev pages : List (List ℕ)
pages = (7 ∷ 8 ∷ []) ∷ (9 ∷ []) ∷ []

abbrev describe : ℕ → Error → Error
describe page e = wrap "listing pipelines for project %d (page %d): %w" [] e

abbrev options : ListOptions Unit
options = record { page = 0; per_page = 0; filters = tt }

abbrev session : Session clock least
session = record { limiter = new_rate_limiter (pos 10) (pos 20); world = pos 0 }

serves : Serves clock least served describe 1 pages
serves = (
  λ o w h. (page_after 2, ground (arith, h), refl),
  (λ o w h. (page_after 0, ground (arith, h), refl), tt),
)

list_all-served_example :
    (l : Listing clock least Unit ℕ) × (list_all clock least 2 served describe options session
      ≡ some (none, l))
    × (l.all ≡ concat pages)
list_all-served_example =
    list_all-served clock least served describe waits 2 pages options session serves
      (λ h. absurd (cc h)) (omega arith)

abbrev limited : Response
limited = record { status_code = 429; next_page = 0; headers = headers }

abbrev refusal : Error
refusal = foreign "429 Too Many Requests"

abbrev refuses : ListOptions Unit → ℤ → Reply (List ℕ) × ℤ
refuses o w = (refused limited refusal, w)

list_all-refused_example :
    (l : Listing clock least Unit ℕ) × (list_all clock least 1 refuses describe options session
      ≡ some (some (describe 1 refusal), l))
    × (l.all ≡ [])
    × (l.session.limiter ≡ session.limiter)
list_all-refused_example =
    list_all-refused clock least refuses describe 0 options session limited refusal
      (waits session.limiter session.world) refl

abbrev look_up : ℤ → Reply ℕ × ℤ
look_up w = (refused limited refusal, w)

throttled_lookup_example :
    let refused_at = (rest_wait clock least session).1.world in
    let s' = (get_one clock least look_up "getting project %d: %w" (num (pos 7) ∷ []) session).1 in
    refused_at +ℤ pos (30 * nanoseconds) ≤ℤ (rest_wait clock least s').1.world
unfolding rest_wait wait new_rate_limiter retry_after atoi digits
throttled_lookup_example =
    let s' = (get_one clock least look_up "getting project %d: %w" (num (pos 7) ∷ []) session).1 in
    throttled_lookup clock clock-IsTimely least look_up "getting project %d: %w" (num (pos 7) ∷ [])
      session limited refusal 30 (waits session.limiter session.world) refl refl (omega arith)
      (omega arith) (omega arith) (omega arith) (waits s'.limiter s'.world)
