-- ===== src/Gitlab/Rest.antt =====
-- internal/gitlab/rest.go: every method waits for the rate limiter, makes one call of the client
-- library for each page or object, and feeds the response's headers back. The call itself is a
-- parameter of each method, and so is the type of what it returns.
pub mod DoraMetrics
pub mod Endpoints
pub mod Pages
pub mod Lookups
mod Tests
use amazing_gitlab_exporter.Base.{
  ℕ, zero, suc, String, Bool, Option, none, some, List, [], ◌∷◌, ◌++◌, ◌==◌, comparable_nat,
  comparable_string, if◌then◌else◌,
}
use amazing_gitlab_exporter.Base.Int.{ℤ, pos}
use amazing_gitlab_exporter.Base.Errors.{Arg, num, text, Error, wrap, Result, ok, err}
use amazing_gitlab_exporter.Runtime.{Runtime}
use amazing_gitlab_exporter.Gitlab.RateLimiter.{RateLimiter, wait, update_from_headers}
use amazing_gitlab_exporter.Gitlab.Api.{Response, Reply, failed, refused, answered}

-- Options of a listing: the embedded `ListOptions`, and the filters, which the methods pass on.
pub record ListOptions (F : Type 0) : Type 0 where
  pub page : ℕ
  pub per_page : ℕ
  pub filters : F

-- `if opts.PerPage == 0 { opts.PerPage = 100 }`
pub default_page_size : {F : Type 0} → ListOptions F → ListOptions F
default_page_size options =
    if options.per_page == 0 then record options { per_page = 100 } else options

module _ {S : Type 0} where
  -- What `fetchAllPages` does after one page: `again` goes on with another.
  pub after_page :
      (ℕ → S → Option (Option Error × S))
      → Option Response
      → Option Error
      → S
      → Option (Option Error × S)
  after_page again response (some e) s = some (some e, s)
  after_page again none none s = some (none, s)
  after_page again (some response) none s =
      if response.next_page == 0 then some (none, s) else again response.next_page s

  -- The loop on fuel, from a given page; `none` means that the fuel ran out.
  pub fetch_from :
      ℕ → (ℕ → S → (Option Response × Option Error) × S) → ℕ → S → Option (Option Error × S)
  fetch_from zero fetch_page page s = none
  fetch_from (suc fuel) fetch_page page s =
      let (reply, s') = fetch_page page s in
      after_page (fetch_from fuel fetch_page) reply.0 reply.1 s'

  pub fetch_all_pages :
      ℕ → (ℕ → S → (Option Response × Option Error) × S) → S → Option (Option Error × S)
  unfolding fetch_from
  fetch_all_pages fuel fetch_page = fetch_from fuel fetch_page 1

module _ (r : Runtime) (ceil_div : ℤ → ℤ → ℤ) where
  -- The client's limiter and the world outside.
  pub record Session : Type 0 where
    pub limiter : RateLimiter
    pub world : r.World

  unfoldable pub rest_wait : Session → Option Error × Session
  rest_wait s = let (e, w) = wait r s.limiter s.world in (e, record s { world = w })

  unfoldable pub note_response : Response → Session → Session
  note_response response s = record s {
    limiter =
        update_from_headers ceil_div (r.now s.world) (r.later s.world) response.headers s.limiter;
  }

  module _ {A : Type 0} where
    pub get_reply : String → List Arg → Reply A → Session → Result A × Session
    get_reply format args (failed e) s = (err (wrap format args e), s)
    get_reply format args (refused response e) s =
        (err (wrap format args e), note_response response s)
    get_reply format args (answered response a) s = (ok a, note_response response s)

    -- The body that the methods for a single object share.
    pub get_one : (r.World → Reply A × r.World) → String → List Arg → Session → Result A × Session
    get_one call format args s =
        let (waited, s₁) = rest_wait s in
        let (reply, w) = call s₁.world in
        elim waited [
          | some e ↦ (err (wrap "rate limiter: %w" [] e), s₁)
          | none ↦ get_reply format args reply (record s₁ { world = w })
        ]

    pub get_project : (ℤ → r.World → Reply A × r.World) → ℤ → Session → Result A × Session
    get_project call project_id =
        get_one (call project_id) "getting project %d: %w" (num project_id ∷ [])

    pub get_pipeline : (ℤ → ℤ → r.World → Reply A × r.World) → ℤ → ℤ → Session → Result A × Session
    get_pipeline call project_id pipeline_id =
        get_one (call project_id pipeline_id) "getting pipeline %d/%d: %w"
          (num project_id ∷ num pipeline_id ∷ [])

    pub get_pipeline_test_report :
        (ℤ → ℤ → r.World → Reply A × r.World) → ℤ → ℤ → Session → Result A × Session
    get_pipeline_test_report call project_id pipeline_id =
        get_one (call project_id pipeline_id) "getting test report for pipeline %d/%d: %w"
          (num project_id ∷ num pipeline_id ∷ [])

    pub get_merge_request :
        (ℤ → ℤ → r.World → Reply A × r.World) → ℤ → ℤ → Session → Result A × Session
    get_merge_request call project_id mr_iid =
        get_one (call project_id mr_iid) "getting MR %d in project %d: %w"
          (num mr_iid ∷ num project_id ∷ [])

    -- The call has the option `Statistics: true`.
    pub get_project_statistics :
        (ℤ → Bool → r.World → Reply A × r.World) → ℤ → Session → Result A × Session
    get_project_statistics call project_id =
        get_one (call project_id Bool.true) "getting statistics for project %d: %w"
          (num project_id ∷ [])

    -- The languages are copied into a fresh map, which holds the same entries.
    pub get_repository_languages :
        (ℤ → r.World → Reply A × r.World) → ℤ → Session → Result A × Session
    get_repository_languages call project_id =
        get_one (call project_id) "getting languages for project %d: %w" (num project_id ∷ [])

  -- A listing under way: the caller's options, what was gathered, and the session.
  pub record Listing (F A : Type 0) : Type 0 where
    pub options : ListOptions F
    pub all : List A
    pub session : Session

  module _ {F A : Type 0} where
    pub list_reply :
        (ℕ → Error → Error)
        → ℕ
        → Reply (List A)
        → Listing F A
        → (Option Response × Option Error) × Listing F A
    list_reply describe page (failed e) l = ((none, some (describe page e)), l)
    list_reply describe page (refused response e) l = ((some response, some (describe page e)), l)
    list_reply describe page (answered response items) l = (
      (some response, none),
      record l { all = l.all ++ items; session = note_response response l.session },
    )

    -- The closure that every listing hands to `fetchAllPages`.
    pub list_page :
        (ListOptions F → r.World → Reply (List A) × r.World)
        → (ℕ → Error → Error)
        → ℕ
        → Listing F A
        → (Option Response × Option Error) × Listing F A
    list_page call describe page l =
        let options = record l.options { page = page } in
        let (waited, s) = rest_wait l.session in
        let (reply, w) = call options s.world in
        elim waited [
          | some e ↦ (
            (none, some (wrap "rate limiter: %w" [] e)),
            record l { options = options; session = s },
          )
          | none ↦
              list_reply describe page reply
                (record l { options = options; session = record s { world = w } })
        ]

    -- The body that the listings share, from options that are not nil.
    pub list_all :
        ℕ
        → (ListOptions F → r.World → Reply (List A) × r.World)
        → (ℕ → Error → Error)
        → ListOptions F
        → Session
        → Option (Option Error × Listing F A)
    unfolding fetch_all_pages
    list_all fuel call describe options s =
        fetch_all_pages fuel (list_page call describe)
          (record { options = default_page_size options; all = []; session = s })
