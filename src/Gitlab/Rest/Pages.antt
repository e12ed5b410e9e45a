-- ===== src/Gitlab/Rest/Pages.antt =====
-- A listing returns every page that the server has, and stops at the first error.
use mathlib.Core.List.{append-nil, append_assoc}
use amazing_gitlab_exporter.Base.{
  ℕ, zero, suc, ◌≤◌, ◌≡◌, ◌≢◌, refl, ap, ◌∙◌, comparable_nat, Option, none, some, List, [], ◌∷◌,
  ◌++◌, arith,
}
use amazing_gitlab_exporter.Base.Lists.{length, concat}
use amazing_gitlab_exporter.Base.Int.{ℤ}
use amazing_gitlab_exporter.Base.Errors.{Error}
use amazing_gitlab_exporter.Runtime.{Runtime}
use amazing_gitlab_exporter.Gitlab.RateLimiter.{RateLimiter, wait}
use amazing_gitlab_exporter.Gitlab.Api.{Response, Reply, refused, answered}
use amazing_gitlab_exporter.Gitlab.Rest.{
  ListOptions, after_page, fetch_from, Session, rest_wait, Listing, list_reply, list_page, list_all,
  default_page_size,
}

-- The page after page `k`, where `rest` are the pages after it: 0 where there is none.
abbrev next_page_of {ℓ} : {A : Type ℓ} → ℕ → List A → ℕ
next_page_of k [] = 0
next_page_of k (_ ∷ _) = suc k

module _ {S : Type 0} (again : ℕ → S → Option (Option Error × S))
    (reply : Option Response × Option Error) (s : S) (response : Response)
    (answer : reply ≡ (some response, none)) where
  after_page-last : response.next_page ≡ 0 → after_page again reply.0 reply.1 s ≡ some (none, s)
  unfolding after_page
  after_page-last h = rw (ap (λ t. t.0) answer, ap (λ t. t.1) answer, h)

  after_page-more :
      (k : ℕ) → response.next_page ≡ suc k → after_page again reply.0 reply.1 s ≡ again (suc k) s
  unfolding after_page
  after_page-more k h = rw (ap (λ t. t.0) answer, ap (λ t. t.1) answer, h) (ground arith)

module _ (r : Runtime) (ceil_div : ℤ → ℤ → ℤ) {F A : Type 0}
    (call : ListOptions F → r.World → Reply (List A) × r.World) (describe : ℕ → Error → Error) where
  -- The server answers page `k` and the pages after it with `pages`, in whatever world it is asked,
  -- and each response names the next page.
  abbrev pub Serves : ℕ → List (List A) → Type 0
  Serves k [] = Unit
  Serves k (items ∷ rest) =
      ((o : ListOptions F) (w : r.World)
        → o.page ≡ k
        → (response : Response) × ((call o w).0 ≡ answered response items)
          × (response.next_page ≡ next_page_of k rest))
      × Serves (suc k) rest

  module _ (unhindered : (rl : RateLimiter) (w : r.World) → (wait r rl w).0 ≡ none) where
    list_page-answered :
        (k : ℕ) (l : Listing r ceil_div F A) (items : List A) (n : ℕ)
        → ((o : ListOptions F) (w : r.World)
            → o.page ≡ k
            → (response : Response) × ((call o w).0 ≡ answered response items)
              × (response.next_page ≡ n))
        → (response : Response) × ((list_page r ceil_div call describe k l).0
            ≡ (some response, none))
          × (response.next_page ≡ n)
          × ((list_page r ceil_div call describe k l).1.all ≡ l.all ++ items)
    unfolding list_page rest_wait list_reply
    list_page-answered k l items n h =
        let s = (rest_wait r ceil_div l.session).1 in
        let (response, reply, next) = h (record l.options { page = k }) s.world refl in
        (
          response,
          rw (unhindered l.session.limiter l.session.world, reply, list_page),
          next,
          rw (unhindered l.session.limiter l.session.world, reply, list_page),
        )

    fetch_from-served :
        (fuel k : ℕ) (items : List A) (rest : List (List A)) (l : Listing r ceil_div F A)
        → Serves k (items ∷ rest)
        → length (items ∷ rest) ≤ fuel
        → (l' : Listing r ceil_div F A) × (fetch_from fuel (list_page r ceil_div call describe) k l
            ≡ some (none, l'))
          × (l'.all ≡ l.all ++ concat (items ∷ rest))
    unfolding fetch_from
    fetch_from-served zero k items rest l h enough = absurd (omega arith)
    fetch_from-served (suc fuel) k items [] l h enough =
        let (response, answer, last, all) = list_page-answered k l items 0 h.0 in
        (
          (list_page r ceil_div call describe k l).1,
          after_page-last (fetch_from fuel (list_page r ceil_div call describe)) _ _ response answer
              last,
          rw (all, append-nil),
        )
    fetch_from-served (suc fuel) k items (more ∷ rest) l h enough =
        let (response, answer, next, all) = list_page-answered k l items (suc k) h.0 in
        let l₁ = (list_page r ceil_div call describe k l).1 in
        let (l', result, gathered) =
          fetch_from-served fuel (suc k) more rest l₁ h.1 (omega arith) in
        (
          l',
          after_page-more (fetch_from fuel (list_page r ceil_div call describe)) _ _ response answer
                k next
              ∙ result,
          rw (gathered, all, append_assoc),
        )

    -- A listing of a server that answers with `pages`, where no wait fails, returns all the items in
    -- order and no error, whatever page size was asked for, within one round for each page.
    pub list_all-served :
        (fuel : ℕ) (pages : List (List A)) (options : ListOptions F) (s : Session r ceil_div)
        → Serves 1 pages
        → pages ≢ []
        → length pages ≤ fuel
        → (l : Listing r ceil_div F A) × (list_all r ceil_div fuel call describe options s
            ≡ some (none, l))
          × (l.all ≡ concat pages)
    unfolding list_all
    list_all-served fuel [] options s h some_page enough = absurd (some_page refl)
    list_all-served fuel (items ∷ rest) options s h some_page enough =
        fetch_from-served fuel 1 items rest _ h enough

  -- If the call for the first page is refused, whatever the later calls would be answered, the
  -- listing ends with the described error and no item, and the
  -- limiter is left as it was: the headers of the refusal, `Retry-After` among them, are not read.
  pub list_all-refused :
      (fuel : ℕ) (options : ListOptions F) (s : Session r ceil_div) (response : Response)
      (e : Error)
      → (wait r s.limiter s.world).0 ≡ none
      → (call (record (default_page_size options) { page = 1 }) (rest_wait r ceil_div s).1.world).0
        ≡ refused response e
      → (l : Listing r ceil_div F A) × (list_all r ceil_div (suc fuel) call describe options s
          ≡ some (some (describe 1 e), l))
        × (l.all ≡ [])
        × (l.session.limiter ≡ s.limiter)
  unfolding list_all list_page rest_wait list_reply after_page
  list_all-refused fuel options s response e waits h =
      let o = record (default_page_size options) { page = 1 } in
      let s₁ = (rest_wait r ceil_div s).1 in
      (
        record { options = o; all = []; session = record s₁ { world = (call o s₁.world).1 } },
        rw (waits, h, list_page),
        refl,
        refl,
      )
