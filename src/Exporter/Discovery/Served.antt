-- ===== src/Exporter/Discovery/Served.antt =====
-- What is discovered on a server that answers.
use amazing_gitlab_exporter.Base.{
  ℕ, suc, ◌≤◌, ◌≡◌, ◌≢◌, String, List, [], ◌∷◌, ◌++◌, comparable_nat,
}
use amazing_gitlab_exporter.Base.Lists.{length, concat}
use amazing_gitlab_exporter.Gitlab.Api.{Response, Reply, answered}
use amazing_gitlab_exporter.Config.{WildcardConfig, Config}
use amazing_gitlab_exporter.Exporter.Discovery.{ListProjectsOptions}

abbrev pub asked : WildcardConfig → ℕ → ListProjectsOptions
asked wc page = record { search = wc.search; archived = wc.archived; per_page = 100; page = page }

abbrev pub next_of : ℕ → List (List String) → ℕ
next_of k [] = 0
next_of k (_ ∷ _) = suc k

module _ {W : Type 0} (list_projects : ListProjectsOptions → W → Reply (List String) × W) where
  -- The server answers a wildcard's page `k` and the pages after it with `pages`, in whatever world it
  -- is asked, and each response names the next page.
  abbrev pub Serves : WildcardConfig → ℕ → List (List String) → Type 0
  Serves wc k [] = Unit
  Serves wc k (items ∷ rest) =
      ((w : W)
        → (response : Response) × ((list_projects (asked wc k) w).0 ≡ answered response items)
          × (response.next_page ≡ next_of k rest))
      × Serves wc (suc k) rest

  module _ (pages : WildcardConfig → List (List String)) where
    -- Every wildcard is answered with its pages, of which there is one at least and no more than the
    -- fuel allows.
    abbrev pub Answers : ℕ → List WildcardConfig → Type 0
    Answers fuel [] = Unit
    Answers fuel (wc ∷ wcs) =
        (Serves wc 1 (pages wc) × (pages wc ≢ []) × (length (pages wc) ≤ fuel)) × Answers fuel wcs

    -- What the wildcards find, in their order and page by page.
    abbrev pub found : List WildcardConfig → List String
    found [] = []
    found (wc ∷ wcs) = concat (pages wc) ++ found wcs
