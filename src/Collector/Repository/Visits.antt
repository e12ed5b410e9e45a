-- ===== src/Collector/Repository/Visits.antt =====
-- internal/collector/repository.go: the three parts of a visit fail on their own.
use mathlib.Core.List.{append-nil}
use amazing_gitlab_exporter.Base.{
  ℕ, ◌≡◌, refl, ap, ◌∙◌, suc, ◌+◌, ◌≤◌, String, Option, none, some, List, [], ◌∷◌, ◌++◌, ◌==◌,
  comparable_string, Bool-cases, inl, inr, arith,
}
use amazing_gitlab_exporter.Base.Lists.{length, length-append}
use amazing_gitlab_exporter.Base.Int.{ℤ}
use amazing_gitlab_exporter.Base.Dict.{Dict}
use amazing_gitlab_exporter.Base.Errors.{Result, ok, err}
use amazing_gitlab_exporter.Collector.Observations.{LabeledGauge, Host, Progress}
use amazing_gitlab_exporter.Collector.Repository.{
  RepositoryLists, RepositoryApi, Statistics, ProjectDetail, language_gauges, record_languages,
  record_statistics, record_project, record_coverage, record_pipeline, visit_pipelines, visit,
}

abbrev pub failures : {A : Type 0} → Result A → ℕ
failures (ok x) = 0
failures (err e) = 1

-- One, if the statistics of the project could be read.
abbrev pub measured : Result (Option ProjectDetail) → ℕ
measured (err e) = 0
measured (ok none) = 0
measured (ok (some detail)) = elim detail.statistics [ none ↦ 0 | some s ↦ 1 ]

add_zero : (n : ℕ) → n + 0 ≡ n
add_zero n = omega arith

add_one : (n : ℕ) → n + 1 ≡ suc n
add_one n = omega arith

module _ {F : Type 0} where
  -- The gauges for the languages of a project, if they could be read.
  abbrev pub languages_of : String → Result (Option (Dict String F)) → List (LabeledGauge F)
  languages_of project (err e) = []
  languages_of project (ok none) = []
  languages_of project (ok (some languages)) = language_gauges project languages

  record_languages-adds :
      (project : String) (reply : Result (Option (Dict String F)))
      → (p : Progress (RepositoryLists F))
      → record_languages project reply p ≡ record {
        lists = record p.lists {
          language_percentage = p.lists.language_percentage ++ languages_of project reply;
        };
        errors = p.errors + failures reply;
      }
  unfolding record_languages
  record_languages-adds project (err e) p =
      rw (append-nil p.lists.language_percentage, add_one p.errors) refl
  record_languages-adds project (ok none) p =
      rw (append-nil p.lists.language_percentage, add_zero p.errors) refl
  record_languages-adds project (ok (some languages)) p = rw (add_zero p.errors) refl

  -- What the statistics and the coverage add to the lists.
  abbrev Grows : ℕ → ℕ → RepositoryLists F → RepositoryLists F → Type 0
  Grows statistics coverage l after =
      (after.language_percentage ≡ l.language_percentage)
      × (length after.size_bytes ≡ length l.size_bytes + statistics)
      × (length after.commit_count ≡ length l.commit_count + statistics)
      × (length after.coverage ≤ length l.coverage + coverage)

  record_statistics-Grows :
      (project branch : String) (statistics : Option Statistics) (l : RepositoryLists F)
      → Grows
          (elim statistics [ none ↦ 0 | some s ↦ 1 ])
          0
          l
          (record_statistics project branch statistics l)
  unfolding record_statistics
  record_statistics-Grows project branch none l = (refl, omega arith, omega arith, omega arith)
  record_statistics-Grows project branch (some s) l = (
    refl,
    length-append l.size_bytes (_ ∷ []),
    length-append l.commit_count (_ ∷ []),
    omega arith,
  )

  record_project-Grows :
      (project : String) (reply : Result (Option ProjectDetail)) (p : Progress (RepositoryLists F))
      → let q = record_project project reply p in
        (q.errors ≡ p.errors + failures reply) × Grows (measured reply) 0 p.lists q.lists
  unfolding record_project
  record_project-Grows project (err e) p =
      (omega arith, (refl, omega arith, omega arith, omega arith))
  record_project-Grows project (ok none) p =
      (omega arith, (refl, omega arith, omega arith, omega arith))
  record_project-Grows project (ok (some detail)) p =
      (omega arith, record_statistics-Grows project detail.default_branch detail.statistics p.lists)

  record_coverage-Grows :
      (project : String) (value : Option F) (l : RepositoryLists F)
      → Grows 0 1 l (record_coverage project value l)
  unfolding record_coverage
  record_coverage-Grows project none l = (refl, omega arith, omega arith, omega arith)
  record_coverage-Grows project (some value) l =
      (refl, omega arith, omega arith, omega (arith, length-append l.coverage (_ ∷ [])))

module _ {World Time F : Type 0} (host : Host World Time F) (api : RepositoryApi World F)
    (parse_float : String → Option F) where
  record_pipeline-Grows :
      (project : String) (reply : Result String) (p : Progress (RepositoryLists F))
      → let q = record_pipeline host api parse_float project reply p in
        (q.errors ≡ p.errors) × Grows 0 1 p.lists q.lists
  unfolding record_pipeline
  record_pipeline-Grows project (err e) p = (refl, (refl, omega arith, omega arith, omega arith))
  record_pipeline-Grows project (ok text) p = elim (Bool-cases (text == "")) [
    | inl h ↦ rw h (refl, (refl, omega arith, omega arith, omega arith))
    | inr h ↦ rw h (refl, record_coverage-Grows project (parse_float text) p.lists)
  ]

  visit_pipelines-Grows :
      (project : String) (reply : Result (List ℤ) × World) (p : Progress (RepositoryLists F))
      → let q = (visit_pipelines host api parse_float project reply p).0 in
        (q.errors ≡ p.errors) × Grows 0 1 p.lists q.lists
  unfolding visit_pipelines
  visit_pipelines-Grows project (err e, w) p = (refl, (refl, omega arith, omega arith, omega arith))
  visit_pipelines-Grows project (ok [], w) p = (refl, (refl, omega arith, omega arith, omega arith))
  visit_pipelines-Grows project (ok (id ∷ ids), w) p =
      record_pipeline-Grows project (api.get_pipeline_coverage project id w).0 p

  -- A visit of a project adds the gauges of its languages if they could be read, one gauge of the size
  -- and one of the commits exactly if its statistics could be read, and at most one of the coverage. It
  -- counts one error for the languages and one for the statistics if they could not be read, each
  -- without the other, and none for the coverage, whatever happens to it.
  pub visit_parts :
      (project : String) (p : Progress (RepositoryLists F)) (w : World)
      → let (languages, w1) = api.get_project_languages project w in
        let (detail, w2) = api.get_project project w1 in
        let after = (visit host api parse_float project p w).0 in
        (after.errors ≡ p.errors + failures languages + failures detail)
        × (after.lists.language_percentage
            ≡ p.lists.language_percentage ++ languages_of project languages)
        × (length after.lists.size_bytes ≡ length p.lists.size_bytes + measured detail)
        × (length after.lists.commit_count ≡ length p.lists.commit_count + measured detail)
        × (length after.lists.coverage ≤ length p.lists.coverage + 1)
  unfolding visit
  visit_parts project p w =
      let (languages, w1) = api.get_project_languages project w in
      let (detail, w2) = api.get_project project w1 in
      let read = record_languages project languages p in
      let same = record_languages-adds project languages p in
      let (f, (g1, g2, g3, g4)) = record_project-Grows project detail read in
      let (h, (k1, k2, k3, k4)) =
        visit_pipelines-Grows project (api.list_finished_pipelines project w2)
          (record_project project detail read) in
      (
        omega (arith, h, f, ap (λ q. q.errors) same),
        k1 ∙ g1 ∙ ap (λ q. q.lists.language_percentage) same,
        omega (arith, k2, g2, ap (λ q. length q.lists.size_bytes) same),
        omega (arith, k3, g3, ap (λ q. length q.lists.commit_count) same),
        omega (arith, k4, g4, ap (λ q. length q.lists.coverage) same),
      )
