-- ===== src/Collector/TestReports/Gauges.antt =====
-- Which pipeline a report's gauges show after a project has been collected.
use amazing_gitlab_exporter.Base.{
  ◌≡◌, refl, ◌∙◌, String, Bool, true, false, ◌&&◌, Option, some, List, [], ◌∷◌, ◌++◌, ◌==◌,
  comparable_string, comparable_list, beq_refl, if◌then◌else◌,
}
use amazing_gitlab_exporter.Base.Lists.{All}
use amazing_gitlab_exporter.Base.Errors.{Result, ok, err}
use amazing_gitlab_exporter.Collector.{Value, whole, Op, observe, set, inc, Call, All-append, each}
use amazing_gitlab_exporter.Collector.TestReports.{
  Metric, total_count, TestCase, TestSuite, TestReport, Pipeline, TestReportsCollector,
  TestReportsApi, record_cases, record_suites, record_report, record_reply, collect_pipeline,
  collect_listed, collect_project,
}

abbrev is_total_count : Metric → Bool
is_total_count total_count = true
is_total_count metric = false

module _ {F : Type 0} where
  abbrev assigned : Op F → Option (Value F) → Option (Value F)
  assigned (set value) old = some value
  assigned (observe value) old = old
  assigned inc old = old

  -- What the gauge of total counts holds for some labels after a sequence of calls.
  abbrev pub total_count_after :
      List String → Option (Value F) → List (Call Metric F) → Option (Value F)
  total_count_after labels old [] = old
  total_count_after labels old (c ∷ cs) =
      total_count_after labels
        (if is_total_count c.metric && (c.labels == labels) then assigned c.op old else old) cs

  total_count_after-append :
      (labels : List String) (xs ys : List (Call Metric F)) (old : Option (Value F))
      → total_count_after labels old (xs ++ ys)
        ≡ total_count_after labels (total_count_after labels old xs) ys
  total_count_after-append labels [] ys old = refl
  total_count_after-append labels (x ∷ xs) ys old = total_count_after-append labels xs ys _

  abbrev IsOther : Call Metric F → Type 0
  IsOther c = is_total_count c.metric ≡ false

  total_count_after-IsOther :
      (labels : List String) (old : Option (Value F)) (cs : List (Call Metric F))
      → All IsOther cs
      → total_count_after labels old cs ≡ old
  total_count_after-IsOther labels old [] h = refl
  total_count_after-IsOther labels old (c ∷ cs) (h, hs) =
      rw h (total_count_after-IsOther labels old cs hs)

  record_cases-IsOther :
      (labels : List String) (tcs : List (TestCase F)) → All IsOther (record_cases labels tcs)
  unfolding record_cases
  record_cases-IsOther labels [] = tt
  record_cases-IsOther labels (tc ∷ tcs) = (refl, (refl, record_cases-IsOther labels tcs))

  included_cases-IsOther :
      (included : Bool) (labels : List String) (tcs : List (TestCase F))
      → All IsOther (if included then record_cases labels tcs else [])
  included_cases-IsOther true labels tcs = record_cases-IsOther labels tcs
  included_cases-IsOther false labels tcs = tt

  record_suites-IsOther :
      (c : TestReportsCollector) (project ref : String) (suites : List (TestSuite F))
      → All IsOther (record_suites c project ref suites)
  unfolding record_suites
  record_suites-IsOther c project ref [] = tt
  record_suites-IsOther c project ref (suite ∷ suites) = (
    refl,
    (
      refl,
      All-append IsOther _ _
          (included_cases-IsOther c.include_test_cases (project ∷ ref ∷ suite.name ∷ [])
            suite.test_cases)
          (record_suites-IsOther c project ref suites),
    ),
  )

  -- A report sets the gauge for its own project and ref, and no other one.
  record_report-after :
      (c : TestReportsCollector) (project ref : String) (r : TestReport F) (labels : List String)
      → (old : Option (Value F))
      → total_count_after labels old (record_report c project ref r)
        ≡ (if project ∷ ref ∷ [] == labels then some (whole r.total_count) else old)
  unfolding record_report
  record_report-after c project ref r labels old =
      total_count_after-IsOther labels _ (record_suites c project ref r.test_suites)
        (record_suites-IsOther c project ref r.test_suites)

labels-other :
    (project ref other : String)
    → (other == ref) ≡ false
    → (project ∷ other ∷ [] == project ∷ ref ∷ []) ≡ false
labels-other project ref other differ = rw (beq_refl project, differ) refl

module _ {World F : Type 0} (api : TestReportsApi World F) where
  -- The pipeline has another ref, so its report leaves the gauge as it is.
  collect_pipeline-other :
      (c : TestReportsCollector) (project ref : String) (p : Pipeline) (w : World)
      → (old : Option (Value F)) → (p.ref == ref) ≡ false
      → total_count_after (project ∷ ref ∷ []) old (collect_pipeline api c project p w).0 ≡ old
  unfolding collect_pipeline record_reply
  collect_pipeline-other c project ref p w old differ =
      go (api.get_pipeline_test_report project p.id w).0
    where
      go :
          (reply : Result (TestReport F))
          → total_count_after (project ∷ ref ∷ []) old (record_reply api c project p.ref reply)
            ≡ old
      go (err e) = refl
      go (ok r) =
          record_report-after c project p.ref r (project ∷ ref ∷ []) old
          ∙ rw (labels-other project ref p.ref differ) refl

  each-others :
      (c : TestReportsCollector) (project ref : String) (ps : List Pipeline) (w : World)
      → (old : Option (Value F)) → All (λ p. (p.ref == ref) ≡ false) ps
      → total_count_after (project ∷ ref ∷ []) old (each (collect_pipeline api c project) ps w).0
        ≡ old
  unfolding each
  each-others c project ref [] w old h = refl
  each-others c project ref (p ∷ ps) w old (h, hs) =
      let (calls, w1) = collect_pipeline api c project p w in
      total_count_after-append (project ∷ ref ∷ []) calls
        (each (collect_pipeline api c project) ps w1).0 old
      ∙ rw (collect_pipeline-other c project ref p w old h) (each-others c project ref ps w1 old hs)

  each-last :
      (c : TestReportsCollector) (project : String) (p : Pipeline) (pre post : List Pipeline)
      → (w : World) → (old : Option (Value F)) → (r : TestReport F)
      → (let (calls, w1) = each (collect_pipeline api c project) pre w in
          (api.get_pipeline_test_report project p.id w1).0 ≡ ok r)
      → All (λ q. (q.ref == p.ref) ≡ false) post
      → total_count_after
          (project ∷ p.ref ∷ [])
          old
          (each (collect_pipeline api c project) (pre ++ p ∷ post) w).0
        ≡ some (whole r.total_count)
  unfolding each collect_pipeline record_reply
  each-last c project p [] post w old r reply others =
      let labels = project ∷ p.ref ∷ [] in
      let (calls, w1) = collect_pipeline api c project p w in
      total_count_after-append labels calls (each (collect_pipeline api c project) post w1).0 old
      ∙ each-others c project p.ref post w1 _ others
      ∙ rw (reply, record_report-after c project p.ref r labels old, beq_refl labels) refl
  each-last c project p (q ∷ pre) post w old r reply others =
      let labels = project ∷ p.ref ∷ [] in
      let (calls, w1) = collect_pipeline api c project q w in
      total_count_after-append labels calls
        (each (collect_pipeline api c project) (pre ++ p ∷ post) w1).0 old
      ∙ each-last c project p pre post w1 _ r reply others

  -- Let the listing of a project's pipelines succeed, let the report of one of them be fetched when its
  -- turn comes, and let no pipeline listed after it have its ref. Then, whatever was exported before and
  -- whatever the pipelines listed before it report, the gauge of total counts for the project and the
  -- ref ends at this pipeline's total.
  pub last_listed_wins :
      (c : TestReportsCollector) (project : String) (p : Pipeline) (pre post : List Pipeline)
      → (w w1 : World) → (old : Option (Value F)) → (r : TestReport F)
      → api.list_project_pipelines project 10 w ≡ (ok (pre ++ p ∷ post), w1)
      → (api.get_pipeline_test_report project p.id
          (each (collect_pipeline api c project) pre w1).1).0
        ≡ ok r
      → All (λ q. (q.ref == p.ref) ≡ false) post
      → total_count_after (project ∷ p.ref ∷ []) old (collect_project api c project w).0.0
        ≡ some (whole r.total_count)
  unfolding collect_project collect_listed
  last_listed_wins c project p pre post w w1 old r listed reply others =
      rw listed (each-last c project p pre post w1 old r reply others)
