-- ===== src/Server/Webhook/Dispatch.antt =====
-- Who can trigger a callback, and which.
use amazing_gitlab_exporter.Base.{
  ℕ, String, Bool, true, false, not, sym, ◌∷◌, if◌then◌else◌, ◌&&◌, ◌||◌, ◌≡◌, ◌≢◌, refl, Option,
  none, some, List, [], ◌==◌, comparable_string, Bool-cases, inl, inr, arith,
}
use amazing_gitlab_exporter.Base.Lists.{take}
use amazing_gitlab_exporter.Server.Webhook.{
  WebhookHandler, WebhookPayload, Callback, pipeline_event, mr_event, Request, body_limit, dispatch,
  handle_payload, handle_body, serve_http,
}

-- The request carries the handler's secret, or the handler has none.
abbrev pub IsAuthorized : WebhookHandler → Request → Type 0
IsAuthorized wh r = ((wh.secret_token == "") || (r.gitlab_token == wh.secret_token)) ≡ true

module _ (unmarshal : List ℕ → Option WebhookPayload) (wh : WebhookHandler) where
  -- A body that holds an event of a project: it can be read, and its first 2^20 bytes decode to a
  -- payload with a path.
  abbrev pub IsEvent : Option (List ℕ) → WebhookPayload → Type 0
  IsEvent content payload =
      (body : List ℕ) × (content ≡ some body)
      × (unmarshal (take body_limit body) ≡ some payload)
      × ((payload.path_with_namespace == "") ≡ false)

  -- What can be registered: the kind of event, whether its callback is set, and the call.
  abbrev registrations : String → List (String × Bool × Callback)
  registrations path =
      ("pipeline", wh.on_pipeline_event, pipeline_event path)
      ∷ ("merge_request", wh.on_mr_event, mr_event path)
      ∷ []

  -- The calls of the registrations for a kind of event whose callback is set.
  abbrev calls_of : String → List (String × Bool × Callback) → List Callback
  calls_of kind [] = []
  calls_of kind ((k, set, call) ∷ rest) =
      if (kind == k) && set then call ∷ calls_of kind rest else calls_of kind rest

  dispatch-exact :
      (payload : WebhookPayload)
      → dispatch wh payload
        ≡ calls_of payload.object_kind (registrations payload.path_with_namespace)
  unfolding dispatch
  dispatch-exact payload = elim (Bool-cases (payload.object_kind == "pipeline")) [
    | inl h ↦ rw ((comparable_string.same_iff payload.object_kind "pipeline").0 h) (ground arith)
    | inr h ↦ rw h (ground arith)
  ]

  handle_payload-ok :
      (x : Option WebhookPayload)
      → (handle_payload unmarshal wh x).status ≡ 200
      → (payload : WebhookPayload) × (x ≡ some payload)
        × ((payload.path_with_namespace == "") ≡ false)
  unfolding handle_payload
  handle_payload-ok none h = absurd (omega arith)
  handle_payload-ok (some payload) h = (payload, refl, ground arith)

  handle_body-ok :
      (content : Option (List ℕ))
      → (handle_body unmarshal wh content).status ≡ 200
      → (payload : WebhookPayload) × IsEvent content payload
  unfolding handle_body
  handle_body-ok none h = absurd (omega arith)
  handle_body-ok (some body) h =
      let (payload, decoded, path) = handle_payload-ok (unmarshal (take body_limit body)) h in
      (payload, (body, refl, decoded, path))

  handle_body-event :
      (content : Option (List ℕ)) (payload : WebhookPayload)
      → IsEvent content payload
      → handle_body unmarshal wh content ≡ record { status = 200; calls = dispatch wh payload }
  unfolding handle_body handle_payload
  handle_body-event content payload (body, read, decoded, path) =
      rw (read, handle_body, decoded, handle_payload, path) refl

  -- A request that is a `POST`, is authorized and holds an event is answered 200, and calls back
  -- exactly what is registered for the kind of the event, with the path of its project: the callback
  -- for "pipeline", the one for "merge_request", and nothing for another kind or a callback that is
  -- not set.
  pub serve_http_event :
      (r : Request) (payload : WebhookPayload)
      → (r.method == "POST") ≡ true
      → IsAuthorized wh r
      → IsEvent r.body payload
      → serve_http unmarshal wh r ≡ record {
        status = 200;
        calls = calls_of payload.object_kind (registrations payload.path_with_namespace);
      }
  unfolding serve_http
  serve_http_event r payload post authorized event =
      rw (post, handle_body-event r.body payload event, sym (dispatch-exact payload)) (ground arith)

  -- A request is answered 200 only if it is a `POST`, is authorized and holds an event.
  pub serve_http_ok :
      (r : Request)
      → (serve_http unmarshal wh r).status ≡ 200
      → ((r.method == "POST") ≡ true)
        × IsAuthorized wh r
        × ((payload : WebhookPayload) × IsEvent r.body payload)
  unfolding serve_http
  serve_http_ok r h = elim (Bool-cases (r.method == "POST")) [
    | inl post ↦
        elim (Bool-cases (not (wh.secret_token == "") && not (r.gitlab_token == wh.secret_token))) [
          | inl refused ↦ absurd (ground (arith, h, post, refused))
          | inr allowed ↦ (
            post,
            ground (arith, allowed),
            handle_body-ok r.body (ground (arith, h, post, allowed)),
          )
        ]
    | inr other ↦ absurd (ground (arith, h, other))
  ]

  handle_payload-calls :
      (x : Option WebhookPayload)
      → (handle_payload unmarshal wh x).status ≢ 200
      → (handle_payload unmarshal wh x).calls ≡ []
  unfolding handle_payload
  handle_payload-calls none h = refl
  handle_payload-calls (some payload) h = ground (arith, h)

  handle_body-calls :
      (content : Option (List ℕ))
      → (handle_body unmarshal wh content).status ≢ 200
      → (handle_body unmarshal wh content).calls ≡ []
  unfolding handle_body
  handle_body-calls none h = refl
  handle_body-calls (some body) h = handle_payload-calls (unmarshal (take body_limit body)) h

  -- A request that is not answered 200 calls nothing.
  pub rejected_silent :
      (r : Request)
      → (serve_http unmarshal wh r).status ≢ 200
      → (serve_http unmarshal wh r).calls ≡ []
  unfolding serve_http
  rejected_silent r h = ground (arith, h, handle_body-calls r.body)
