-- ===== src/Server/Webhook/Tests.antt =====
-- A handler with a secret, and requests to it.
use amazing_gitlab_exporter.Base.{
  ℕ, String, true, false, ◌≡◌, refl, Option, some, List, [], ◌∷◌, ◌==◌, comparable_string,
}
use amazing_gitlab_exporter.Server.Webhook.{
  WebhookHandler, WebhookPayload, Request, pipeline_event, handle_payload, handle_body, serve_http,
}
use amazing_gitlab_exporter.Server.Webhook.Dispatch.{
  IsAuthorized, IsEvent, serve_http_event, serve_http_ok,
}

abbrev handler : WebhookHandler
handler = record { secret_token = "hush"; on_pipeline_event = true; on_mr_event = false }

abbrev payload : WebhookPayload
payload = record { object_kind = "pipeline"; path_with_namespace = "g/a" }

abbrev unmarshal : List ℕ → Option WebhookPayload
unmarshal body = some payload

abbrev request : String → Request
request token = record { method = "POST"; gitlab_token = token; body = some [] }

serve_http_event_example :
    serve_http unmarshal handler (request "hush")
    ≡ record { status = 200; calls = pipeline_event "g/a" ∷ [] }
serve_http_event_example =
    serve_http_event unmarshal handler (request "hush") payload refl refl ([], refl, refl, refl)

serve_http_ok_example :
    (((request "hush").method == "POST") ≡ true)
    × IsAuthorized handler (request "hush")
    × ((p : WebhookPayload) × IsEvent unmarshal handler (some []) p)
unfolding serve_http handle_body handle_payload
serve_http_ok_example = serve_http_ok unmarshal handler (request "hush") refl
