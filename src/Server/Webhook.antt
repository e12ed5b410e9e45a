-- ===== src/Server/Webhook.antt =====
-- internal/server/webhook.go. Decoding the JSON payload is a parameter; a callback is known by the
-- event that it is registered for, and log lines are left out.
pub mod Dispatch
mod Tests
use amazing_gitlab_exporter.Base.{
  ℕ, ◌^◌, String, Bool, true, false, not, ◌&&◌, Option, none, some, List, [], ◌∷◌, ◌==◌,
  comparable_string, if◌then◌else◌,
}
use amazing_gitlab_exporter.Base.Lists.{take}

pub record WebhookHandler : Type 0 where
  pub secret_token : String
  pub on_pipeline_event : Bool
  pub on_mr_event : Bool

pub new_webhook_handler : String → WebhookHandler
new_webhook_handler secret_token = record {
  secret_token = secret_token;
  on_pipeline_event = false;
  on_mr_event = false;
}

pub set_on_pipeline_event : WebhookHandler → WebhookHandler
set_on_pipeline_event wh = record wh { on_pipeline_event = true }

pub set_on_mr_event : WebhookHandler → WebhookHandler
set_on_mr_event wh = record wh { on_mr_event = true }

pub record WebhookPayload : Type 0 where
  pub object_kind : String
  pub path_with_namespace : String

-- `none` as the body is a body that cannot be read.
pub record Request : Type 0 where
  pub method : String
  pub gitlab_token : String
  pub body : Option (List ℕ)

-- A call of a registered callback.
pub data Callback : Type 0 where
  pipeline_event mr_event : String → Callback

pub record Outcome : Type 0 where
  pub status : ℕ
  pub calls : List Callback

abbrev pub rejected : ℕ → Outcome
rejected status = record { status = status; calls = [] }

abbrev pub body_limit : ℕ
body_limit = 2 ^ 20

-- The switch on the kind of the event.
pub dispatch : WebhookHandler → WebhookPayload → List Callback
dispatch wh payload =
    if payload.object_kind == "pipeline"
    then (if wh.on_pipeline_event then pipeline_event payload.path_with_namespace ∷ [] else [])
    else if payload.object_kind == "merge_request"
    then (if wh.on_mr_event then mr_event payload.path_with_namespace ∷ [] else [])
    else []

module _ (unmarshal : List ℕ → Option WebhookPayload) where
  pub handle_payload : WebhookHandler → Option WebhookPayload → Outcome
  handle_payload wh none = rejected 400
  handle_payload wh (some payload) =
      if payload.path_with_namespace == ""
      then rejected 400
      else record { status = 200; calls = dispatch wh payload }

  pub handle_body : WebhookHandler → Option (List ℕ) → Outcome
  handle_body wh none = rejected 400
  handle_body wh (some body) = handle_payload wh (unmarshal (take body_limit body))

  pub serve_http : WebhookHandler → Request → Outcome
  serve_http wh r =
      if not (r.method == "POST")
      then rejected 405
      else if not (wh.secret_token == "") && not (r.gitlab_token == wh.secret_token)
      then rejected 403
      else handle_body wh r.body
