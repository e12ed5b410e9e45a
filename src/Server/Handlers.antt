-- ===== src/Server/Handlers.antt =====
-- internal/server/server.go: the endpoints that the server itself answers. Encoding a configuration to
-- JSON is a parameter (`none` is an error of the encoder), headers are left out.
pub mod Secrets
mod Tests
use amazing_gitlab_exporter.Base.{
  ℕ, String, Bool, true, false, not, Option, none, some, List, [], ◌∷◌, ◌++◌, ◌==◌,
  comparable_string, if◌then◌else◌,
}
use amazing_gitlab_exporter.Config.{Config}

pub record Server : Type 0 where
  pub config : Config
  pub ready : Bool

-- A status and a body.
pub record Reply : Type 0 where
  pub status : ℕ
  pub body : String

pub new_server : Config → Server
new_server cfg = record { config = cfg; ready = false }

pub set_ready : Bool → Server → Server
set_ready ready s = record s { ready = ready }

pub handle_health : Server → Reply
handle_health s = record { status = 200; body = "{\"status\":\"ok\"}" }

pub handle_ready : Server → Reply
handle_ready s =
    if s.ready
    then record { status = 200; body = "{\"status\":\"ready\"}" }
    else record { status = 503; body = "{\"status\":\"not_ready\"}" }

abbrev pub redaction : String
redaction = "***REDACTED***"

-- The copy of the configuration that `handleConfig` encodes.
pub redacted_copy : Config → Config
redacted_copy c = record c {
  gitlab = record c.gitlab { token = redaction };
  redis = record c.redis { url = if not (c.redis.url == "") then redaction else c.redis.url };
  server = record c.server {
    webhook = record c.server.webhook {
      secret_token =
          if not (c.server.webhook.secret_token == "")
          then redaction
          else c.server.webhook.secret_token;
    };
  };
}

module _ (encode : Config → Option String) where
  pub encoded : Option String → Reply
  encoded (some text) = record { status = 200; body = text }
  encoded none = record { status = 500; body = "internal error\n" }

  pub handle_config : Server → Reply
  handle_config s = encoded (encode (redacted_copy s.config))
