-- ===== src/Server/Handlers/Tests.antt =====
-- An encoder that shows the token.
use amazing_gitlab_exporter.Base.{String, false, ◌≡◌, refl, Option, some}
use amazing_gitlab_exporter.Config.{Config}
use amazing_gitlab_exporter.Config.Load.{zero_config}
use amazing_gitlab_exporter.Config.Redaction.{with_secrets}
use amazing_gitlab_exporter.Server.Handlers.{Server, handle_config}
use amazing_gitlab_exporter.Server.Handlers.Secrets.{handle_config_hides}

abbrev show_token : Config → Option String
show_token c = some c.gitlab.token

abbrev server : Server
server = record { config = zero_config; ready = false }

handle_config_hides_example :
    handle_config show_token
      (record server { config = with_secrets server.config "a" "k" "redis://x" })
    ≡ handle_config show_token
        (record server { config = with_secrets server.config "b" "l" "redis://y" })
handle_config_hides_example =
    handle_config_hides show_token server "a" "b" "k" "l" "redis://x" "redis://y" refl refl
