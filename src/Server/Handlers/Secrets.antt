-- ===== src/Server/Handlers/Secrets.antt =====
-- The endpoint `/config` tells nothing of a secret but, for two of the three, whether it is set.
use amazing_gitlab_exporter.Base.{
  String, not, ◌≡◌, refl, Option, ◌==◌, comparable_string, if◌then◌else◌, arith,
}
use amazing_gitlab_exporter.Config.{Config}
use amazing_gitlab_exporter.Config.Redaction.{with_secrets}
use amazing_gitlab_exporter.Server.Handlers.{Server, redaction, redacted_copy, handle_config}

redaction-same :
    (s t : String)
    → (s == "") ≡ (t == "")
    → (if not (s == "") then redaction else s) ≡ (if not (t == "") then redaction else t)
redaction-same s t h =
    ground (arith, h, comparable_string.same_iff s "", comparable_string.same_iff t "")

-- Two servers whose configurations differ only in secrets, and agree on whether the webhook's secret
-- and the URL of Redis are set, answer `/config` alike, whatever the encoder does.
pub handle_config_hides :
    (encode : Config → Option String) (s : Server) (t t' k k' u u' : String)
    → (k == "") ≡ (k' == "")
    → (u == "") ≡ (u' == "")
    → handle_config encode (record s { config = with_secrets s.config t k u })
      ≡ handle_config encode (record s { config = with_secrets s.config t' k' u' })
unfolding handle_config redacted_copy
handle_config_hides encode s t t' k k' u u' hk hu =
    rw (redaction-same k k' hk, redaction-same u u' hu) refl
