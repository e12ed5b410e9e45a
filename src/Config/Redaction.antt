-- ===== src/Config/Redaction.antt =====
-- A redacted configuration tells nothing of a secret but whether it is set.
use amazing_gitlab_exporter.Base.{String, ◌≡◌, ap, ◌==◌, comparable_string, if◌then◌else◌}
use amazing_gitlab_exporter.Config.{Config, redact_string, redacted}

-- The configuration with other secrets.
abbrev pub with_secrets : Config → String → String → String → Config
with_secrets c token secret_token url = record c {
  gitlab = record c.gitlab { token = token };
  server = record c.server { webhook = record c.server.webhook { secret_token = secret_token } };
  redis = record c.redis { url = url };
}

redact_string-same : (s t : String) → (s == "") ≡ (t == "") → redact_string s ≡ redact_string t
unfolding redact_string
redact_string-same s t h = ap (λ b. if b then "" else "****") h

-- Configurations that differ only in secrets, and agree on which are set, have one redaction.
pub redacted_hides :
    (c : Config) (t t' s s' u u' : String)
    → (t == "") ≡ (t' == "")
    → (s == "") ≡ (s' == "")
    → (u == "") ≡ (u' == "")
    → redacted (with_secrets c t s u) ≡ redacted (with_secrets c t' s' u')
unfolding redacted
redacted_hides c t t' s s' u u' ht hs hu =
    rw (redact_string-same t t' ht, redact_string-same s s' hs, redact_string-same u u' hu)
