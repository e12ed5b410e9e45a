-- ===== src/Config/Validation.antt =====
-- internal/config/validation.go, and `RedactedJSON` of config.go. The struct
-- tags of the validation library and the JSON encoder are parameters.
use amazing_gitlab_exporter.Base.{Option, none, some, []}
use amazing_gitlab_exporter.Base.Errors.{Error, wrap, Result, ok, err}
use amazing_gitlab_exporter.Config.{Config, redacted}

-- `Validate`: what `load` takes as its validator, for the verdict of the library.
pub validate : (Config → Option Error) → Config → Option Error
validate verdict cfg = elim (verdict cfg) [
  | none ↦ none
  | some e ↦ some (wrap "config validation failed: %w" [] e)
]

-- `RedactedJSON` encodes the redacted configuration.
pub redacted_json : {A : Type 0} → (Config → Result A) → Config → Result A
redacted_json marshal cfg = elim (marshal (redacted cfg)) [
  | ok bytes ↦ ok bytes
  | err e ↦ err (wrap "marshalling redacted config: %w" [] e)
]
