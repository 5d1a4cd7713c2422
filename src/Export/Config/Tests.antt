-- ===== src/Export/Config/Tests.antt =====
-- Configurations at concrete values.
use eden_logger.Export.Config.{ExporterConfig, new_config, validate}
use eden_logger.Export.Config.Validation.{IsUsable, validate_iff}
use eden_logger.Base.{ℕ, ◌≡◌, ◌↔◌, none, codes}

abbrev service : ExporterConfig ℕ
service = new_config 0 (codes "svc")

validate_iff_example : (validate service ≡ none) ↔ IsUsable service
validate_iff_example = validate_iff service
