-- ===== src/Export/Config.antt =====
-- `ExporterConfig`, `AudienceFilter` and `InstallError` of crates/eden_logger_export/src/lib.rs.
-- Durations are nanoseconds. `H` is the configuration of the HTTP client and `E` its error, both of
-- another package.
pub mod Validation
mod Tests
use eden_logger.Level.{LogLevel, trace, warn, LogAudience, internal, client, both}
use eden_logger.Filter.{trim}
use eden_logger.Base.{
  ℕ, zero, suc, ◌+◌, ◌-◌, ◌*◌, ◌/◌, ◌%◌, ◌^◌, ◌≤◌, ◌<◌, min, max, bit_and, bit_or, ◌≡◌, refl, sym,
  ap, ◌∙◌, subst, ◌≢◌, ◌↔◌, ◌⊎◌, inl, inr, Bool, true, false, ◌&&◌, ◌||◌, not, Option, none, some,
  List, [], ◌∷◌, ◌++◌, map, append-nil, append_assoc, arith, ltb, leb, ◌==◌, if◌then◌else◌, ltb→lt,
  lt→ltb, leb→le, ==_iff, Bool-cases, Option-cases, ◌>>=◌, or_else, is_some, is_nil, length, take,
  drop, length-append, take-append-drop, length-take, length-drop, any, all, All, All-append,
  u64_mod, u64_max, u128_max, sat_add, sat_mul, wrap_add, wrap_sub, Text, codes, text_eq,
  text_eq_iff,
}

pub record AudienceFilter : Type 0 where
  pub internal : Bool
  pub client : Bool
  pub both : Bool

abbrev pub all_audiences : AudienceFilter
all_audiences = record { internal = true; client = true; both = true }

abbrev pub internal_only : AudienceFilter
internal_only = record { internal = true; client = false; both = false }

unfoldable pub allows : AudienceFilter → LogAudience → Bool
allows filter internal = filter.internal
allows filter client = filter.client
allows filter both = filter.both

pub record ExporterConfig {ℓ} (H : Type ℓ) : Type ℓ where
  pub http : H
  pub service_name : Text
  pub scope_name : Text
  pub resource_attributes : List (Text × Text)
  pub min_level : LogLevel
  pub audiences : AudienceFilter
  pub priority_threshold : LogLevel
  pub normal_queue_capacity : ℕ
  pub reserved_queue_capacity : ℕ
  pub normal_queue_bytes : ℕ
  pub reserved_queue_bytes : ℕ
  pub max_batch_records : ℕ
  pub max_batch_bytes : ℕ
  pub max_batch_delay : ℕ
  pub retry_initial : ℕ
  pub retry_max : ℕ
  pub diagnostic_interval : ℕ

pub data InstallError {ℓ} (E : Type ℓ) : Type ℓ where
  no_tokio_runtime : InstallError E
  invalid_config : Text → InstallError E
  transport : E → InstallError E
  sink_already_installed : InstallError E

-- `Display` of the error; `show` is that of the transport's error.
unfoldable pub install_error_text {ℓ} : {E : Type ℓ} → (E → Text) → InstallError E → Text
install_error_text show no_tokio_runtime = codes "no Tokio runtime is active"
install_error_text show (invalid_config message) = codes "invalid exporter config: " ++ message
install_error_text show (transport error) = codes "failed to create OTLP client: " ++ show error
install_error_text show sink_already_installed =
    codes "an eden_logger sink is already installed for this RequestFields type"

abbrev millis : ℕ
millis = 1_000_000

module _ {ℓ} {H : Type ℓ} where
  -- `ExporterConfig::new`, with the client's configuration for the endpoint
  unfoldable pub new_config : H → Text → ExporterConfig H
  new_config http service_name = record {
    http = http;
    service_name = service_name;
    scope_name = codes "eden_logger";
    resource_attributes = [];
    min_level = trace;
    audiences = all_audiences;
    priority_threshold = warn;
    normal_queue_capacity = 61_440;
    reserved_queue_capacity = 4_096;
    normal_queue_bytes = 60 * 1024 * 1024;
    reserved_queue_bytes = 4 * 1024 * 1024;
    max_batch_records = 512;
    max_batch_bytes = 1024 * 1024;
    max_batch_delay = 200 * millis;
    retry_initial = 250 * millis;
    retry_max = 30_000 * millis;
    diagnostic_interval = 60_000 * millis;
  }

  unfoldable pub with_scope_name : Text → ExporterConfig H → ExporterConfig H
  with_scope_name name config = record config { scope_name = name }

  unfoldable pub with_resource_attribute : Text → Text → ExporterConfig H → ExporterConfig H
  with_resource_attribute key value config = record config {
    resource_attributes = config.resource_attributes ++ (key, value) ∷ [];
  }

  -- `with_header`, `with_timeout` and the other changes of the client's configuration
  unfoldable pub with_http : (H → H) → ExporterConfig H → ExporterConfig H
  with_http change config = record config { http = change config.http }

  unfoldable pub with_min_level : LogLevel → ExporterConfig H → ExporterConfig H
  with_min_level level config = record config { min_level = level }

  unfoldable pub with_audiences : AudienceFilter → ExporterConfig H → ExporterConfig H
  with_audiences audiences config = record config { audiences = audiences }

  unfoldable pub with_queue_capacities : ℕ → ℕ → ExporterConfig H → ExporterConfig H
  with_queue_capacities normal reserved config = record config {
    normal_queue_capacity = normal;
    reserved_queue_capacity = reserved;
  }

  unfoldable pub with_queue_limits : ℕ → ℕ → ℕ → ℕ → ExporterConfig H → ExporterConfig H
  with_queue_limits normal_records reserved_records normal_bytes reserved_bytes config =
      record config {
        normal_queue_capacity = normal_records;
        reserved_queue_capacity = reserved_records;
        normal_queue_bytes = normal_bytes;
        reserved_queue_bytes = reserved_bytes;
      }

  unfoldable pub with_batch_limits : ℕ → ℕ → ℕ → ExporterConfig H → ExporterConfig H
  with_batch_limits records size delay config = record config {
    max_batch_records = records;
    max_batch_bytes = size;
    max_batch_delay = delay;
  }

  unfoldable pub with_retry : ℕ → ℕ → ExporterConfig H → ExporterConfig H
  with_retry initial maximum config = record config { retry_initial = initial; retry_max = maximum }

  -- The error of `validate`, or `none` for `Ok(())`.
  unfoldable pub validate : ExporterConfig H → Option Text
  validate config =
      if is_nil (trim config.service_name)
      then some (codes "service_name must not be empty")
      else if is_nil (trim config.scope_name)
      then some (codes "scope_name must not be empty")
      else if (config.normal_queue_capacity == 0)
          || (config.reserved_queue_capacity == 0)
          || (config.normal_queue_bytes == 0)
          || (config.reserved_queue_bytes == 0)
      then some (codes "queue record capacities and byte budgets must be greater than zero")
      else if (config.max_batch_records == 0)
          || (config.max_batch_bytes == 0)
          || (config.max_batch_delay == 0)
      then some (codes "batch limits and delay must be greater than zero")
      else if (config.retry_initial == 0)
          || (config.retry_max == 0)
          || ltb config.retry_max config.retry_initial
      then some (codes "retry durations must be non-zero and initial must not exceed maximum")
      else if config.diagnostic_interval == 0
      then some (codes "diagnostic_interval must be greater than zero")
      else none
