-- ===== src/Export/Config/Validation.antt =====
-- Which configurations `ExporterConfig::validate` accepts, and what the worker may rely on then.
use eden_logger.Filter.{trim}
use eden_logger.Export.Config.{ExporterConfig, validate}
use eden_logger.Base.{◌≤◌, ◌≡◌, ◌↔◌, false, none, arith, is_nil}

module _ {ℓ} {H : Type ℓ} where
  -- The bounds of a usable configuration.
  pub record IsUsable (config : ExporterConfig H) : Type 0 where
    pub named : is_nil (trim config.service_name) ≡ false
    pub scoped : is_nil (trim config.scope_name) ≡ false
    pub queues : (1 ≤ config.normal_queue_capacity) × (1 ≤ config.reserved_queue_capacity)
    pub budgets : (1 ≤ config.normal_queue_bytes) × (1 ≤ config.reserved_queue_bytes)
    pub batches :
        (1 ≤ config.max_batch_records) × (1 ≤ config.max_batch_bytes) × (1 ≤ config.max_batch_delay)
    pub retries : (1 ≤ config.retry_initial) × (config.retry_initial ≤ config.retry_max)
    pub diagnostics : 1 ≤ config.diagnostic_interval

  -- A configuration is accepted exactly if its names are not blank, all capacities, budgets, batch
  -- limits and durations are positive, and the first retry delay is at most the largest.
  pub validate_iff : (config : ExporterConfig H) → (validate config ≡ none) ↔ IsUsable config
  unfolding validate
  validate_iff config = (
    λ h. record {
      named = ground arith;
      scoped = ground arith;
      queues = ground arith;
      budgets = ground arith;
      batches = ground arith;
      retries = ground arith;
      diagnostics = ground arith;
    },
    λ u.
        ground (arith, u.named, u.scoped, u.queues, u.budgets, u.batches, u.retries, u.diagnostics),
  )
