-- ===== src/Emit/Accounts.antt =====
-- What the counters, the output and the sink see of a record that `emit_direct` of
-- crates/eden_logger/src/schema.rs emits.
use eden_logger.Base.{ℕ, ◌+◌, ◌≡◌, Bool, Option, none, some, if◌then◌else◌, length}
use eden_logger.Filter.{Filter}
use eden_logger.Decimal.{pos}
use eden_logger.Counters.{CounterSet}
use eden_logger.Writer.{Writer, target}
use eden_logger.Registry.Slots.{one_if}
use eden_logger.Registry.Dispatch.{sinks_of}
use eden_logger.Emit.{Logger, Effects, writes_text}

-- the callback that gets a record
abbrev pub callback_of_delivery {ℓ} : {A : Type ℓ} → Option (ℕ × A) → Option ℕ
callback_of_delivery none = none
callback_of_delivery (some (callback, log)) = some callback

-- What one call does, where the filter let it pass or not: the total of the counters was `n`.
pub record Accounts {C R : Type 0} (set : CounterSet C) (type_id n : ℕ) (s s' : Logger C)
    (passed : Bool) (e : Effects R) : Type 0 where
  pub counted : set.sum s'.counters 0 ≡ pos (n + one_if passed)
  pub written : length e.written ≡ (if passed then one_if (writes_text (target s.writer)) else 0)
  pub delivered :
      callback_of_delivery e.delivered ≡ (if passed then sinks_of s.registry type_id else none)
  pub same_writer : s'.writer ≡ s.writer
  pub same_registry : s'.registry ≡ s.registry
