-- ===== src/Export/Shared.antt =====
-- The state that producers, worker and handle share: `Shared`, `ExporterStatus` and the helpers on
-- them of crates/eden_logger_export/src/lib.rs, and the counters and the snapshot of
-- crates/eden_logger_export/src/metrics.rs. Each function is one call with no other thread between
-- its accesses. The four `Notify` only wake tasks and are left out; `printed` is what went to
-- stderr, the last line first.
pub mod Diagnostics
mod Tests
use eden_logger.Base.{
  ℕ, zero, suc, ◌+◌, ◌-◌, ◌*◌, ◌/◌, ◌%◌, ◌^◌, ◌≤◌, ◌<◌, min, max, bit_and, bit_or, ◌≡◌, refl, sym,
  ap, ◌∙◌, subst, ◌≢◌, ◌↔◌, ◌⊎◌, inl, inr, Bool, true, false, ◌&&◌, ◌||◌, not, Option, none, some,
  List, [], ◌∷◌, ◌++◌, map, append-nil, append_assoc, arith, ltb, leb, ◌==◌, if◌then◌else◌, ltb→lt,
  lt→ltb, leb→le, ==_iff, Bool-cases, Option-cases, ◌>>=◌, or_else, is_some, is_nil, length, take,
  drop, length-append, take-append-drop, length-take, length-drop, any, all, All, All-append,
  u64_mod, u64_max, u128_max, sat_add, sat_mul, wrap_add, wrap_sub, Text, codes, text_eq,
  text_eq_iff,
}

pub data ExporterStatus : Type 0 where
  running backing_off terminal_failure shutting_down stopped : ExporterStatus

-- `status as u8`
abbrev pub status_code : ExporterStatus → ℕ
status_code running = 0
status_code backing_off = 1
status_code terminal_failure = 2
status_code shutting_down = 3
status_code stopped = 4

unfoldable pub status_from_u8 : ℕ → ExporterStatus
status_from_u8 value =
    if value == 1
    then backing_off
    else if value == 2
    then terminal_failure
    else if value == 3
    then shutting_down
    else if value == 4
    then stopped
    else running

unfoldable pub status_as_str : ExporterStatus → Text
status_as_str running = codes "running"
status_as_str backing_off = codes "backing_off"
status_as_str terminal_failure = codes "terminal_failure"
status_as_str shutting_down = codes "shutting_down"
status_as_str stopped = codes "stopped"

pub record ExporterMetrics : Type 0 where
  pub filtered : ℕ
  pub dropped_queue_full : ℕ
  pub dropped_queue_bytes_full : ℕ
  pub dropped_stopped : ℕ
  pub dropped_oversize : ℕ
  pub dropped_shutdown : ℕ
  pub exported : ℕ
  pub rejected : ℕ
  pub export_attempts : ℕ
  pub retries : ℕ
  pub partial_rejections : ℕ
  pub batches : ℕ
  pub normal_queue_depth : ℕ
  pub reserved_queue_depth : ℕ
  pub normal_queue_bytes : ℕ
  pub reserved_queue_bytes : ℕ
  pub inflight : ℕ
  pub producer_lanes : ℕ
  pub status : ℕ

unfoldable pub default_metrics : ExporterMetrics
default_metrics = record {
  filtered = 0;
  dropped_queue_full = 0;
  dropped_queue_bytes_full = 0;
  dropped_stopped = 0;
  dropped_oversize = 0;
  dropped_shutdown = 0;
  exported = 0;
  rejected = 0;
  export_attempts = 0;
  retries = 0;
  partial_rejections = 0;
  batches = 0;
  normal_queue_depth = 0;
  reserved_queue_depth = 0;
  normal_queue_bytes = 0;
  reserved_queue_bytes = 0;
  inflight = 0;
  producer_lanes = 0;
  status = status_code running;
}

pub record Shared : Type 0 where
  pub accepting : Bool
  pub producers_closed : Bool
  pub next_ticket : ℕ
  pub completed_ticket : ℕ
  pub metrics : ExporterMetrics
  pub diagnostic_interval_millis : ℕ
  pub last_diagnostic_millis : ℕ
  pub last_error : Option Text
  pub printed : List (ℕ × Text)

-- `Shared` as `prepare_generation` makes it.
unfoldable pub new_shared : ℕ → Shared
new_shared interval = record {
  accepting = true;
  producers_closed = false;
  next_ticket = 0;
  completed_ticket = 0;
  metrics = default_metrics;
  diagnostic_interval_millis = interval;
  last_diagnostic_millis = 0;
  last_error = none;
  printed = [];
}

-- A change of the counters alone.
abbrev pub with_metrics : Shared → ExporterMetrics → Shared
with_metrics s m = record s { metrics = m }

unfoldable pub set_status : ExporterStatus → Shared → Shared
set_status status s = with_metrics s (record (s.metrics) { status = status_code status })

-- At the time `now`, in milliseconds.
unfoldable pub emergency : ℕ → Text → Shared → Shared
emergency now message s =
    if ltb (now - s.last_diagnostic_millis) s.diagnostic_interval_millis
    then s
    else record s { last_diagnostic_millis = now; printed = (now, message) ∷ s.printed }

unfoldable pub set_last_error : Text → Shared → Shared
set_last_error message s = record s { last_error = some message }

unfoldable pub stop_acceptance : Shared → Shared
stop_acceptance s =
    let closed : Shared = record s { accepting = false } in
    if s.metrics.status == status_code stopped then closed else set_status shutting_down closed

unfoldable pub remaining_records : Shared → ℕ
remaining_records s =
    sat_add (sat_add s.metrics.normal_queue_depth s.metrics.reserved_queue_depth) s.metrics.inflight

unfoldable pub reset_live_metrics : Shared → Shared
reset_live_metrics s = with_metrics s (record (s.metrics) {
  normal_queue_depth = 0;
  reserved_queue_depth = 0;
  normal_queue_bytes = 0;
  reserved_queue_bytes = 0;
  inflight = 0;
})
