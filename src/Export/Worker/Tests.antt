-- ===== src/Export/Worker/Tests.antt =====
-- The worker's parts at concrete batches, answers and durations.
use eden_logger.Export.Shared.{new_shared, default_metrics}
use eden_logger.Export.Worker.Tracker.{member, new_tracker, complete_all, watermark_exact}
use eden_logger.Export.Worker.Sizer.{ExportRequestSizer, varint_len, varint_len_iff}
use eden_logger.Export.Worker.Retry.{backoff, nanos_per_milli, backoff_bounds}
use eden_logger.Export.Worker.Batch.{
  succeeded, failed, Event, MappedLog, RetryConfig, Worker, export_batch, attempts, attempt,
  pop_batch, on_response, on_error, isolate,
}
use eden_logger.Export.Worker.Split.{split_records}
use eden_logger.Export.Worker.Batch.Order.{IsPrefixDone, attempts-IsPrefixDone}
use eden_logger.Export.Worker.Batch.Accounting.{AccountsFor, accounted, records_accounted}
use eden_logger.Export.Worker.Batch.Termination.{is_working, export_batch_terminates}
use eden_logger.Export.Worker.Assemble.{BatchConfig, gather}
use eden_logger.Export.Worker.Assemble.Limits.{Gathers, gather_lem}
use eden_logger.Base.{
  ℕ, ◌+◌, ◌*◌, ◌^◌, ◌≤◌, ◌<◌, ◌≡◌, refl, ◌↔◌, true, false, none, some, List, [], ◌∷◌, arith, codes,
}

abbrev one : MappedLog ℕ
one = record { ticket = 1; log_record = 30 }

abbrev two : MappedLog ℕ
two = record { ticket = 2; log_record = 40 }

abbrev three : MappedLog ℕ
three = record { ticket = 3; log_record = 900 }

abbrev idle_worker : Worker
idle_worker = record { shared = new_shared 60_000; completions = new_tracker 0; slept = [] }

abbrev retry_config : RetryConfig
retry_config = record { retry_initial = 250_000_000; retry_max = 30_000_000_000 }

abbrev invalid_payload : Event
invalid_payload = record {
  now = 100_000;
  subsec_nanos = 7;
  response = failed (record {
    invalid_payload = true;
    retryable = false;
    retry_after = none;
    text = codes "bad";
  });
  stops = false;
}

abbrev accepts_one : Event
accepts_one = record {
  now = 100_001;
  subsec_nanos = 8;
  response = succeeded 1 0 none;
  stops = false;
}

-- The pair is refused, then its first record accepted and its second one refused.
abbrev bisection : List Event
bisection = invalid_payload ∷ accepts_one ∷ invalid_payload ∷ []

bisection-AccountsFor :
    AccountsFor retry_config bisection (idle_worker, export_batch (one ∷ two ∷ []))
unfolding export_batch pop_batch attempt on_response on_error isolate split_records
bisection-AccountsFor = (tt, (refl, (tt, tt)))

records_accounted_example :
    accounted (attempts retry_config bisection (idle_worker, export_batch (one ∷ two ∷ []))) ≡ 2
unfolding new_shared default_metrics
records_accounted_example =
    records_accounted retry_config bisection (one ∷ two ∷ []) idle_worker bisection-AccountsFor

attempts-IsPrefixDone_example :
    IsPrefixDone
      (one ∷ two ∷ [])
      (new_tracker 0)
      (attempts retry_config bisection (idle_worker, export_batch (one ∷ two ∷ [])))
attempts-IsPrefixDone_example =
    attempts-IsPrefixDone (one ∷ two ∷ []) retry_config bisection idle_worker

export_batch_terminates_example :
    is_working (attempts retry_config bisection (idle_worker, export_batch (one ∷ two ∷ []))).1
    ≡ false
export_batch_terminates_example =
    export_batch_terminates retry_config bisection (one ∷ two ∷ []) idle_worker (omega arith)
      (omega arith)

watermark_exact_example :
    let w = (complete_all (new_tracker 0) (2 ∷ 1 ∷ 4 ∷ [])).watermark in
    ((k : ℕ) → 1 ≤ k → k ≤ w → member k (2 ∷ 1 ∷ 4 ∷ []) ≡ true)
    × (member (w + 1) (2 ∷ 1 ∷ 4 ∷ []) ≡ false)
watermark_exact_example =
    watermark_exact (2 ∷ 1 ∷ 4 ∷ []) (omega arith, (omega arith, (omega arith, tt)))

varint_len_iff_example : ((varint_len 300 ≤ 2) ↔ (300 < 128 ^ 2)) × (1 ≤ varint_len 300)
varint_len_iff_example = varint_len_iff 300 1 (omega arith)

abbrev small_sizer : ExportRequestSizer
small_sizer = record { resource_field_len = 20; scope_field_len = 10 }

-- The fourth failure from half a second: the base is four seconds.
backoff_bounds_example :
    (3_000_000_000 ≤ backoff none 17 4 500_000_000 30_000_000_000)
    × (backoff none 17 4 500_000_000 30_000_000_000 ≤ 5_000_000_000)
    × ((2 * nanos_per_milli ≤ 500_000_000) × (2 * nanos_per_milli ≤ 30_000_000_000)
        → 0 < backoff none 17 4 500_000_000 30_000_000_000)
    × (500_000_000 < nanos_per_milli → backoff none 17 4 500_000_000 30_000_000_000 ≡ 0)
backoff_bounds_example = backoff_bounds 17 4 500_000_000 30_000_000_000 (omega arith)

abbrev batch_config : BatchConfig
batch_config = record { max_batch_records = 2; max_batch_bytes = 500; sizer = small_sizer }

-- The third record is too large for any request.
gather_lem_example :
    Gathers
      (λ n. n)
      (λ r. 0)
      batch_config
      (one ∷ three ∷ two ∷ [])
      (gather
        (λ n. n)
        (λ r. 0)
        batch_config
        (one ∷ [])
        (some three ∷ some two ∷ none ∷ [])
        idle_worker).1
gather_lem_example =
    gather_lem (λ n. n) (λ r. 0) batch_config (one ∷ []) (some three ∷ some two ∷ none ∷ [])
      idle_worker (omega arith)
