-- ===== src/Export/Worker/Assemble.antt =====
-- How `run_worker` of crates/eden_logger_export/src/worker.rs gathers a batch, and its arm for a
-- terminal failure. What a record's protobuf encoding takes is a parameter. `arrivals` are the
-- results of waiting, in order: a record, or `none` where the deadline, a flush, the shutdown or a
-- wake-up without a record ends the batch. `now r` is the clock when the worker looks at `r`.
pub mod Limits
use eden_logger.Export.Shared.{Shared, stopped, set_status, with_metrics}
use eden_logger.Export.Worker.Sizer.{ExportRequestSizer, encoded_len, length_delimited_field_len}
use eden_logger.Export.Worker.Batch.{MappedLog, Worker, complete_ticket, reject_oversize}
use eden_logger.Base.{
  ℕ, zero, suc, ◌+◌, ◌-◌, ◌*◌, ◌/◌, ◌%◌, ◌^◌, ◌≤◌, ◌<◌, min, max, bit_and, bit_or, ◌≡◌, refl, sym,
  ap, ◌∙◌, subst, ◌≢◌, ◌↔◌, ◌⊎◌, inl, inr, Bool, true, false, ◌&&◌, ◌||◌, not, Option, none, some,
  List, [], ◌∷◌, ◌++◌, map, append-nil, append_assoc, arith, ltb, leb, ◌==◌, if◌then◌else◌, ltb→lt,
  lt→ltb, leb→le, ==_iff, Bool-cases, Option-cases, ◌>>=◌, or_else, is_some, is_nil, length, take,
  drop, length-append, take-append-drop, length-take, length-drop, any, all, All, All-append,
  u64_mod, u64_max, u128_max, sat_add, sat_mul, wrap_add, wrap_sub, Text, codes, text_eq,
  text_eq_iff,
}

pub record BatchConfig : Type 0 where
  pub max_batch_records : ℕ
  pub max_batch_bytes : ℕ
  pub sizer : ExportRequestSizer

-- What a record of a given field length does to a batch of a given length.
pub data Verdict : Type 0 where
  oversize overflow fits : Verdict

unfoldable pub is_oversize : BatchConfig → ℕ → Bool
is_oversize config field_len = ltb config.max_batch_bytes (encoded_len config.sizer field_len)

unfoldable pub verdict : BatchConfig → ℕ → ℕ → Verdict
verdict config records_len field_len =
    if is_oversize config field_len
    then oversize
    else if ltb config.max_batch_bytes (encoded_len config.sizer (sat_add records_len field_len))
    then overflow
    else fits

-- A record that no request can hold.
unfoldable pub drop_oversize : ℕ → ℕ → Worker → Worker
drop_oversize now ticket w = complete_ticket ticket (reject_oversize now w)

module _ {ℓ} {A : Type ℓ} (record_len : A → ℕ) (now : MappedLog A → ℕ) (config : BatchConfig) where
  unfoldable pub field_len : MappedLog A → ℕ
  field_len r = length_delimited_field_len (record_len r.log_record)

  -- The batch, the records that wait in `pending`, and the arrivals not yet seen.
  pub record Gathered : Type ℓ where
    pub worker : Worker
    pub batch : List (MappedLog A)
    pub records_encoded_len : ℕ
    pub pending : List (MappedLog A)
    pub arrivals : List (Option (MappedLog A))

  unfoldable pub stop : Gathered → List (MappedLog A) → List (Option (MappedLog A)) → Gathered
  stop g pending arrivals = record g { pending = pending; arrivals = arrivals }

  unfoldable pub push : Gathered → MappedLog A → Gathered
  push g r = record g {
    batch = g.batch ++ r ∷ [];
    records_encoded_len = sat_add g.records_encoded_len (field_len r);
  }

  unfoldable pub skip : Gathered → MappedLog A → Gathered
  skip g r = record g { worker = drop_oversize (now r) r.ticket g.worker }

  -- The inner loop, while the batch has room for records.
  unfoldable pub fill : List (MappedLog A) → List (Option (MappedLog A)) → Gathered → Gathered
  fill [] [] g = stop g [] []
  fill [] (none ∷ arrivals) g =
      if ltb (length g.batch) config.max_batch_records
      then stop g [] arrivals
      else stop g [] (none ∷ arrivals)
  fill [] (some r ∷ arrivals) g =
      if ltb (length g.batch) config.max_batch_records
      then elim (verdict config g.records_encoded_len (field_len r)) [
        | oversize ↦ fill [] arrivals (skip g r)
        | overflow ↦ stop g (r ∷ []) arrivals
        | fits ↦ fill [] arrivals (push g r)
      ]
      else stop g [] (some r ∷ arrivals)
  fill (r ∷ pending) arrivals g =
      if ltb (length g.batch) config.max_batch_records
      then elim (verdict config g.records_encoded_len (field_len r)) [
        | oversize ↦ fill pending arrivals (skip g r)
        | overflow ↦ stop g (r ∷ pending) arrivals
        | fits ↦ fill pending arrivals (push g r)
      ]
      else stop g (r ∷ pending) arrivals

  abbrev started : Worker → MappedLog A → Gathered
  started w r = record {
    worker = w;
    batch = r ∷ [];
    records_encoded_len = field_len r;
    pending = [];
    arrivals = [];
  }

  -- The outer loop up to the export: the first record that a request can hold, and the batch from it
  -- on. Without such a record there is no batch.
  unfoldable pub gather :
      List (MappedLog A) → List (Option (MappedLog A)) → Worker → Worker × Option Gathered
  gather [] [] w = (w, none)
  gather [] (none ∷ arrivals) w = gather [] arrivals w
  gather [] (some r ∷ arrivals) w = elim (is_oversize config (field_len r)) [
    | true ↦ gather [] arrivals (drop_oversize (now r) r.ticket w)
    | false ↦ (w, some (fill [] arrivals (started w r)))
  ]
  gather (r ∷ pending) arrivals w = elim (is_oversize config (field_len r)) [
    | true ↦ gather pending arrivals (drop_oversize (now r) r.ticket w)
    | false ↦ (w, some (fill pending arrivals (started w r)))
  ]
