-- ===== src/Context/Tests.antt =====
-- Merging at concrete contexts, with a number as the request fields.
use eden_logger.Base.{ℕ, refl, none, some, [], ◌∷◌, codes, text_eq}
use eden_logger.Context.Additional.{IsMap, IterationOrder, get}
use eden_logger.Context.{RequestFields, LogContext, merge, or_empty}
use eden_logger.Context.Merge.{IsMerged, merge_lem}

-- request fields of which merging keeps the latest
abbrev latest : RequestFields ℕ
latest = record {
  default = 0;
  display_fields = λ r. [];
  json_fields = λ r. [];
  merge_request = λ r s. s;
  request_size = λ r. 8;
}

abbrev base : LogContext ℕ
base = record {
  trace_id = none;
  span_id = none;
  feature = some (codes "auth");
  function = none;
  error_code = none;
  error_category = none;
  request = 1;
  additional = some ((codes "k", codes "v") ∷ []);
}

abbrev request_path : LogContext ℕ
request_path = record {
  trace_id = some (codes "t1");
  span_id = none;
  feature = some (codes "proxy");
  function = none;
  error_code = none;
  error_category = none;
  request = 2;
  additional = some ((codes "k", codes "w") ∷ (codes "path", codes "/") ∷ []);
}

-- maps that are iterated in the order of their first insertions
abbrev insertion_order : IterationOrder
insertion_order = record { arrange = λ m. m; arrange-IsMap = λ m h. h; get-arrange = λ k m h. refl }

merge_lem_example :
    IsMerged ⦃o = insertion_order⦄ latest base request_path
      (merge ⦃o = insertion_order⦄ latest base request_path)
unfolding IsMap get or_empty text_eq
merge_lem_example =
    merge_lem ⦃o = insertion_order⦄ latest base request_path (refl, tt) (refl, (refl, tt))
