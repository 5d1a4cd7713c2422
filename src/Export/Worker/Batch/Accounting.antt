-- ===== src/Export/Worker/Batch/Accounting.antt =====
-- The counters of exported and rejected records against the records of the batch.
use eden_logger.Export.Shared.{Shared, emergency, set_status, set_last_error, stop_acceptance}
use eden_logger.Export.Worker.Split.{split_records, flatten, flatten-split_records}
use eden_logger.Export.Worker.Batch.{
  ExportError, Response, succeeded, failed, Event, MappedLog, RetryConfig, Worker, Progress,
  working, complete_result, terminal_result, complete_ticket, count_attempt, count_exported,
  count_partial, warn_emergency, reject_record, retry_later, reject_message, partial_message,
  fail_terminally, complete_all_tickets, pop_batch, export_batch, isolate, on_error, on_response,
  attempt, attempts,
}
use eden_logger.Export.Worker.Batch.Order.{outstanding}
use eden_logger.Base.{
  ℕ, ◌+◌, ◌%◌, min, ◌≡◌, refl, ap, ◌∙◌, inl, inr, List, [], ◌∷◌, append-nil, arith, ◌==◌,
  Bool-cases, length, length-append, u64_mod, Text,
}

-- The collector accounts for every record of a request that it does not refuse.
abbrev pub Accounts : Response → ℕ → Type 0
Accounts (succeeded accepted rejected message) n = accepted + rejected ≡ n
Accounts (failed error) n = Unit {0}

abbrev current {ℓ} : {A : Type ℓ} → Progress A → ℕ
current (working records failures pending) = length records
current complete_result = 0
current (terminal_result retained) = 0

-- It does so on every attempt that the worker makes.
abbrev pub AccountsFor {ℓ} : {A : Type ℓ} → RetryConfig → List Event → Worker × Progress A → Type 0
AccountsFor config [] (w, complete_result) = Unit {0}
AccountsFor config [] (w, terminal_result retained) = Unit {0}
AccountsFor config [] (w, working records failures pending) = Unit {0}
AccountsFor config (e ∷ es) (w, complete_result) = Unit {0}
AccountsFor config (e ∷ es) (w, terminal_result retained) = Unit {0}
AccountsFor config (e ∷ es) (w, working records failures pending) =
    Accounts e.response (length records)
    × AccountsFor config es (attempt config e (w, working records failures pending))

-- Exported, rejected and outstanding records, as the wrapping counters show them.
abbrev pub accounted {ℓ} : {A : Type ℓ} → Worker × Progress A → ℕ
accounted s =
    (s.0.shared.metrics.exported + s.0.shared.metrics.rejected + length (outstanding s.1)) % u64_mod

metrics-emergency :
    (now : ℕ) (message : Text) (s : Shared) → (emergency now message s).metrics ≡ s.metrics
unfolding emergency
metrics-emergency now message s = ground arith

metrics-complete_ticket :
    (k : ℕ) (w : Worker) → (complete_ticket k w).shared.metrics ≡ w.shared.metrics
unfolding complete_ticket
metrics-complete_ticket k w = ground arith

abbrev SameCounts : Worker → Worker → Type 0
SameCounts v w =
    (v.shared.metrics.exported ≡ w.shared.metrics.exported)
    × (v.shared.metrics.rejected ≡ w.shared.metrics.rejected)

retry_later-SameCounts :
    (config : RetryConfig) (event : Event) (error : ExportError) (failures : ℕ) (w : Worker)
    → SameCounts (retry_later config event error failures w) w
unfolding retry_later set_status set_last_error stop_acceptance
retry_later-SameCounts config event error failures w = ground arith

fail_terminally-SameCounts :
    (now : ℕ) (error : ExportError) (w : Worker) → SameCounts (fail_terminally now error w) w
unfolding fail_terminally set_status set_last_error emergency
fail_terminally-SameCounts now error w = ground arith

module _ {ℓ} {A : Type ℓ} where
  metrics-complete_all_tickets :
      (rs : List (MappedLog A)) (w : Worker)
      → (complete_all_tickets rs w).shared.metrics ≡ w.shared.metrics
  unfolding complete_all_tickets
  metrics-complete_all_tickets [] w = refl
  metrics-complete_all_tickets (r ∷ rs) w =
      metrics-complete_all_tickets rs (complete_ticket r.ticket w)
      ∙ metrics-complete_ticket r.ticket w

  length-outstanding :
      (pending : List (List (MappedLog A)))
      → length (outstanding (pop_batch pending)) ≡ length (flatten pending)
  unfolding pop_batch flatten
  length-outstanding [] = refl
  length-outstanding (b ∷ bs) = refl

  isolate-accounted :
      (now : ℕ) (error : ExportError) (records : List (MappedLog A)) (failures : ℕ)
      (pending : List (List (MappedLog A))) (w : Worker)
      → accounted (isolate now error records pending w)
        ≡ accounted (w, working records failures pending)
  unfolding isolate reject_record warn_emergency
  isolate-accounted now error [] failures pending w = omega (
    arith,
    length-outstanding (split_records [] pending),
    ap length (flatten-split_records [] pending),
  )
  isolate-accounted now error (r ∷ []) failures pending w =
      let m =
        metrics-complete_ticket r.ticket (reject_record now error.text w)
        ∙ metrics-emergency now (reject_message error.text) _ in
      omega (arith, ap (λ x. x.exported) m, ap (λ x. x.rejected) m, length-outstanding pending)
  isolate-accounted now error (r ∷ s ∷ rs) failures pending w = omega (
    arith,
    length-outstanding (split_records (r ∷ s ∷ rs) pending),
    ap length (flatten-split_records (r ∷ s ∷ rs) pending),
  )

  on_error-accounted :
      (config : RetryConfig) (event : Event) (error : ExportError) (records : List (MappedLog A))
      (failures : ℕ) (pending : List (List (MappedLog A))) (w : Worker)
      → accounted (on_error config event error records failures pending w)
        ≡ accounted (w, working records failures pending)
  unfolding on_error
  on_error-accounted config event error records failures pending w =
      elim (Bool-cases error.invalid_payload) [
        | inl invalid ↦ simp invalid (isolate-accounted event.now error records failures pending w)
        | inr valid ↦ elim (Bool-cases error.retryable) [
          | inl again ↦
              simp (valid, again)
                (omega (
                  arith,
                  (retry_later-SameCounts config event error (min (failures + 1) 0xFFFF_FFFF) w).0,
                  (retry_later-SameCounts config event error (min (failures + 1) 0xFFFF_FFFF) w).1,
                ))
          | inr fatal ↦
              simp (valid, fatal)
                (unfold flatten in
                  omega (
                    arith,
                    (fail_terminally-SameCounts event.now error w).0,
                    (fail_terminally-SameCounts event.now error w).1,
                  ))
        ]
      ]

  on_response-accounted :
      (config : RetryConfig) (event : Event) (response : Response) (records : List (MappedLog A))
      (failures : ℕ) (pending : List (List (MappedLog A))) (w : Worker)
      → Accounts response (length records)
      → accounted (on_response config event response records failures pending w)
        ≡ accounted (w, working records failures pending)
  unfolding on_response count_exported count_partial warn_emergency
  on_response-accounted config event (failed error) records failures pending w h =
      on_error-accounted config event error records failures pending w
  on_response-accounted config event (succeeded accepted rejected message) records failures pending
        w h =
      elim (Bool-cases (rejected == 0)) [
        | inl full ↦ rw full (
            let m = metrics-complete_all_tickets records (count_exported (length records) w) in
            omega (
              arith,
              ap (λ x. x.exported) m,
              ap (λ x. x.rejected) m,
              length-outstanding pending,
              length-append records (flatten pending),
            ))
        | inr partial ↦ rw partial (
            let m =
              metrics-emergency event.now (partial_message message)
                (complete_all_tickets records (count_partial accepted rejected w)).shared
              ∙ metrics-complete_all_tickets records (count_partial accepted rejected w) in
            omega (
              arith,
              h,
              ap (λ x. x.exported) m,
              ap (λ x. x.rejected) m,
              length-outstanding pending,
              length-append records (flatten pending),
            ))
      ]

  -- A finished batch makes no attempt.
  attempts_complete :
      (config : RetryConfig) (events : List Event) (w : Worker)
      → ◌≡◌ {A = Worker × Progress A}
          (attempts config events (w, complete_result))
          (w, complete_result)
  unfolding attempts attempt
  attempts_complete config [] w = refl
  attempts_complete config (e ∷ es) w = attempts_complete config es w

  attempts_terminal :
      (config : RetryConfig) (events : List Event) (w : Worker)
      (retained : List (List (MappedLog A)))
      → attempts config events (w, terminal_result retained) ≡ (w, terminal_result retained)
  unfolding attempts attempt
  attempts_terminal config [] w retained = refl
  attempts_terminal config (e ∷ es) w retained = attempts_terminal config es w retained

  attempts-accounted :
      (config : RetryConfig) (events : List Event) (s : Worker × Progress A)
      → AccountsFor config events s
      → accounted (attempts config events s) ≡ accounted s
  unfolding attempts attempt count_attempt
  attempts-accounted config [] s h = refl
  attempts-accounted config (e ∷ es) (w, complete_result) h =
      ap accounted (attempts_complete config es w)
  attempts-accounted config (e ∷ es) (w, terminal_result retained) h =
      ap accounted (attempts_terminal config es w retained)
  attempts-accounted config (e ∷ es) (w, working records failures pending) h =
      attempts-accounted config es _ h.1
      ∙ on_response-accounted config e e.response records failures pending (count_attempt w) h.0

  -- If the collector accounts for every record of each request that it does not refuse, then after
  -- any attempts the records of the batch are those counted as exported, those counted as rejected
  -- and those outstanding: the two counters grow by the batch less what is outstanding, modulo 2^64.
  pub records_accounted :
      (config : RetryConfig) (events : List Event) (batch : List (MappedLog A)) (w : Worker)
      → AccountsFor config events (w, export_batch batch)
      → accounted (attempts config events (w, export_batch batch))
        ≡ (w.shared.metrics.exported + w.shared.metrics.rejected + length batch) % u64_mod
  records_accounted config events batch w h =
      attempts-accounted config events (w, export_batch batch) h
      ∙ (unfold export_batch pop_batch flatten in
          ap (λ l. (w.shared.metrics.exported + w.shared.metrics.rejected + length l) % u64_mod)
            (append-nil batch))
