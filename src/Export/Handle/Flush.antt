-- ===== src/Export/Handle/Flush.antt =====
-- What the report of `force_flush` says.
use eden_logger.Export.Shared.{
  ExporterStatus, running, backing_off, terminal_failure, shutting_down, stopped, Shared,
}
use eden_logger.Export.Handle.{
  FlushStatus, flushed, timed_out, flush_terminal_failure, flush_stopped, flush_report, dead,
  flush_loop, force_flush,
}
use eden_logger.Base.{
  ℕ, ◌≤◌, ◌<◌, ◌≡◌, refl, ap, ◌≢◌, inl, inr, true, false, none, some, List, [], ◌∷◌, ◌++◌, arith,
  leb, leb→le, Bool-cases, Option-cases, All,
}

-- What a report claims of its two tickets.
abbrev pub Claims : FlushStatus → ℕ → ℕ → Type 0
Claims flushed target completed = target ≤ completed
Claims timed_out target completed = Unit {0}
Claims flush_terminal_failure target completed = completed < target
Claims flush_stopped target completed = completed < target

-- A wake-up after which the flush waits on.
abbrev pub IsPending : ℕ → ℕ × ExporterStatus → Type 0
IsPending target (completed, status) = (completed < target) × (dead status ≡ none)

le→leb : (a b : ℕ) → a ≤ b → leb a b ≡ true
le→leb a b le = ground arith

lt→not_leb : (a b : ℕ) → a < b → leb b a ≡ false
lt→not_leb a b lt = ground arith

not_flushed : (s : ExporterStatus) → dead s ≢ some flushed
unfolding dead
not_flushed running = λ d. ground arith
not_flushed backing_off = λ d. ground arith
not_flushed terminal_failure = λ d. ground arith
not_flushed shutting_down = λ d. ground arith
not_flushed stopped = λ d. ground arith

flush_loop-Claims :
    (target last : ℕ) (wakes : List (ℕ × ExporterStatus))
    → let r = flush_loop target last wakes in
      (r.target_ticket ≡ target) × Claims r.status target r.completed_ticket
unfolding flush_loop flush_report
flush_loop-Claims target last [] = (refl, tt)
flush_loop-Claims target last ((completed, status) ∷ wakes) =
    elim (Bool-cases (leb target completed)) [
      | inl e ↦ rw e (refl, leb→le _ _ e)
      | inr e ↦ elim (Option-cases (dead status)) [
        | inl d ↦ rw (e, d) (flush_loop-Claims target last wakes)
        | inr (why, d) ↦ rw (e, d) (refl, behind status why d (ground arith))
      ]
    ]
  where
    behind :
        (s : ExporterStatus) (why : FlushStatus)
        → dead s ≡ some why
        → completed < target
        → Claims why target completed
    behind s flushed d lt = absurd (not_flushed s d)
    behind s timed_out d lt = tt
    behind s flush_terminal_failure d lt = lt
    behind s flush_stopped d lt = lt

flush_loop-flushed :
    (target last : ℕ) (before after : List (ℕ × ExporterStatus)) (completed : ℕ)
    (status : ExporterStatus)
    → All (IsPending target) before
    → target ≤ completed
    → flush_loop target last (before ++ (completed, status) ∷ after)
      ≡ flush_report flushed target completed
unfolding flush_loop
flush_loop-flushed target last [] after completed status h le = rw (le→leb target completed le) refl
flush_loop-flushed target last ((c, s) ∷ before) after completed status h le =
    rw (lt→not_leb c target h.0.0, h.0.1)
      (flush_loop-flushed target last before after completed status h.1 le)

-- A flush is for the tickets given out before the call. Its report says flushed only if the
-- completed ticket has reached that target, and a terminal failure or a stop only if it has not;
-- and a wake-up that sees the target reached, before any that sees a failure or a stop, makes the
-- report say flushed.
pub force_flush_lem :
    (s : Shared) (last : ℕ) (before after : List (ℕ × ExporterStatus)) (completed : ℕ)
    (status : ExporterStatus)
    → let r = force_flush s last (before ++ (completed, status) ∷ after) in
      (r.target_ticket ≡ s.next_ticket)
      × Claims r.status s.next_ticket r.completed_ticket
      × (All (IsPending s.next_ticket) before → s.next_ticket ≤ completed → r.status ≡ flushed)
unfolding force_flush flush_report
force_flush_lem s last before after completed status =
    let (target, claims) =
      flush_loop-Claims s.next_ticket last (before ++ (completed, status) ∷ after) in
    (
      target,
      claims,
      λ h le.
          ap (λ r. r.status)
            (flush_loop-flushed s.next_ticket last before after completed status h le),
    )
