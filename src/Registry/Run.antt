-- ===== src/Registry/Run.antt =====
-- A thread that works with the registry of crates/eden_logger/src/sink.rs: the calls of the
-- application and of the logger, in any order.
use eden_logger.Base.{
  ℕ, zero, suc, ◌<◌, ◌≡◌, refl, inl, inr, false, Option, none, some, List, [], ◌∷◌, Option-cases,
  u64_mod,
}
use eden_logger.Registry.Slots.{count_active, IsTyped}
use eden_logger.Registry.{
  Registry, empty_registry, Registration, Result, ok, err, register_sink, forget, install_sink,
  replace, disable, drop_registration, dispatch,
}
use eden_logger.Registry.Invariant.{
  IsSound, register_sink-IsSound, replace_current-IsSound, disable_current-IsSound,
}
use eden_logger.Registry.Dispatch.{sinks_of, dispatch-view}

-- The registry, the registrations that the application keeps and the cache of the thread.
pub record World : Type 0 where
  pub registry : Registry
  pub registrations : List Registration
  pub cache : List ℕ

abbrev pub start : World
start = record { registry = empty_registry; registrations = []; cache = [] }

-- A call: the number of a registration counts from the latest one.
pub data Call : Type 0 where
  registers installs replaces disables drops dispatches : ℕ → Call

unfoldable pub keep : List Registration → Result Registration → List Registration
keep regs (ok reg) = reg ∷ regs
keep regs (err e) = regs

unfoldable pub nth : ℕ → List Registration → Option Registration
nth n [] = none
nth zero (r ∷ regs) = some r
nth (suc n) (r ∷ regs) = nth n regs

unfoldable pub put_nth : ℕ → Registration → List Registration → List Registration
put_nth n new [] = []
put_nth zero new (r ∷ regs) = new ∷ regs
put_nth (suc n) new (r ∷ regs) = r ∷ put_nth n new regs

unfoldable pub remove_nth : ℕ → List Registration → List Registration
remove_nth n [] = []
remove_nth zero (r ∷ regs) = regs
remove_nth (suc n) (r ∷ regs) = r ∷ remove_nth n regs

unfoldable pub replaced : World → ℕ → Option Registration → World
replaced w n none = w
replaced w n (some reg) =
    let (st, reg', result) = replace w.registry reg in
    record w { registry = st; registrations = put_nth n reg' w.registrations }

unfoldable pub disabled : World → ℕ → Option Registration → World
disabled w n none = w
disabled w n (some reg) =
    let (st, reg', was_active) = disable w.registry reg in
    record w { registry = st; registrations = put_nth n reg' w.registrations }

unfoldable pub dropped : World → ℕ → Option Registration → World
dropped w n none = w
dropped w n (some reg) = record w {
  registry = drop_registration w.registry reg;
  registrations = remove_nth n w.registrations;
}

unfoldable pub step : World → Call → World
step w (registers key) =
    let (st, result) = register_sink w.registry key in
    record w { registry = st; registrations = keep w.registrations result }
step w (installs key) = record w { registry = (install_sink w.registry key).0 }
step w (replaces n) = replaced w n (nth n w.registrations)
step w (disables n) = disabled w n (nth n w.registrations)
step w (drops n) = dropped w n (nth n w.registrations)
step w (dispatches key) = record w { cache = (dispatch w.registry w.cache key).0 }

unfoldable pub run : World → List Call → World
run w [] = w
run w (c ∷ calls) = run (step w c) calls

forget-registry : (r : Registry × Result Registration) → (forget r).0 ≡ r.0
unfolding forget
forget-registry (st, ok reg) = refl
forget-registry (st, err e) = refl

step-IsSound : (w : World) (c : Call) → IsSound w.registry → IsSound (step w c).registry
unfolding step replaced disabled dropped replace disable drop_registration install_sink
step-IsSound w (registers key) h = register_sink-IsSound w.registry key h
step-IsSound w (installs key) h =
    rw (forget-registry (register_sink w.registry key)) (register_sink-IsSound w.registry key h)
step-IsSound w (replaces n) h = elim (Option-cases (nth n w.registrations)) [
  | inl missing ↦ rw missing h
  | inr (reg, e) ↦ rw e (replace_current-IsSound w.registry reg reg.callback h)
]
step-IsSound w (disables n) h = elim (Option-cases (nth n w.registrations)) [
  | inl missing ↦ rw missing h
  | inr (reg, e) ↦ rw e (disable_current-IsSound w.registry reg reg.callback h)
]
step-IsSound w (drops n) h = elim (Option-cases (nth n w.registrations)) [
  | inl missing ↦ rw missing h
  | inr (reg, e) ↦ rw e (disable_current-IsSound w.registry reg reg.callback h)
]
step-IsSound w (dispatches key) h = h

-- After any calls, in any order, the count of active sinks is the number of types with a callback,
-- modulo 2^64, and each slot was made for its type, so the fast path and the cast of a slot are
-- right.
pub run-IsSound :
    (calls : List Call) (w : World) → IsSound w.registry → IsSound (run w calls).registry
unfolding run
run-IsSound [] w h = h
run-IsSound (c ∷ calls) w h = run-IsSound calls (step w c) (step-IsSound w c h)

pub start-IsSound : IsSound start.registry
unfolding count_active IsTyped
start-IsSound = record { counted = refl; typed = tt }

-- After any calls, in any order, a record of a type reaches exactly the callback that the type's slot
-- holds, and no callback where it holds none, whatever the thread has cached. The lock is not
-- poisoned, and fewer than 2^64 types have a callback.
pub dispatch-run :
    (calls : List Call) (key : ℕ)
    → (run start calls).registry.poisoned ≡ false
    → count_active (run start calls).registry.slots < u64_mod
    → (dispatch (run start calls).registry (run start calls).cache key).1
      ≡ sinks_of (run start calls).registry key
dispatch-run calls key live few =
    dispatch-view (run start calls).registry (run start calls).cache key
      (run-IsSound calls start start-IsSound) live few
