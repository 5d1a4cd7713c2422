-- ===== src/Registry/Tests.antt =====
-- The registry at concrete calls, among them those of a test of crates/eden_logger/src/sink.rs.
use eden_logger.Base.{ℕ, ◌≡◌, refl, some, List, [], ◌∷◌, arith}
use eden_logger.Registry.Slots.{find, or_insert, set_callback, view, callback_of, count_active}
use eden_logger.Registry.{
  empty_registry, Registration, holds, active_callback, fill_slot, register_in, register_sink,
  forget, install_sink, replace_current, replace, disable_current, disable, drop_registration,
  downcast, cached_sink, callback_at, dispatch,
}
use eden_logger.Registry.Invariant.{IsSound}
use eden_logger.Registry.Dispatch.{
  sinks_of, spec_register, spec_replace, spec_disable, registry-refines,
}
use eden_logger.Registry.Run.{
  start, Call, registers, installs, replaces, disables, drops, dispatches, keep, nth, put_nth,
  remove_nth, replaced, disabled, dropped, step, run, start-IsSound, run-IsSound, dispatch-run,
}

-- a sink is registered, used, replaced, disabled and registered again; another stays installed
abbrev calls : List Call
calls =
    registers 7
    ∷ dispatches 7
    ∷ replaces 0
    ∷ dispatches 7
    ∷ disables 0
    ∷ installs 9
    ∷ registers 7
    ∷ registers 7
    ∷ drops 1
    ∷ []

last_callbacks :
    (sinks_of (run start calls).registry 7 ≡ some 3)
    × (sinks_of (run start calls).registry 9 ≡ some 2)
unfolding run step replaced disabled dropped keep nth put_nth remove_nth register_sink register_in
    fill_slot install_sink forget replace replace_current disable disable_current drop_registration
    holds active_callback dispatch cached_sink downcast callback_at find or_insert set_callback view
    callback_of
last_callbacks = (refl, refl)

run-IsSound_example : IsSound (run start calls).registry
run-IsSound_example = run-IsSound calls start start-IsSound

dispatch-run_example :
    (dispatch (run start calls).registry (run start calls).cache 7).1
    ≡ sinks_of (run start calls).registry 7
unfolding run step replaced disabled dropped keep nth put_nth remove_nth register_sink register_in
    fill_slot install_sink forget replace replace_current disable disable_current drop_registration
    holds active_callback dispatch cached_sink downcast callback_at find or_insert set_callback view
    callback_of count_active
dispatch-run_example = dispatch-run calls 7 refl (omega arith)

abbrev reg : Registration
reg = record { slot = 7; callback = some 3 }

registry-refines_example :
    (((k : ℕ)
        → sinks_of (register_sink empty_registry 7).0 k
          ≡ (spec_register (sinks_of empty_registry) 7 0).0 k)
      × ((register_sink empty_registry 7).1 ≡ (spec_register (sinks_of empty_registry) 7 0).1))
    × (((k : ℕ)
          → sinks_of (replace empty_registry reg).0 k
            ≡ (spec_replace (sinks_of empty_registry) reg (some 3) 0).0 k)
        × ((replace empty_registry reg).1
            ≡ (spec_replace (sinks_of empty_registry) reg (some 3) 0).1)
        × ((replace empty_registry reg).2
            ≡ (spec_replace (sinks_of empty_registry) reg (some 3) 0).2))
    × (((k : ℕ)
          → sinks_of (disable empty_registry reg).0 k
            ≡ (spec_disable (sinks_of empty_registry) reg (some 3)).0 k)
        × ((disable empty_registry reg).2
            ≡ (spec_disable (sinks_of empty_registry) reg (some 3)).1))
registry-refines_example = registry-refines empty_registry 7 reg start-IsSound refl
