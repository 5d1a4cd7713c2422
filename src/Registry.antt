-- ===== src/Registry.antt =====
-- The typed sinks of crates/eden_logger/src/sink.rs. A concrete `RequestFields` type is its number,
-- the key of its slot; an `Arc` of a callback is the number of its allocation. The registry is a
-- list of slots, which are never removed, so the key of a slot stands for a pointer to it.
pub mod Slots
pub mod Invariant
pub mod Dispatch
pub mod Run
mod Tests
use eden_logger.Base.{
  ℕ, zero, suc, ◌+◌, ◌-◌, ◌*◌, ◌/◌, ◌%◌, ◌^◌, ◌≤◌, ◌<◌, min, max, bit_and, bit_or, ◌≡◌, refl, sym,
  ap, ◌∙◌, subst, ◌≢◌, ◌↔◌, ◌⊎◌, inl, inr, Bool, true, false, ◌&&◌, ◌||◌, not, Option, none, some,
  List, [], ◌∷◌, ◌++◌, map, append-nil, append_assoc, arith, ltb, leb, ◌==◌, if◌then◌else◌, ltb→lt,
  lt→ltb, leb→le, ==_iff, Bool-cases, Option-cases, ◌>>=◌, or_else, is_some, is_nil, checked,
  checked-at, length, take, drop, length-append, take-append-drop, length-take, length-drop, any,
  all, All, All-append, u64_mod, u64_max, u128_max, sat_add, sat_mul, wrap_add, wrap_sub, Text,
  codes, text_eq, text_eq_iff,
}
use eden_logger.Registry.Slots.{Slot, find, or_insert, set_callback, view}

-- The statics. `poisoned` says whether a thread panicked while it held the lock.
pub record Registry : Type 0 where
  pub slots : List Slot
  pub active_sinks : ℕ
  pub next_arc : ℕ
  pub poisoned : Bool

abbrev pub empty_registry : Registry
empty_registry = record { slots = []; active_sinks = 0; next_arc = 0; poisoned = false }

-- `SinkRegistration`: the slot, and the callback while the registration is active
pub record Registration : Type 0 where
  pub slot : ℕ
  pub callback : Option ℕ

pub data SinkError : Type 0 where
  is_poisoned type_mismatch already_installed inactive stale : SinkError

pub data Result (A : Type 0) : Type 0 where
  ok : A → Result A
  err : SinkError → Result A

-- whether a slot holds the callback, as `Arc::ptr_eq` compares them
unfoldable pub holds : Option ℕ → ℕ → Bool
holds none current = false
holds (some active) current = active == current

-- the callback that the slot of a registration holds
unfoldable pub active_callback : Registry → Registration → Option ℕ
active_callback st reg = view reg.slot st.slots

unfoldable pub fill_slot : Registry → ℕ → Option Slot → Registry × Result Registration
fill_slot st key none = (st, err type_mismatch)
fill_slot st key (some slot) =
    if not (slot.slot_type == key)
    then (st, err type_mismatch)
    else if is_some slot.callback
    then (st, err already_installed)
    else (
      record st {
        slots = set_callback key (some st.next_arc) st.slots;
        active_sinks = wrap_add st.active_sinks 1;
        next_arc = st.next_arc + 1;
      },
      ok (record { slot = key; callback = some st.next_arc }),
    )

unfoldable pub register_in : Registry → ℕ → Registry × Result Registration
register_in st key =
    let st' = record st { slots = or_insert key st.slots } in fill_slot st' key (find key st'.slots)

-- `register_sink`; a callback whose `Arc` is dropped again leaves its number free
unfoldable pub register_sink : Registry → ℕ → Registry × Result Registration
register_sink st key = if st.poisoned then (st, err is_poisoned) else register_in st key

unfoldable pub forget : Registry × Result Registration → Registry × Result (Unit {0})
forget (st, ok reg) = (st, ok tt)
forget (st, err e) = (st, err e)

unfoldable pub install_sink : Registry → ℕ → Registry × Result (Unit {0})
install_sink st key = forget (register_sink st key)

unfoldable pub replace_current :
    Registry → Registration → Option ℕ → Registry × Registration × Result (Unit {0})
replace_current st reg none = (st, reg, err inactive)
replace_current st reg (some current) =
    if st.poisoned
    then (st, reg, err is_poisoned)
    else if not (holds (active_callback st reg) current)
    then (st, reg, err stale)
    else (
      record st {
        slots = set_callback reg.slot (some st.next_arc) st.slots;
        next_arc = st.next_arc + 1;
      },
      record reg { callback = some st.next_arc },
      ok tt,
    )

-- `SinkRegistration::replace`
unfoldable pub replace : Registry → Registration → Registry × Registration × Result (Unit {0})
replace st reg = replace_current st reg reg.callback

unfoldable pub disable_current : Registry → Registration → Option ℕ → Registry × Registration × Bool
disable_current st reg none = (st, reg, false)
disable_current st reg (some current) =
    if st.poisoned
    then (st, reg, false)
    else if not (holds (active_callback st reg) current)
    then (st, record reg { callback = none }, false)
    else (
      record st {
        slots = set_callback reg.slot none st.slots;
        active_sinks = wrap_sub st.active_sinks 1;
      },
      record reg { callback = none },
      true,
    )

-- `SinkRegistration::disable`
unfoldable pub disable : Registry → Registration → Registry × Registration × Bool
disable st reg = disable_current st reg reg.callback

-- `drop` of a registration
unfoldable pub drop_registration : Registry → Registration → Registry
drop_registration st reg = (disable st reg).0

abbrev pub cached : ℕ → List ℕ → Bool
cached key cache = any (λ k. k == key) cache

unfoldable pub downcast : ℕ → List ℕ → Option Slot → List ℕ × Option ℕ
downcast key cache none = (cache, none)
downcast key cache (some slot) =
    if slot.slot_type == key then (cache ++ key ∷ [], some key) else (cache, none)

-- `cached_sink`: the cache of the thread afterwards, and the slot
unfoldable pub cached_sink : Registry → List ℕ → ℕ → List ℕ × Option ℕ
cached_sink st cache key =
    if cached key cache
    then (cache, some key)
    else if st.poisoned
    then (cache, none)
    else downcast key cache (find key st.slots)

unfoldable pub callback_at : Registry → Option ℕ → Option ℕ
callback_at st none = none
callback_at st (some slot) = view slot st.slots

-- `dispatch`: the cache afterwards, and the callback that is called with the record
unfoldable pub dispatch : Registry → List ℕ → ℕ → List ℕ × Option ℕ
dispatch st cache key =
    if st.active_sinks == 0
    then (cache, none)
    else let (cache', slot) = cached_sink st cache key in (cache', callback_at st slot)
