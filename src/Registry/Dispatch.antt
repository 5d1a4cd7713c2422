-- ===== src/Registry/Dispatch.antt =====
-- What the registry of crates/eden_logger/src/sink.rs promises: a map from types to callbacks.
use mathlib.Core.Path.{fun_ext}
use eden_logger.Base.{
  ℕ, ◌<◌, ◌≡◌, refl, sym, subst, inl, inr, Bool, true, false, Option, none, some, List, [], ◌∷◌,
  arith, ◌==◌, if◌then◌else◌, Bool-cases, Option-cases, is_some, u64_mod,
}
use eden_logger.Registry.Slots.{
  Slot, find, or_insert, view, callback_of, count_active, view-set_callback, view-or_insert,
  find-or_insert,
}
use eden_logger.Registry.{
  Registry, Registration, inactive, stale, already_installed, Result, ok, err, holds,
  active_callback, fill_slot, register_in, register_sink, replace_current, replace, disable_current,
  disable, downcast, cached_sink, callback_at, dispatch, cached,
}
use eden_logger.Registry.Invariant.{IsSound, find-typed, IsTyped-or_insert, view-found, view-find}

-- the callback of each type
abbrev pub Sinks : Type 0
Sinks = ℕ → Option ℕ

abbrev pub put : ℕ → Option ℕ → Sinks → Sinks
put key c sinks k = if key == k then c else sinks k

-- at most one callback per type
unfoldable pub spec_register : Sinks → ℕ → ℕ → Sinks × Result Registration
spec_register sinks key c =
    if is_some (sinks key)
    then (sinks, err already_installed)
    else (put key (some c) sinks, ok (record { slot = key; callback = some c }))

-- only the registration whose callback is the active one replaces it
unfoldable pub spec_replace :
    Sinks → Registration → Option ℕ → ℕ → Sinks × Registration × Result (Unit {0})
spec_replace sinks reg none c = (sinks, reg, err inactive)
spec_replace sinks reg (some current) c =
    if holds (sinks reg.slot) current
    then (put reg.slot (some c) sinks, record reg { callback = some c }, ok tt)
    else (sinks, reg, err stale)

-- or ends it
unfoldable pub spec_disable : Sinks → Registration → Option ℕ → Sinks × Bool
spec_disable sinks reg none = (sinks, false)
spec_disable sinks reg (some current) =
    if holds (sinks reg.slot) current then (put reg.slot none sinks, true) else (sinks, false)

abbrev pub sinks_of : Registry → Sinks
sinks_of st k = view k st.slots

fill_slot-spec :
    (st : Registry) (key : ℕ) (s : Slot)
    → find key st.slots ≡ some s
    → s.slot_type ≡ key
    → ((k : ℕ)
        → sinks_of (fill_slot st key (some s)).0 k
          ≡ (spec_register (sinks_of st) key st.next_arc).0 k)
      × ((fill_slot st key (some s)).1 ≡ (spec_register (sinks_of st) key st.next_arc).1)
unfolding fill_slot spec_register
fill_slot-spec st key s e typed =
    let same : (s.slot_type == key) ≡ true = ground arith in
    let at = view-found key st.slots s e in
    elim (Option-cases s.callback) [
      | inr (c, held) ↦ simp (same, at, held) ((λ k. refl), refl)
      | inl free ↦
          simp (same, at, free) ((λ k. view-set_callback key k _ st.slots (rw e refl)), refl)
    ]

found_in :
    (key : ℕ) (slots : List Slot)
    → is_some (find key slots) ≡ true
    → (s : Slot) × (find key slots ≡ some s)
found_in key slots h = elim (Option-cases (find key slots)) [
  | inl missing ↦ absurd (ground arith)
  | inr found ↦ found
]

register_in-spec :
    (st : Registry) (key : ℕ)
    → IsSound st
    → ((k : ℕ)
        → sinks_of (register_in st key).0 k ≡ (spec_register (sinks_of st) key st.next_arc).0 k)
      × ((register_in st key).1 ≡ (spec_register (sinks_of st) key st.next_arc).1)
unfolding register_in
register_in-spec st key h =
    let (s, e) = found_in key (or_insert key st.slots) (find-or_insert key st.slots) in
    let typed =
      find-typed key (or_insert key st.slots) s (IsTyped-or_insert key st.slots h.typed) e in
    let filled = fill_slot-spec (record st { slots = or_insert key st.slots }) key s e typed in
    let unchanged : sinks_of (record st { slots = or_insert key st.slots }) ≡ sinks_of st =
      fun_ext (λ k. view-or_insert key k st.slots) in
    rw e (
      subst
        (λ (f : Sinks).
          ((k : ℕ)
            → sinks_of (fill_slot (record st { slots = or_insert key st.slots }) key (some s)).0 k
              ≡ (spec_register f key st.next_arc).0 k)
          × ((fill_slot (record st { slots = or_insert key st.slots }) key (some s)).1
              ≡ (spec_register f key st.next_arc).1))
        unchanged filled)

replace_current-spec :
    (st : Registry) (reg : Registration) (mine : Option ℕ)
    → st.poisoned ≡ false
    → ((k : ℕ)
        → sinks_of (replace_current st reg mine).0 k
          ≡ (spec_replace (sinks_of st) reg mine st.next_arc).0 k)
      × ((replace_current st reg mine).1 ≡ (spec_replace (sinks_of st) reg mine st.next_arc).1)
      × ((replace_current st reg mine).2 ≡ (spec_replace (sinks_of st) reg mine st.next_arc).2)
unfolding replace_current spec_replace active_callback holds
replace_current-spec st reg none live = ((λ k. refl), refl, refl)
replace_current-spec st reg (some c) live = elim (Option-cases (view reg.slot st.slots)) [
  | inl gone ↦ simp (live, gone) ((λ k. refl), refl, refl)
  | inr (a, active) ↦ elim (Bool-cases (a == c)) [
    | inr other ↦ simp (live, active, other) ((λ k. refl), refl, refl)
    | inl same ↦
        simp (live, active, same)
          (
            (λ k. view-set_callback reg.slot k _ st.slots (view-find reg.slot a st.slots active)),
            refl,
            refl,
          )
  ]
]

disable_current-spec :
    (st : Registry) (reg : Registration) (mine : Option ℕ)
    → st.poisoned ≡ false
    → ((k : ℕ)
        → sinks_of (disable_current st reg mine).0 k ≡ (spec_disable (sinks_of st) reg mine).0 k)
      × ((disable_current st reg mine).2 ≡ (spec_disable (sinks_of st) reg mine).1)
unfolding disable_current spec_disable active_callback holds
disable_current-spec st reg none live = ((λ k. refl), refl)
disable_current-spec st reg (some c) live = elim (Option-cases (view reg.slot st.slots)) [
  | inl gone ↦ simp (live, gone) ((λ k. refl), refl)
  | inr (a, active) ↦ elim (Bool-cases (a == c)) [
    | inr other ↦ simp (live, active, other) ((λ k. refl), refl)
    | inl same ↦
        simp (live, active, same)
          (
            (λ k.
                view-set_callback reg.slot k none st.slots (view-find reg.slot a st.slots active)),
            refl,
          )
  ]
]

-- The registry is a map from types to callbacks: registering a callback succeeds if and only if its
-- type has none, and then the type has it; a registration replaces or disables the callback of its
-- type if and only if that is the callback it holds, so a stale registration changes nothing; and no
-- operation changes the callback of another type. The lock is not poisoned.
pub registry-refines :
    (st : Registry) (key : ℕ) (reg : Registration)
    → IsSound st
    → st.poisoned ≡ false
    → (((k : ℕ)
          → sinks_of (register_sink st key).0 k ≡ (spec_register (sinks_of st) key st.next_arc).0 k)
        × ((register_sink st key).1 ≡ (spec_register (sinks_of st) key st.next_arc).1))
      × (((k : ℕ)
            → sinks_of (replace st reg).0 k
              ≡ (spec_replace (sinks_of st) reg reg.callback st.next_arc).0 k)
          × ((replace st reg).1 ≡ (spec_replace (sinks_of st) reg reg.callback st.next_arc).1)
          × ((replace st reg).2 ≡ (spec_replace (sinks_of st) reg reg.callback st.next_arc).2))
      × (((k : ℕ)
            → sinks_of (disable st reg).0 k ≡ (spec_disable (sinks_of st) reg reg.callback).0 k)
          × ((disable st reg).2 ≡ (spec_disable (sinks_of st) reg reg.callback).1))
unfolding register_sink replace disable
registry-refines st key reg h live = (
  simp live (register_in-spec st key h),
  replace_current-spec st reg reg.callback live,
  disable_current-spec st reg reg.callback live,
)

no_callback : (key : ℕ) (slots : List Slot) → count_active slots ≡ 0 → view key slots ≡ none
unfolding view callback_of count_active find
no_callback key [] h = refl
no_callback key (s ∷ slots) h = ground (arith, no_callback key slots)

cached_sink-view :
    (st : Registry) (cache : List ℕ) (key : ℕ)
    → IsSound st
    → st.poisoned ≡ false
    → callback_at st (cached_sink st cache key).1 ≡ view key st.slots
unfolding cached_sink downcast callback_at
cached_sink-view st cache key h live = elim (Bool-cases (cached key cache)) [
  | inl hit ↦ simp hit refl
  | inr missed ↦ elim (Option-cases (find key st.slots)) [
    | inl missing ↦ simp (live, missed, missing) (unfold view callback_of in rw missing refl)
    | inr (s, found) ↦
        let typed : (s.slot_type == key) ≡ true =
          ground (arith, find-typed key st.slots s h.typed found) in
        simp (live, missed, found, typed) refl
  ]
]

pub dispatch-view :
    (st : Registry) (cache : List ℕ) (key : ℕ)
    → IsSound st
    → st.poisoned ≡ false
    → count_active st.slots < u64_mod
    → (dispatch st cache key).1 ≡ sinks_of st key
unfolding dispatch
dispatch-view st cache key h live few = elim (Bool-cases (st.active_sinks == 0)) [
  | inl idle ↦ rw idle (sym (no_callback key st.slots (ground (arith, h.counted))))
  | inr busy ↦ rw busy (cached_sink-view st cache key h live)
]
