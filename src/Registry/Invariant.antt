-- ===== src/Registry/Invariant.antt =====
-- The state of the registry of crates/eden_logger/src/sink.rs between its operations.
use eden_logger.Base.{
  ℕ, ◌%◌, ◌≡◌, refl, ◌∙◌, inl, inr, true, Option, none, some, List, [], ◌∷◌, arith, ◌==◌,
  Bool-cases, Option-cases, is_some, u64_mod,
}
use eden_logger.Registry.Slots.{
  Slot, find, or_insert, set_callback, view, callback_of, count_active, IsTyped,
  count_active-set_callback, count_active-or_insert,
}
use eden_logger.Registry.{
  Registry, Registration, holds, active_callback, fill_slot, register_in, register_sink,
  replace_current, disable_current,
}

-- The count of active sinks is the number of slots with a callback, modulo 2^64, and each slot was
-- made for its type.
pub record IsSound (st : Registry) : Type 0 where
  pub counted : st.active_sinks ≡ count_active st.slots % u64_mod
  pub typed : IsTyped st.slots

pub IsTyped-or_insert :
    (key : ℕ) (slots : List Slot) → IsTyped slots → IsTyped (or_insert key slots)
unfolding or_insert IsTyped
IsTyped-or_insert key slots h = elim (Bool-cases (is_some (find key slots))) [
  | inl there ↦ rw there h
  | inr missing ↦ rw missing (refl, h)
]

IsTyped-set_callback :
    (key : ℕ) (c : Option ℕ) (slots : List Slot)
    → IsTyped slots
    → IsTyped (set_callback key c slots)
unfolding set_callback IsTyped
IsTyped-set_callback key c [] h = tt
IsTyped-set_callback key c (s ∷ slots) h = elim (Bool-cases (s.key == key)) [
  | inl here ↦ rw here h
  | inr below ↦ rw below (h.0, IsTyped-set_callback key c slots h.1)
]

-- a slot that is found has its key, and in a typed map its type
pub find-typed :
    (key : ℕ) (slots : List Slot) (s : Slot)
    → IsTyped slots
    → find key slots ≡ some s
    → s.slot_type ≡ key
unfolding find IsTyped
find-typed key [] s h e = ground arith
find-typed key (t ∷ slots) s h e = ground (arith, find-typed key slots s h.1, h.0)

pub view-found :
    (key : ℕ) (slots : List Slot) (s : Slot) → find key slots ≡ some s → view key slots ≡ s.callback
unfolding view callback_of
view-found key slots s e = rw e refl

-- an active callback stands in a slot
pub view-find :
    (key c : ℕ) (slots : List Slot) → view key slots ≡ some c → is_some (find key slots) ≡ true
unfolding view callback_of
view-find key c slots e = ground arith

fill_slot-IsSound :
    (st : Registry) (key : ℕ) (found : Option Slot)
    → find key st.slots ≡ found
    → IsSound st
    → IsSound (fill_slot st key found).0
unfolding fill_slot
fill_slot-IsSound st key none e h = h
fill_slot-IsSound st key (some s) e h = elim (Bool-cases (s.slot_type == key)) [
  | inr other ↦ simp other h
  | inl same ↦ elim (Option-cases s.callback) [
    | inr (c, held) ↦ simp (same, held) h
    | inl free ↦
        let count = count_active-set_callback key (some st.next_arc) st.slots (rw e refl) in
        let was_free = view-found key st.slots s e ∙ free in
        simp (same, free)
          (record {
            counted = ground (arith, count, was_free, h.counted);
            typed = IsTyped-set_callback key (some st.next_arc) st.slots h.typed;
          })
  ]
]

register_in-IsSound : (st : Registry) (key : ℕ) → IsSound st → IsSound (register_in st key).0
unfolding register_in
register_in-IsSound st key h =
    fill_slot-IsSound (record st { slots = or_insert key st.slots }) key _ refl
      (record {
        counted = h.counted ∙ rw count_active-or_insert refl;
        typed = IsTyped-or_insert key st.slots h.typed;
      })

pub register_sink-IsSound :
    (st : Registry) (key : ℕ) → IsSound st → IsSound (register_sink st key).0
unfolding register_sink
register_sink-IsSound st key h = elim (Bool-cases st.poisoned) [
  | inl dead ↦ simp dead h
  | inr live ↦ simp live (register_in-IsSound st key h)
]

pub replace_current-IsSound :
    (st : Registry) (reg : Registration) (c : Option ℕ)
    → IsSound st
    → IsSound (replace_current st reg c).0
unfolding replace_current holds active_callback
replace_current-IsSound st reg none h = h
replace_current-IsSound st reg (some c) h = elim (Bool-cases st.poisoned) [
  | inl dead ↦ simp dead h
  | inr live ↦ elim (Option-cases (view reg.slot st.slots)) [
    | inl gone ↦ simp (live, gone) h
    | inr (a, active) ↦ elim (Bool-cases (a == c)) [
      | inr other ↦ simp (live, active, other) h
      | inl same ↦
          let count =
            count_active-set_callback reg.slot (some st.next_arc) st.slots
              (view-find reg.slot a st.slots active) in
          simp (live, active, same)
            (record {
              counted = ground (arith, count, active, h.counted);
              typed = IsTyped-set_callback reg.slot (some st.next_arc) st.slots h.typed;
            })
    ]
  ]
]

pub disable_current-IsSound :
    (st : Registry) (reg : Registration) (c : Option ℕ)
    → IsSound st
    → IsSound (disable_current st reg c).0
unfolding disable_current holds active_callback
disable_current-IsSound st reg none h = h
disable_current-IsSound st reg (some c) h = elim (Bool-cases st.poisoned) [
  | inl dead ↦ simp dead h
  | inr live ↦ elim (Option-cases (view reg.slot st.slots)) [
    | inl gone ↦ simp (live, gone) h
    | inr (a, active) ↦ elim (Bool-cases (a == c)) [
      | inr other ↦ simp (live, active, other) h
      | inl same ↦
          let count =
            count_active-set_callback reg.slot none st.slots
              (view-find reg.slot a st.slots active) in
          simp (live, active, same)
            (record {
              counted = ground (arith, count, active, h.counted);
              typed = IsTyped-set_callback reg.slot none st.slots h.typed;
            })
    ]
  ]
]
