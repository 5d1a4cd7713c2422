-- ===== src/Registry/Slots.antt =====
-- The slots of crates/eden_logger/src/sink.rs: the map from a type's number to its slot.
use eden_logger.Base.{
  ℕ, ◌+◌, ◌≡◌, Bool, true, false, Option, none, some, List, [], ◌∷◌, arith, ◌==◌, if◌then◌else◌,
  is_some,
}

-- `SinkSlot<R>` under its key; `slot_type` is the number of the type `R` that it was made for.
pub record Slot : Type 0 where
  pub key : ℕ
  pub slot_type : ℕ
  pub callback : Option ℕ

unfoldable pub find : ℕ → List Slot → Option Slot
find key [] = none
find key (s ∷ slots) = if s.key == key then some s else find key slots

-- `entry(key).or_insert_with(…)`
unfoldable pub or_insert : ℕ → List Slot → List Slot
or_insert key slots =
    if is_some (find key slots)
    then slots
    else record { key = key; slot_type = key; callback = none } ∷ slots

-- `slot.callback.store(…)`
unfoldable pub set_callback : ℕ → Option ℕ → List Slot → List Slot
set_callback key c [] = []
set_callback key c (s ∷ slots) =
    let rest = set_callback key c slots in
    if s.key == key then record s { callback = c } ∷ slots else s ∷ rest

unfoldable pub callback_of : Option Slot → Option ℕ
callback_of none = none
callback_of (some s) = s.callback

-- the callback in the slot of a key
unfoldable pub view : ℕ → List Slot → Option ℕ
view key slots = callback_of (find key slots)

abbrev pub one_if : Bool → ℕ
one_if true = 1
one_if false = 0

-- the slots with a callback
unfoldable pub count_active : List Slot → ℕ
count_active [] = 0
count_active (s ∷ slots) = one_if (is_some s.callback) + count_active slots

pub view-set_callback :
    (key k : ℕ) (c : Option ℕ) (slots : List Slot)
    → is_some (find key slots) ≡ true
    → view k (set_callback key c slots) ≡ (if key == k then c else view k slots)
unfolding view set_callback find callback_of
view-set_callback key k c [] h = ground arith
view-set_callback key k c (s ∷ slots) h = ground (arith, view-set_callback key k c slots)

pub count_active-set_callback :
    (key : ℕ) (c : Option ℕ) (slots : List Slot)
    → is_some (find key slots) ≡ true
    → count_active (set_callback key c slots) + one_if (is_some (view key slots))
      ≡ count_active slots + one_if (is_some c)
unfolding count_active set_callback find view callback_of
count_active-set_callback key c [] h = ground arith
count_active-set_callback key c (s ∷ slots) h =
    ground (arith, count_active-set_callback key c slots)

pub view-or_insert : (key k : ℕ) (slots : List Slot) → view k (or_insert key slots) ≡ view k slots
unfolding view or_insert find callback_of
view-or_insert key k slots = ground arith

pub count_active-or_insert :
    (key : ℕ) (slots : List Slot) → count_active (or_insert key slots) ≡ count_active slots
unfolding or_insert count_active
count_active-or_insert key slots = ground arith

pub find-or_insert : (key : ℕ) (slots : List Slot) → is_some (find key (or_insert key slots)) ≡ true
unfolding or_insert find
find-or_insert key slots = ground arith

-- a type's slot was made for the type
unfoldable pub IsTyped : List Slot → Type 0
IsTyped [] = Unit
IsTyped (s ∷ slots) = (s.slot_type ≡ s.key) × IsTyped slots
