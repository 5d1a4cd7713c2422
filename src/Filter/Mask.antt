-- ===== src/Filter/Mask.antt =====
-- The eight-bit masks of the filter as sets of levels, by evaluation over all masks.
use eden_logger.Level.{LogLevel, level_index, level_eq, level_index_lt}
use eden_logger.Base.{checked, checked-at}
use eden_logger.Base.{
  ℕ, ◌-◌, ◌^◌, ◌<◌, bit_and, bit_or, ◌≡◌, refl, ap, ◌≢◌, ◌↔◌, ◌⊎◌, Bool, true, false, ◌&&◌, ◌||◌,
  not, arith, ltb, leb, ◌==◌, ltb→lt,
}

-- Every mask with every two bits.
table : (ℕ → ℕ → ℕ → Bool) → Bool
unfolding checked
table p = checked (λ m. checked (λ i. checked (p m i) 5) 5) 256

table_sound :
    (p : ℕ → ℕ → ℕ → Bool) (m i j : ℕ) → table p ≡ true → m < 256 → i < 5 → j < 5 → p m i j ≡ true
unfolding table
table_sound p m i j h hm hi hj =
    let row = checked-at (λ n. checked (λ k. checked (p n k) 5) 5) m hm h in
    checked-at (p m i) j hj (checked-at (λ k. checked (p m k) 5) i hi row)

bool_eq : Bool → Bool → Bool
bool_eq true b = b
bool_eq false b = not b

bool_eq→eq : (a b : Bool) → bool_eq a b ≡ true → a ≡ b
unfolding bool_eq
bool_eq→eq true b h = ground arith
bool_eq→eq false b h = ground arith

abbrev has_bit : ℕ → ℕ → Bool
has_bit m i = not (bit_and m (2 ^ i) == 0)

-- The bit of a level is set.
abbrev pub has : ℕ → LogLevel → Bool
has m l = has_bit m (level_index l)

has_or_table :
    table (λ m i j. bool_eq (has_bit (bit_or m (2 ^ i)) j) ((j == i) || has_bit m j)) ≡ true
unfolding table checked bool_eq
has_or_table = refl

has_and_table :
    table (λ m i j. bool_eq (has_bit (bit_and m (255 - 2 ^ i)) j) (not (j == i) && has_bit m j))
    ≡ true
unfolding table checked bool_eq
has_and_table = refl

or_size_table : table (λ m i j. ltb (bit_or m (2 ^ i)) 256 && has_bit (bit_or m (2 ^ i)) i) ≡ true
unfolding table checked
or_size_table = refl

and_size_table :
    table (λ m i j.
      ltb (bit_and m (255 - 2 ^ i)) 256
      && (leb 128 m && leb 128 (bit_and m (255 - 2 ^ i))
          || ltb m 128 && ltb (bit_and m (255 - 2 ^ i)) 128))
    ≡ true
unfolding table checked
and_size_table = refl

-- The masks that the filter stores: the five bits of the levels, with or without the highest bit.
abbrev is_mask : ℕ → Bool
is_mask m = ltb m 32 || leb 128 m && ltb m 160

is_mask-table :
    table (λ m i j.
      bool_eq true
        (not (is_mask m) || is_mask (bit_or m (2 ^ i)) && is_mask (bit_and m (255 - 2 ^ i))))
    ≡ true
unfolding table checked bool_eq
is_mask-table = refl

no_bits_table :
    table (λ m i j.
      bool_eq ((m == 0) || (m == 0x80)) (
        is_mask m && not (has_bit m 0 || has_bit m 1 || has_bit m 2 || has_bit m 3 || has_bit m 4)))
    ≡ true
unfolding table checked bool_eq
no_bits_table = refl

abbrev or_level : ℕ → LogLevel → ℕ
or_level m l = bit_or m (2 ^ level_index l)

abbrev and_not_level : ℕ → LogLevel → ℕ
and_not_level m l = bit_and m (255 - 2 ^ level_index l)

-- Setting the bit of a level adds that level.
pub has-or_level :
    (m : ℕ) (l k : LogLevel) → m < 256 → has (or_level m l) k ≡ (level_eq k l || has m k)
has-or_level m l k h = bool_eq→eq _ _ (
    table_sound _ m (level_index l) (level_index k) has_or_table h (level_index_lt l)
      (level_index_lt k))

-- Clearing it takes that level away.
pub has-and_not_level :
    (m : ℕ) (l k : LogLevel) → m < 256 → has (and_not_level m l) k ≡ (not (level_eq k l) && has m k)
has-and_not_level m l k h = bool_eq→eq _ _ (
    table_sound _ m (level_index l) (level_index k) has_and_table h (level_index_lt l)
      (level_index_lt k))

-- Neither leaves the eight bits, and neither touches the highest bit.
pub or_level_lt : (m : ℕ) (l : LogLevel) → m < 256 → or_level m l < 256
or_level_lt m l h = ltb→lt _ _ (
    split_true _ _
      (table_sound _ m (level_index l) 0 or_size_table h (level_index_lt l) (omega arith)))
  where
    split_true : (a b : Bool) → (a && b) ≡ true → a ≡ true
    split_true a b e = ground arith

pub and_not_level_lt :
    (m : ℕ) (l : LogLevel)
    → m < 256
    → (and_not_level m l < 256) × ((m < 128) ↔ (and_not_level m l < 128))
and_not_level_lt m l h =
    split_true _ _
      (table_sound _ m (level_index l) 0 and_size_table h (level_index_lt l) (omega arith))
  where
    split_true :
        (m n : ℕ)
        → (ltb n 256 && (leb 128 m && leb 128 n || ltb m 128 && ltb n 128)) ≡ true
        → (n < 256) × ((m < 128) ↔ (n < 128))
    split_true m n e = ground arith

pub has_zero : (l : LogLevel) → has 0 l ≡ false
has_zero LogLevel.trace = refl
has_zero LogLevel.debug = refl
has_zero LogLevel.info = refl
has_zero LogLevel.warn = refl
has_zero LogLevel.error = refl

pub has_sentinel : (l : LogLevel) → has 0x80 l ≡ false
has_sentinel LogLevel.trace = refl
has_sentinel LogLevel.debug = refl
has_sentinel LogLevel.info = refl
has_sentinel LogLevel.warn = refl
has_sentinel LogLevel.error = refl

pub ne_zero_of_has : (m : ℕ) (l : LogLevel) → has m l ≡ true → m ≢ 0
ne_zero_of_has m l h e = cc (ap (λ n. has n l) e, has_zero l)

pub ne_sentinel_of_has : (m : ℕ) (l : LogLevel) → has m l ≡ true → m ≢ 0x80
ne_sentinel_of_has m l h e = cc (ap (λ n. has n l) e, has_sentinel l)

abbrev pub IsMask : ℕ → Type 0
IsMask m = is_mask m ≡ true

pub IsMask-lt : (m : ℕ) → IsMask m → m < 256
IsMask-lt m h = ground arith

pub or_level-IsMask :
    (m : ℕ) (l : LogLevel) → IsMask m → IsMask (or_level m l) × IsMask (and_not_level m l)
or_level-IsMask m l h = split_true _ _ _ h (
    bool_eq→eq _ _ (
      table_sound _ m (level_index l) 0 is_mask-table (IsMask-lt m h) (level_index_lt l)
        (omega arith)))
  where
    split_true : (a b c : Bool) → a ≡ true → true ≡ (not a || b && c) → (b ≡ true) × (c ≡ true)
    split_true a b c h e = ground arith

-- A mask of the filter with no level in it is one of the two special values.
pub no_levels : (m : ℕ) → IsMask m → ((l : LogLevel) → has m l ≡ false) → (m ≡ 0) ⊎ (m ≡ 0x80)
no_levels m h none_set = ground (
  arith,
  bool_eq→eq _ _ (table_sound _ m 0 0 no_bits_table (IsMask-lt m h) (omega arith) (omega arith)),
  none_set LogLevel.trace,
  none_set LogLevel.debug,
  none_set LogLevel.info,
  none_set LogLevel.warn,
  none_set LogLevel.error,
)
