-- ===== src/Filter/Levels.antt =====
-- What `should_log` answers after the calls that change the filter, in terms of lists of levels.
use eden_logger.Level.{LogLevel, level_index, level_eq, elem}
use eden_logger.Filter.{
  Filter, level_bit, set_levels, enable_mask, disable_mask, enable_levels, disable_levels,
  mask_allows, ensure_filter_initialized, should_log,
}
use eden_logger.Filter.Mask.{
  has, has-or_level, has-and_not_level, or_level_lt, and_not_level_lt, ne_zero_of_has,
  ne_sentinel_of_has, IsMask, IsMask-lt, or_level-IsMask, no_levels, has_zero, has_sentinel,
}
use eden_logger.Base.{
  ℕ, ◌-◌, ◌^◌, ◌<◌, bit_and, bit_or, ◌≡◌, refl, ap, true, false, ◌&&◌, ◌||◌, not, Option, some,
  List, [], ◌∷◌, arith, ◌==◌, Text,
}

-- With the level of a set bit the mask is neither special value.
mask_allows_of_has : (m : ℕ) (l k : LogLevel) → has m l ≡ true → mask_allows m k ≡ has m k
unfolding mask_allows level_bit
mask_allows_of_has m l k h = ground (arith, ne_zero_of_has m l h, ne_sentinel_of_has m l h)

has-enable_mask :
    (m : ℕ) (ls : List LogLevel) (k : LogLevel)
    → m < 256
    → (has (enable_mask m ls) k ≡ (elem k ls || has m k)) × (enable_mask m ls < 256)
unfolding enable_mask
has-enable_mask m [] k h = (refl, h)
has-enable_mask m (l ∷ ls) k h = ground (
  arith,
  has-enable_mask (bit_or m (2 ^ level_index l)) ls k (or_level_lt m l h),
  has-or_level m l k h,
)

has-disable_mask :
    (m : ℕ) (ls : List LogLevel) (k : LogLevel)
    → m < 256
    → (has (disable_mask m ls) k ≡ (not (elem k ls) && has m k)) × (disable_mask m ls < 256)
unfolding disable_mask
has-disable_mask m [] k h = (refl, h)
has-disable_mask m (l ∷ ls) k h = ground (
  arith,
  has-disable_mask (bit_and m (255 - 2 ^ level_index l)) ls k (and_not_level_lt m l h).0,
  has-and_not_level m l k h,
)

enable_mask-IsMask : (m : ℕ) (ls : List LogLevel) → IsMask m → IsMask (enable_mask m ls)
unfolding enable_mask
enable_mask-IsMask m [] h = h
enable_mask-IsMask m (l ∷ ls) h =
    enable_mask-IsMask (bit_or m (2 ^ level_index l)) ls (or_level-IsMask m l h).0

disable_mask-IsMask : (m : ℕ) (ls : List LogLevel) → IsMask m → IsMask (disable_mask m ls)
unfolding disable_mask
disable_mask-IsMask m [] h = h
disable_mask-IsMask m (l ∷ ls) h =
    disable_mask-IsMask (bit_and m (255 - 2 ^ level_index l)) ls (or_level-IsMask m l h).1

level_eq_refl : (l : LogLevel) → level_eq l l ≡ true
level_eq_refl l = ground arith

has-mask_allows : (m : ℕ) (k : LogLevel) → has m k ≡ (not (m == 0) && mask_allows m k)
unfolding mask_allows level_bit
has-mask_allows m k = ground (arith, has_zero k, has_sentinel k)

disable_mask_lt : (m : ℕ) (ls : List LogLevel) → m < 256 → m < 128 → disable_mask m ls < 128
unfolding disable_mask
disable_mask_lt m [] h small = small
disable_mask_lt m (l ∷ ls) h small =
    let next = and_not_level_lt m l h in
    disable_mask_lt (bit_and m (255 - 2 ^ level_index l)) ls next.0 (next.1.0 small)

-- With every level taken away, a mask without the highest bit is 0.
disable_mask-eq-zero :
    (m : ℕ) (ls : List LogLevel)
    → m < 32
    → ((l : LogLevel) → has m l ≡ true → elem l ls ≡ true)
    → disable_mask m ls ≡ 0
disable_mask-eq-zero m ls small covered = omega (
  arith,
  no_levels (disable_mask m ls) (disable_mask-IsMask m ls (ground arith)) none_left,
  disable_mask_lt m ls (omega arith) (omega arith),
)
  where
    none_left : (l : LogLevel) → has (disable_mask m ls) l ≡ false
    none_left l = ground (arith, has-disable_mask m ls l (omega arith), covered l)

module _ (lower_char : ℕ → Text) where
  -- Enabling levels from a mask of the filter: from then on `should_log` lets through exactly the
  -- levels listed and those that were let through before by a mask other than 0 (0 lets all
  -- through and is narrowed to the list). At least one level is listed.
  should_log-enable_levels :
      (env : Option Text) (f : Filter) (l : LogLevel) (ls : List LogLevel) (k : LogLevel)
      → IsMask f.enabled_levels
      → should_log lower_char env (enable_levels f (l ∷ ls)) k
        ≡ some (
          enable_levels f (l ∷ ls),
          elem k (l ∷ ls) || not (f.enabled_levels == 0) && mask_allows f.enabled_levels k,
        )
  unfolding should_log ensure_filter_initialized enable_levels set_levels
  should_log-enable_levels env f l ls k h =
      let m = f.enabled_levels in
      ap (λ b. some (enable_levels f (l ∷ ls), b))
        (ground (
          arith,
          mask_allows_of_has (enable_mask m (l ∷ ls)) l k,
          has-enable_mask m (l ∷ ls) l (IsMask-lt m h),
          has-enable_mask m (l ∷ ls) k (IsMask-lt m h),
          level_eq_refl l,
          has-mask_allows m k,
        ))

  -- Disabling every level that is enabled one by one, from a mask without the off mark, makes
  -- `should_log` let every level through.
  pub disable_levels_reenables :
      (env : Option Text) (f : Filter) (ls : List LogLevel)
      → f.enabled_levels < 32
      → ((l : LogLevel) → has f.enabled_levels l ≡ true → elem l ls ≡ true)
      → (k : LogLevel)
      → should_log lower_char env (disable_levels f ls) k ≡ some (disable_levels f ls, true)
  unfolding should_log ensure_filter_initialized disable_levels set_levels mask_allows
  disable_levels_reenables env f ls small covered k =
      rw (disable_mask-eq-zero f.enabled_levels ls small covered) refl

  -- Disabling levels from a mask of the filter, with some enabled level left: `should_log` lets
  -- through exactly what it let through before and is not listed.
  should_log-disable_levels :
      (env : Option Text) (f : Filter) (ls : List LogLevel) (l k : LogLevel)
      → IsMask f.enabled_levels
      → has f.enabled_levels l ≡ true
      → elem l ls ≡ false
      → should_log lower_char env (disable_levels f ls) k
        ≡ some (disable_levels f ls, not (elem k ls) && mask_allows f.enabled_levels k)
  unfolding should_log ensure_filter_initialized disable_levels set_levels
  should_log-disable_levels env f ls l k h set_before kept =
      let m = f.enabled_levels in
      ap (λ b. some (disable_levels f ls, b))
        (ground (
          arith,
          mask_allows_of_has (disable_mask m ls) l k,
          mask_allows_of_has m l k,
          has-disable_mask m ls l (IsMask-lt m h),
          has-disable_mask m ls k (IsMask-lt m h),
        ))
