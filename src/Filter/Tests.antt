-- ===== src/Filter/Tests.antt =====
-- The filter at concrete levels and values.
use eden_logger.Level.{LogLevel, trace, debug, info, warn, error, elem}
use eden_logger.Filter.{Filter, initialized, disable_levels, should_log}
use eden_logger.Filter.Mask.{has}
use eden_logger.Filter.Levels.{disable_levels_reenables}
use eden_logger.Base.{ℕ, ◌≡◌, refl, true, none, some, [], ◌∷◌, arith, Text}

abbrev no_lower : ℕ → Text
no_lower c = c ∷ []

-- The mask of error and warn.
abbrev two_levels : Filter
two_levels = record { enabled_levels = 24; filter_state = initialized }

disable_levels_reenables_example :
    should_log no_lower none (disable_levels two_levels (warn ∷ error ∷ [])) debug
    ≡ some (disable_levels two_levels (warn ∷ error ∷ []), true)
disable_levels_reenables_example =
    disable_levels_reenables no_lower none two_levels (warn ∷ error ∷ []) (omega arith) covered
      debug
  where
    covered : (l : LogLevel) → has 24 l ≡ true → elem l (warn ∷ error ∷ []) ≡ true
    covered trace h = ground arith
    covered debug h = ground arith
    covered info h = ground arith
    covered warn h = refl
    covered error h = refl
