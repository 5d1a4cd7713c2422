-- ===== src/Export/Shared/Tests.antt =====
-- Diagnostics at concrete times.
use eden_logger.Export.Shared.{new_shared}
use eden_logger.Export.Shared.Diagnostics.{emergencies, Spaced, emergencies-Spaced}
use eden_logger.Base.{ℕ, List, [], ◌∷◌, arith, Text, codes}

abbrev three_calls : List (ℕ × Text)
three_calls = (100, codes "a") ∷ (110, codes "b") ∷ (170, codes "c") ∷ []

emergencies-Spaced_example : Spaced 60 (emergencies three_calls (new_shared 60)).printed
emergencies-Spaced_example = emergencies-Spaced 60 three_calls (omega arith)
