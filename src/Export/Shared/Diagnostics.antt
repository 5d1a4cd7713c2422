-- ===== src/Export/Shared/Diagnostics.antt =====
-- The rate limit of `Shared::emergency`, over any sequence of calls.
use eden_logger.Export.Shared.{Shared, emergency, new_shared}
use eden_logger.Base.{
  ℕ, ◌+◌, ◌-◌, ◌≤◌, ◌≡◌, refl, inl, inr, List, [], ◌∷◌, arith, ltb, Bool-cases, Text,
}

-- The calls in order, each with its time.
unfoldable pub emergencies : List (ℕ × Text) → Shared → Shared
emergencies [] s = s
emergencies ((now, message) ∷ calls) s = emergencies calls (emergency now message s)

-- Each line was printed at least the interval after the one before it.
abbrev pub Spaced : ℕ → List (ℕ × Text) → Type 0
Spaced interval [] = Unit {0}
Spaced interval ((now, message) ∷ []) = Unit {0}
Spaced interval ((now, message) ∷ (before, m) ∷ rest) =
    (before + interval ≤ now) × Spaced interval ((before, m) ∷ rest)

abbrev Last : ℕ → List (ℕ × Text) → Type 0
Last last [] = Unit {0}
Last last ((now, message) ∷ rest) = last ≡ now

record Inv (interval : ℕ) (s : Shared) : Type 0 where
  spaced : Spaced interval s.printed
  last : Last s.last_diagnostic_millis s.printed
  kept : s.diagnostic_interval_millis ≡ interval

Spaced-cons :
    (interval last now : ℕ) (message : Text) (printed : List (ℕ × Text))
    → last + interval ≤ now
    → Last last printed
    → Spaced interval printed
    → Spaced interval ((now, message) ∷ printed)
Spaced-cons interval last now message [] late l h = tt
Spaced-cons interval last now message ((before, m) ∷ rest) late l h = (omega arith, h)

emergency-Inv :
    (interval now : ℕ) (message : Text) (s : Shared)
    → 1 ≤ interval
    → Inv interval s
    → Inv interval (emergency now message s)
unfolding emergency
emergency-Inv interval now message s pos v =
    elim (Bool-cases (ltb (now - s.last_diagnostic_millis) s.diagnostic_interval_millis)) [
      | inl early ↦ rw early v
      | inr late ↦ rw late (record {
        spaced =
            Spaced-cons interval s.last_diagnostic_millis now message s.printed
              (ground (arith, v.kept)) v.last v.spaced;
        last = refl;
        kept = v.kept;
      })
    ]

emergencies-Inv :
    (interval : ℕ) (calls : List (ℕ × Text)) (s : Shared)
    → 1 ≤ interval
    → Inv interval s
    → Inv interval (emergencies calls s)
unfolding emergencies
emergencies-Inv interval [] s pos v = v
emergencies-Inv interval ((now, message) ∷ calls) s pos v =
    emergencies-Inv interval calls _ pos (emergency-Inv interval now message s pos v)

-- Whatever diagnostics are reported and whatever the clock shows, also if it steps back, two lines
-- on stderr are at least the configured interval apart, if that is at least a millisecond.
pub emergencies-Spaced :
    (interval : ℕ) (calls : List (ℕ × Text))
    → 1 ≤ interval
    → Spaced interval (emergencies calls (new_shared interval)).printed
emergencies-Spaced interval calls pos =
    (emergencies-Inv interval calls (new_shared interval) pos start).spaced
  where
    start : Inv interval (new_shared interval)
    start = unfold new_shared in record { spaced = tt; last = tt; kept = refl }
