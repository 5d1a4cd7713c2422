-- ===== src/Timestamp/Tests.antt =====
-- The timestamps at concrete instants, with a concrete printer.
use eden_logger.Base.{zero, ◌≡◌, refl, some, [], ◌∷◌, ◌++◌, map, arith, length, codes}
use eden_logger.Decimal.{ℤ, pos}
use eden_logger.Decimal.Printer.{printer, printer-IsItoa, print, print_signed}
use eden_logger.Timestamp.{
  DateTime, new_timestamp_cache, write_timestamp_rfc3339, write_timestamps, pad_year, pad_two,
  pad_three, before_1000, digit_count, as_u64,
}
use eden_logger.Timestamp.Width.{read_timestamp, write_timestamp_rfc3339-read}
use eden_logger.Timestamp.Cache.{write_timestamps_lem}

abbrev moment : DateTime
moment = record {
  year = pos 2024;
  month = 2;
  day = 29;
  hour = 23;
  minute = 5;
  second = 59;
  millis = 7;
}

text_of_moment : write_timestamp_rfc3339 printer moment ≡ codes "2024-02-29T23:05:59.007Z"
unfolding write_timestamp_rfc3339 pad_year pad_two pad_three before_1000 digit_count as_u64 printer
    print print_signed
text_of_moment = refl

write_timestamp_rfc3339-read_example :
    (length (write_timestamp_rfc3339 printer moment) ≡ 24)
    × (read_timestamp (write_timestamp_rfc3339 printer moment ++ []) ≡ some (moment, []))
write_timestamp_rfc3339-read_example =
    write_timestamp_rfc3339-read printer-IsItoa moment {year = 2024} [] (record {
      year_pos = refl;
      year_bound = omega arith;
      month_bound = omega arith;
      day_bound = omega arith;
      hour_bound = omega arith;
      minute_bound = omega arith;
      second_bound = omega arith;
      millis_bound = omega arith;
    })

-- an instant of the year 2024 or of the year 2025
instants : ℤ → DateTime
instants (pos zero) = moment
instants _ = record moment { year = pos 2025 }

write_timestamps_lem_example :
    (write_timestamps printer instants new_timestamp_cache (pos 0 ∷ pos 0 ∷ pos 1 ∷ [])).1
    ≡ map (λ now. write_timestamp_rfc3339 printer (instants now)) (pos 0 ∷ pos 0 ∷ pos 1 ∷ [])
write_timestamps_lem_example =
    write_timestamps_lem printer instants (pos 0 ∷ pos 0 ∷ pos 1 ∷ [])
      ((λ e. cc), ((λ e. cc), ((λ e. cc), tt)))
