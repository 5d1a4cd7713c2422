-- ===== src/Record/Line/OneLine.antt =====
-- The JSON line of crates/eden_logger/src/schema.rs has no control characters, whatever the texts.
use eden_logger.Base.{
  all-append_true, ℕ, ◌≡◌, refl, ◌≢◌, true, false, Option, List, [], ◌∷◌, ◌++◌, append-nil, arith,
  drop, any, all, All, All-append, Text, codes,
}
use eden_logger.Level.{LogLevel, LogAudience, level_as_str, audience_as_str}
use eden_logger.Decimal.{ℤ, Itoa, IsItoa}
use eden_logger.Json.{needs_escape, write_json_escaped, write_escaped_chunks}
use eden_logger.Json.RoundTrip.{
  IsBytes, is_visible, write_json_escaped-clean, write_json_escaped-visible,
}
use eden_logger.Timestamp.{DateTime, TimestampCache, i64_min, write_timestamp_rfc3339}
use eden_logger.Timestamp.Cache.{IsFresh, now_cached_step}
use eden_logger.Timestamp.Clean.{write_timestamp_rfc3339-clean}
use eden_logger.Context.{RequestFields, LogContext}
use eden_logger.Record.{Pairs}
use eden_logger.Record.Json.{write_json_direct}
use eden_logger.Record.Object.{
  chunks, token, text, Member, print_value, print_member, print_members, print_rest, print_object,
}
use eden_logger.Record.Line.Tokens.{is_token, context_members-tokens}
use eden_logger.Record.Line.{
  level_clean, audience_clean, context_members, head_members, json_line-print_object,
}

-- Each text of the member that an application supplies is of bytes.
abbrev pub HasBytes : Member → Type 0
HasBytes (key, chunks ts) = IsBytes key × All IsBytes ts
HasBytes (key, token t) = IsBytes key

-- Each text of the member is written visibly.
IsVisible : Member → Type 0
IsVisible (key, chunks ts) =
    (all is_visible (write_json_escaped key) ≡ true)
    × (all is_visible (write_escaped_chunks ts) ≡ true)
IsVisible (key, token t) =
    (all is_visible (write_json_escaped key) ≡ true) × (all is_visible t ≡ true)

chunks-visible : (ts : List Text) → All IsBytes ts → all is_visible (write_escaped_chunks ts) ≡ true
unfolding write_escaped_chunks
chunks-visible [] h = refl
chunks-visible (t ∷ ts) h =
    all-append_true is_visible (write_json_escaped t) _ (write_json_escaped-visible t h.0)
      (chunks-visible ts h.1)

members-IsVisible : (ms : List Member) → All HasBytes ms → all is_token ms ≡ true → All IsVisible ms
unfolding IsVisible is_token
members-IsVisible [] h g = tt
members-IsVisible ((key, chunks ts) ∷ ms) h g =
    ((write_json_escaped-visible key h.0.0, chunks-visible ts h.0.1), members-IsVisible ms h.1 g)
members-IsVisible ((key, token t) ∷ ms) h g =
    ((write_json_escaped-visible key h.0, ground arith), members-IsVisible ms h.1 (ground arith))

-- a member of two texts that need no escape
clean-IsVisible :
    (key value : Text)
    → any needs_escape key ≡ false
    → any needs_escape value ≡ false
    → IsVisible (key, text value)
unfolding IsVisible write_escaped_chunks
clean-IsVisible key value hk hv =
    (write_json_escaped-clean key hk, rw append-nil (write_json_escaped-clean value hv))

head-IsVisible :
    (ts : Text) (level : LogLevel) (audience : LogAudience)
    → any needs_escape ts ≡ false
    → All IsVisible ((codes "ts", text ts) ∷ head_members level audience)
unfolding needs_escape
head-IsVisible ts level audience clean = (
  clean-IsVisible (codes "ts") ts refl clean,
  (
    clean-IsVisible (codes "level") (level_as_str level) refl (level_clean level),
    (
      clean-IsVisible (codes "audience") (audience_as_str audience) refl (audience_clean audience),
      tt,
    ),
  ),
)

member-visible : (m : Member) → IsVisible m → all is_visible (print_member m) ≡ true
unfolding print_member print_value IsVisible
member-visible (key, chunks ts) h =
    all-append_true is_visible (write_json_escaped key) _ h.0
      (all-append_true is_visible (write_escaped_chunks ts) _ h.1 refl)
member-visible (key, token t) h = all-append_true is_visible (write_json_escaped key) _ h.0 h.1

members-visible : (ms : List Member) → All IsVisible ms → all is_visible (print_members ms) ≡ true
unfolding print_members
members-visible [] h = refl
members-visible (m ∷ ms) h =
    all-append_true is_visible (print_member m) _ (member-visible m h.0) (members-visible ms h.1)

drop-visible : (t : Text) → all is_visible t ≡ true → all is_visible (drop 1 t) ≡ true
drop-visible [] h = refl
drop-visible (b ∷ t) h = ground arith

object-visible : (ms : List Member) → All IsVisible ms → all is_visible (print_object ms) ≡ true
unfolding print_object print_rest
object-visible ms h =
    drop-visible (print_members ms ++ b'}' ∷ [])
      (all-append_true is_visible (print_members ms) (b'}' ∷ []) (members-visible ms h) refl)

module _ {R : Type 0} where
  -- Whatever bytes the texts of a record have, the JSON line contains no byte below 32, so neither a
  -- line feed nor a carriage return: no text can break the line or start another. The texts come
  -- from a context, its request fields, the pairs, the location and the message; the cache holds the
  -- timestamp of its instant, which is not the least `i64`.
  pub write_json_direct-visible :
      {itoa : Itoa}
      → IsItoa itoa
      → (fields : RequestFields R) (instants : ℤ → DateTime) (cache : TimestampCache) (now : ℤ)
        (current : Option Text × Option Text) (level : LogLevel) (message : Text)
        (context : LogContext R) (audience : LogAudience) (pairs : Pairs) (file : Option Text)
        (line : Option ℕ)
      → IsFresh itoa instants cache
      → now ≢ i64_min
      → All HasBytes (context_members itoa fields current message context pairs file line)
      → all is_visible
          (write_json_direct itoa fields instants cache now current level message context audience
            pairs file line).1
        ≡ true
  unfolding write_json_direct
  write_json_direct-visible {itoa} printed fields instants cache now current level message context
        audience pairs file line fresh real bytes =
      let (kept, ts) = now_cached_step itoa instants cache now fresh real in
      let clean = write_timestamp_rfc3339-clean printed (instants now) in
      let tokens = context_members-tokens printed fields current message context pairs file line in
      rw
        (
          ts,
          json_line-print_object itoa fields _ current level message context audience pairs file
              line clean,
        )
        (object-visible _ (
          All-append IsVisible
            ((codes "ts", text (write_timestamp_rfc3339 itoa (instants now)))
              ∷ head_members level audience)
            _ (head-IsVisible _ level audience clean) (members-IsVisible _ bytes tokens)))
