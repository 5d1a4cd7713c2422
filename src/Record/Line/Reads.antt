-- ===== src/Record/Line/Reads.antt =====
-- A reader of JSON gets the members of a record from the line that `write_json_direct` of
-- crates/eden_logger/src/schema.rs writes.
use eden_logger.Base.{
  ℕ, ◌≡◌, refl, ◌∙◌, ◌≢◌, inl, true, false, Option, some, List, [], ◌∷◌, ◌++◌, map, append-nil,
  arith, any, all, All, All-append, Text, codes,
}
use eden_logger.Level.{LogLevel, LogAudience}
use eden_logger.Decimal.{ℤ, Itoa, IsItoa}
use eden_logger.Json.{needs_escape}
use eden_logger.Json.RoundTrip.{IsPlain}
use eden_logger.Timestamp.{DateTime, TimestampCache, i64_min, write_timestamp_rfc3339}
use eden_logger.Timestamp.Cache.{IsFresh, now_cached_step}
use eden_logger.Timestamp.Clean.{write_timestamp_rfc3339-clean}
use eden_logger.Context.{RequestFields, LogContext}
use eden_logger.Record.{Pairs}
use eden_logger.Record.Json.{write_json_direct}
use eden_logger.Record.Object.{
  chunks, token, text, Member, read_object, joined, IsPlainMember, read_object-print_object,
}
use eden_logger.Record.Line.{
  context_members, head_members, level_clean, audience_clean, json_line-print_object,
}
use eden_logger.Record.Line.Tokens.{is_token, context_members-tokens}

-- a member of which the texts that an application supplies are plain
abbrev pub HasPlainTexts : Member → Type 0
HasPlainTexts (key, chunks ts) = IsPlain key × All IsPlain ts
HasPlainTexts (key, token t) = IsPlain key

plain_members :
    (ms : List Member) → All HasPlainTexts ms → all is_token ms ≡ true → All IsPlainMember ms
unfolding is_token
plain_members [] h g = tt
plain_members ((key, chunks ts) ∷ ms) h g = (h.0, plain_members ms h.1 g)
plain_members ((key, token t) ∷ ms) h g =
    ((h.0, (ground arith, ground arith)), plain_members ms h.1 (ground arith))

head_members-plain :
    (ts : Text) (level : LogLevel) (audience : LogAudience)
    → any needs_escape ts ≡ false
    → All IsPlainMember ((codes "ts", text ts) ∷ head_members level audience)
unfolding needs_escape
head_members-plain ts level audience clean = (
  (inl refl, (inl clean, tt)),
  ((
    (inl refl, (inl (level_clean level), tt)),
    ((inl refl, (inl (audience_clean audience), tt)), tt),
  )),
)

module _ {R : Type 0} where
  -- The line that `write_json_direct` writes reads as a JSON object with the members of the record,
  -- in their order: timestamp, level, audience, the ids and names of the context, its request
  -- fields, its error, its additional values, the pairs of the call, its location and the message.
  -- The condition is that each text from the application either needs no escape or is ASCII, that
  -- the cache holds the timestamp of its instant, and that the instant is not the least `i64`.
  pub read_object-write_json_direct :
      {itoa : Itoa}
      → IsItoa itoa
      → (fields : RequestFields R) (instants : ℤ → DateTime) (cache : TimestampCache) (now : ℤ)
        (current : Option Text × Option Text) (level : LogLevel) (message : Text)
        (context : LogContext R) (audience : LogAudience) (pairs : Pairs) (file : Option Text)
        (line : Option ℕ)
      → IsFresh itoa instants cache
      → now ≢ i64_min
      → All HasPlainTexts (context_members itoa fields current message context pairs file line)
      → read_object
          (write_json_direct itoa fields instants cache now current level message context audience
            pairs file line).1
        ≡ some (
            (codes "ts", text (write_timestamp_rfc3339 itoa (instants now)))
              ∷ head_members level audience
            ++ map joined (context_members itoa fields current message context pairs file line))
  unfolding write_json_direct
  read_object-write_json_direct {itoa} printed fields instants cache now current level message
        context audience pairs file line fresh real plain_texts =
      let (kept, ts) = now_cached_step itoa instants cache now fresh real in
      let clean = write_timestamp_rfc3339-clean printed (instants now) in
      let members = context_members itoa fields current message context pairs file line in
      let plain =
        plain_members members plain_texts
          (context_members-tokens printed fields current message context pairs file line) in
      rw
        (
          ts,
          json_line-print_object itoa fields _ current level message context audience pairs file
              line clean,
        )
        (read_object-print_object _ _ (
            All-append IsPlainMember
              ((codes "ts", text (write_timestamp_rfc3339 itoa (instants now)))
                ∷ head_members level audience)
              members (head_members-plain _ level audience clean) plain)
          ∙ simp append-nil refl)
