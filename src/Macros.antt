-- ===== src/Macros.antt =====
-- crates/eden_logger_macros/src/lib.rs: how the arguments of a logging macro are read and what its
-- expansion does. Expressions and their parser belong to the `syn` package: `E` is the type of
-- expressions and `parse_expr` reads one from the front of the tokens.
pub mod Parse
mod Tests
use eden_logger.Base.{
  ℕ, zero, suc, ◌+◌, ◌-◌, ◌*◌, ◌/◌, ◌%◌, ◌^◌, ◌≤◌, ◌<◌, min, max, bit_and, bit_or, ◌≡◌, refl, sym,
  ap, ◌∙◌, subst, ◌≢◌, ◌↔◌, ◌⊎◌, inl, inr, Bool, true, false, ◌&&◌, ◌||◌, not, Option, none, some,
  List, [], ◌∷◌, ◌++◌, map, append-nil, append_assoc, arith, ltb, leb, ◌==◌, if◌then◌else◌, ltb→lt,
  lt→ltb, leb→le, ==_iff, Bool-cases, Option-cases, ◌>>=◌, or_else, is_some, is_nil, checked,
  checked-at, length, take, drop, length-append, take-append-drop, length-take, length-drop, any,
  all, All, All-append, u64_mod, u64_max, u128_max, sat_add, sat_mul, wrap_add, wrap_sub, Text,
  codes, text_eq, text_eq_iff,
}
use eden_logger.Level.{
  LogLevel, trace, debug, info, warn, error, LogAudience, internal, client, both,
}

-- A token: an identifier, a comma, a sign of equality, or any other.
pub data Token : Type 0 where
  ident : Text → Token
  comma equals : Token
  other : ℕ → Token

module _ (E : Type 0) where
  -- `Kv`
  pub record Kv : Type 0 where
    pub key : Text
    pub val : E

  pub data RestItem : Type 0 where
    audience : E → RestItem
    kv : Kv → RestItem

  pub record LogArgs : Type 0 where
    pub ctx : E
    pub msg : E
    pub rest : List RestItem

-- `input.peek(Ident) && input.peek2(Token![=])`
unfoldable pub peek_named : List Token → Bool
peek_named (ident key ∷ equals ∷ input) = true
peek_named input = false

-- `input.parse::<Ident>()` and `input.parse::<Token![=]>()`
unfoldable pub parse_name : List Token → Option (Text × List Token)
parse_name (ident key ∷ equals ∷ input) = some (key, input)
parse_name input = none

unfoldable pub parse_comma : List Token → Option (List Token)
parse_comma (comma ∷ input) = some input
parse_comma input = none

-- the two arms of the loop, by the identifier in front of the sign
unfoldable pub named_item : {E : Type 0} → Text → E → RestItem E
named_item key val =
    if text_eq key (codes "audience") then audience val else kv (record { key = key; val = val })

module _ {E : Type 0} (parse_expr : List Token → Option (E × List Token)) where
  -- one round of the loop, behind its comma
  unfoldable pub parse_item : List Token → Option (RestItem E × List Token)
  parse_item input = do
    (key, input1) ← parse_name input
    (val, input2) ← parse_expr input1
    some (
      if peek_named input then named_item key val else kv (record { key = key; val = val }),
      input2,
    )

  -- `while input.peek(Token![,])`; the fuel bounds the rounds
  unfoldable pub parse_rest : ℕ → List Token → Option (List (RestItem E) × List Token)
  parse_rest fuel [] = some ([], [])
  parse_rest zero (t ∷ input) = some ([], t ∷ input)
  parse_rest (suc fuel) (comma ∷ input) = do
    (item, input1) ← parse_item input
    (items, input2) ← parse_rest fuel input1
    some (item ∷ items, input2)
  parse_rest (suc fuel) (ident key ∷ input) = some ([], ident key ∷ input)
  parse_rest (suc fuel) (equals ∷ input) = some ([], equals ∷ input)
  parse_rest (suc fuel) (other n ∷ input) = some ([], other n ∷ input)

  -- the `Parse` of `LogArgs`, and `parse_macro_input`, which wants all tokens to be read
  unfoldable pub parse_args : List Token → Option (LogArgs E)
  parse_args input = do
    (ctx, input1) ← parse_expr input
    input2 ← parse_comma input1
    (msg, input3) ← parse_expr input2
    (rest, input4) ← parse_rest (length input3) input3
    if is_nil input4 then some (record { ctx = ctx; msg = msg; rest = rest }) else none

module _ {E : Type 0} where
  unfoldable pub split_rest : Option E → List (Kv E) → List (RestItem E) → Option E × List (Kv E)
  split_rest aud kvs [] = (aud, kvs)
  split_rest aud kvs (audience expr ∷ rest) = split_rest (some expr) kvs rest
  split_rest aud kvs (kv pair ∷ rest) = split_rest aud (kvs ++ pair ∷ []) rest

  -- `split_args`
  unfoldable pub split_args : LogArgs E → E × E × Option E × List (Kv E)
  split_args args = let (aud, kvs) = split_rest none [] args.rest in (args.ctx, args.msg, aud, kvs)

-- The features of the crate: the audiences that are compiled in, the levels and the locations.
pub record Features : Type 0 where
  pub client_enabled : Bool
  pub internal_enabled : Bool
  pub both_enabled : Bool
  pub level_enabled : LogLevel → Bool
  pub source_location : Bool

unfoldable pub audience_enabled : Features → LogAudience → Bool
audience_enabled features internal = features.internal_enabled
audience_enabled features client = features.client_enabled
audience_enabled features both = features.both_enabled

-- The call of `emit_direct` that an expansion makes, with its expressions, and the location.
pub record EmitCall (E : Type 0) : Type 0 where
  pub level : LogLevel
  pub message : E
  pub context : E
  pub call_audience : LogAudience
  pub pairs : List (Kv E)
  pub location : Option (Text × ℕ)

module _ {E : Type 0} (eval_audience : E → LogAudience) where
  -- `aud_opt`, where it is missing `LogAudience::Internal`
  unfoldable pub audience_or_internal : Option E → LogAudience
  audience_or_internal none = internal
  audience_or_internal (some expr) = eval_audience expr

  -- what the code of `gen_body` does when it runs at `file` and `line`
  unfoldable pub run_body :
      Features → LogLevel → E × E × Option E × List (Kv E) → Text → ℕ → Option (EmitCall E)
  run_body features level (ctx, msg, aud_opt, kvs) file line =
      let aud = audience_or_internal aud_opt in
      if audience_enabled features aud
      then some (record {
        level = level;
        message = msg;
        context = ctx;
        call_audience = aud;
        pairs = kvs;
        location = if features.source_location then some (file, line) else none;
      })
      else none

  -- `log_trace`, `log_debug`, `log_info`, `log_warn` and `log_error`
  unfoldable pub run_log : Features → LogLevel → LogArgs E → Text → ℕ → Option (EmitCall E)
  run_log features level args file line =
      if features.level_enabled level
      then run_body features level (split_args args) file line
      else none
