-- ===== src/Macros/Tests.antt =====
-- A macro call in which an expression is one number.
use eden_logger.Base.{
  ℕ, ◌≡◌, refl, true, false, Option, none, some, List, [], ◌∷◌, ◌==◌, if◌then◌else◌, codes, text_eq,
}
use eden_logger.Level.{warn, internal, client}
use eden_logger.Macros.{
  Token, other, audience, kv, LogArgs, Features, parse_args, split_args, split_rest, run_log,
  run_body, audience_enabled, audience_or_internal,
}
use eden_logger.Macros.Parse.{print_args, last_audience, pairs_of, Reads, parse_args-print_args}

abbrev number : List Token → Option (ℕ × List Token)
number (other n ∷ input) = some (n, input)
number _ = none

abbrev as_token : ℕ → List Token
as_token n = other n ∷ []

number-Reads : Reads number as_token
number-Reads n input end = refl

abbrev args : LogArgs ℕ
args = record {
  ctx = 1;
  msg = 2;
  rest = audience 3 ∷ kv (record { key = codes "user"; val = 4 }) ∷ audience 5 ∷ [];
}

parse_args-print_args_example :
    (parse_args number (print_args as_token args) ≡ some args)
    × (split_args args ≡ (1, 2, last_audience args.rest, pairs_of args.rest))
unfolding text_eq
parse_args-print_args_example = parse_args-print_args as_token number number-Reads args refl

abbrev features : Features
features = record {
  client_enabled = true;
  internal_enabled = false;
  both_enabled = false;
  level_enabled = λ l. true;
  source_location = false;
}

-- the audience that stands last decides
client_call :
    run_log (λ e. if e == 5 then client else internal) features warn args (codes "a.rs") 7
    ≡ some (record {
      level = warn;
      message = 2;
      context = 1;
      call_audience = client;
      pairs = record { key = codes "user"; val = 4 } ∷ [];
      location = none;
    })
unfolding run_log run_body split_args split_rest audience_enabled audience_or_internal
client_call = refl
