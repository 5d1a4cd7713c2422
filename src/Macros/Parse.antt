-- ===== src/Macros/Parse.antt =====
-- The arguments of a logging macro of crates/eden_logger_macros/src/lib.rs are read as they are
-- written.
use eden_logger.Base.{
  or_else-none, ℕ, zero, suc, ◌≤◌, ◌≡◌, refl, ap, ◌∙◌, Bool, true, false, not, Option, none, some,
  List, [], ◌∷◌, ◌++◌, append-nil, append_assoc, arith, or_else, length, length-append, all, codes,
  text_eq,
}
use eden_logger.Macros.{
  Token, ident, comma, equals, Kv, RestItem, audience, kv, LogArgs, peek_named, parse_name,
  parse_comma, named_item, parse_item, parse_rest, parse_args, split_rest, split_args,
}

-- where an expression ends: at a comma or at the end of the arguments
abbrev pub ends_here : List Token → Bool
ends_here [] = true
ends_here (comma ∷ input) = true
ends_here _ = false

abbrev pub is_pair : {E : Type 0} → RestItem E → Bool
is_pair (audience expr) = true
is_pair (kv pair) = not (text_eq pair.key (codes "audience"))

-- the audience that stands last
unfoldable pub last_audience : {E : Type 0} → List (RestItem E) → Option E
last_audience [] = none
last_audience (audience expr ∷ rest) = or_else (last_audience rest) (some expr)
last_audience (kv pair ∷ rest) = last_audience rest

unfoldable pub pairs_of : {E : Type 0} → List (RestItem E) → List (Kv E)
pairs_of [] = []
pairs_of (audience expr ∷ rest) = pairs_of rest
pairs_of (kv pair ∷ rest) = pair ∷ pairs_of rest

or_else-some :
    {E : Type 0} (o : Option E) (e : E) (d : Option E)
    → or_else o (some e) ≡ or_else (or_else o (some e)) d
or_else-some none e d = refl
or_else-some (some x) e d = refl

split_rest_lem :
    {E : Type 0} (rest : List (RestItem E)) (aud : Option E) (kvs : List (Kv E))
    → split_rest aud kvs rest ≡ (or_else (last_audience rest) aud, kvs ++ pairs_of rest)
unfolding split_rest last_audience pairs_of
split_rest_lem [] aud kvs = rw append-nil refl
split_rest_lem (audience expr ∷ rest) aud kvs =
    split_rest_lem rest (some expr) kvs
    ∙ ap (λ o. (o, kvs ++ pairs_of rest)) (or_else-some (last_audience rest) expr aud)
split_rest_lem (kv pair ∷ rest) aud kvs =
    rw (split_rest_lem rest aud (kvs ++ pair ∷ []), append_assoc) refl

-- The reader of expressions reads an expression up to where it ends.
abbrev pub Reads : {E : Type 0} → (List Token → Option (E × List Token)) → (E → List Token) → Type 0
Reads {E} parse_expr print_expr =
    (e : E) (input : List Token)
    → ends_here input ≡ true
    → parse_expr (print_expr e ++ input) ≡ some (e, input)

module _ {E : Type 0} (print_expr : E → List Token) where
  -- an item as it is written behind its comma
  unfoldable pub print_item : RestItem E → List Token
  print_item (audience expr) = ident (codes "audience") ∷ equals ∷ print_expr expr
  print_item (kv pair) = ident pair.key ∷ equals ∷ print_expr pair.val

  unfoldable pub print_rest : List (RestItem E) → List Token
  print_rest [] = []
  print_rest (item ∷ rest) = comma ∷ print_item item ++ print_rest rest

  unfoldable pub print_args : LogArgs E → List Token
  print_args args = print_expr args.ctx ++ comma ∷ print_expr args.msg ++ print_rest args.rest

  ends-print_rest : (rest : List (RestItem E)) → ends_here (print_rest rest) ≡ true
  unfolding print_rest
  ends-print_rest [] = refl
  ends-print_rest (item ∷ rest) = refl

  length-print_rest : (rest : List (RestItem E)) → length rest ≤ length (print_rest rest)
  unfolding print_rest
  length-print_rest [] = omega arith
  length-print_rest (item ∷ rest) = simp length-append (omega (arith, length-print_rest rest))

  module _ (parse_expr : List Token → Option (E × List Token))
      (reads : Reads parse_expr print_expr) where
    parse_item-print_item :
        (item : RestItem E) (input : List Token)
        → is_pair item ≡ true
        → ends_here input ≡ true
        → parse_item parse_expr (print_item item ++ input) ≡ some (item, input)
    unfolding parse_item print_item parse_name peek_named named_item
    parse_item-print_item (audience expr) input named end =
        rw (reads expr input end) (unfold text_eq in refl)
    parse_item-print_item (kv pair) input named end =
        let apart : text_eq pair.key (codes "audience") ≡ false = ground arith in
        rw (reads pair.val input end) (rw apart refl)

    parse_rest-print_rest :
        (rest : List (RestItem E)) (fuel : ℕ)
        → all is_pair rest ≡ true
        → length rest ≤ fuel
        → parse_rest parse_expr fuel (print_rest rest) ≡ some (rest, [])
    unfolding parse_rest print_rest
    parse_rest-print_rest [] fuel named enough = refl
    parse_rest-print_rest (item ∷ rest) zero named enough = absurd (omega (arith, enough))
    parse_rest-print_rest (item ∷ rest) (suc fuel) named enough =
        rw (parse_item-print_item item (print_rest rest) (ground arith) (ends-print_rest rest))
          (rw (parse_rest-print_rest rest fuel (ground arith) (omega (arith, enough))) refl)

    -- The arguments of a macro are read as they are written, where no key is `audience`, and they
    -- are split into the context, the message, the audience that stands last, if there is one, and
    -- the pairs in their order. The reader of expressions, of another package, reads an expression up
    -- to the comma or the end behind it.
    pub parse_args-print_args :
        (args : LogArgs E)
        → all is_pair args.rest ≡ true
        → (parse_args parse_expr (print_args args) ≡ some args)
          × (split_args args ≡ (args.ctx, args.msg, last_audience args.rest, pairs_of args.rest))
    unfolding parse_args print_args split_args parse_comma
    parse_args-print_args args named = (
      rw (append_assoc, reads args.ctx (comma ∷ print_expr args.msg ++ print_rest args.rest) refl)
          (rw (reads args.msg (print_rest args.rest) (ends-print_rest args.rest))
            (rw (parse_rest-print_rest args.rest _ named (length-print_rest args.rest)) refl)),
      rw (split_rest_lem args.rest none [], or_else-none) refl,
    )
