-- ===== src/Context/Additional.antt =====
-- A `HashMap` of texts as the list of its entries in the order in which it is iterated. Which order
-- that is, is the library's: a map that is inserted into or cloned may be iterated in any order.
use eden_logger.Base.{
  ◌≡◌, refl, sym, ◌∙◌, inl, inr, true, false, Option, none, some, List, [], ◌∷◌, arith,
  if◌then◌else◌, Bool-cases, or_else, Text, text_eq, text_eq_iff,
}

abbrev pub Entries : Type 0
Entries = List (Text × Text)

unfoldable pub get : Text → Entries → Option Text
get key [] = none
get key ((k, v) ∷ m) = if text_eq k key then some v else get key m

-- the entries after an insertion, before they are arranged
unfoldable pub entered : Text → Text → Entries → Entries
entered key value [] = (key, value) ∷ []
entered key value ((k, v) ∷ m) =
    let rest = entered key value m in if text_eq k key then (k, value) ∷ m else (k, v) ∷ rest

-- no key stands twice
unfoldable pub IsMap : Entries → Type 0
IsMap [] = Unit
IsMap ((k, v) ∷ m) = (get k m ≡ none) × IsMap m

-- The order of iteration: any rearrangement of the entries, which keeps what the map holds.
pub record IterationOrder : Type 0 where
  pub arrange : Entries → Entries
  pub arrange-IsMap : (m : Entries) → IsMap m → IsMap (arrange m)
  pub get-arrange : (k : Text) (m : Entries) → IsMap m → get k (arrange m) ≡ get k m

module _ ⦃o : IterationOrder⦄ where
  unfoldable pub insert : Text → Text → Entries → Entries
  insert key value m = o.arrange (entered key value m)

  unfoldable pub extend : Entries → Entries → Entries
  extend m [] = m
  extend m ((k, v) ∷ other) = extend (insert k v m) other

text_eq_refl : (t : Text) → text_eq t t ≡ true
text_eq_refl t = (text_eq_iff t t).1 refl

text_eq_sym : (s t : Text) → text_eq s t ≡ text_eq t s
text_eq_sym s t = elim (Bool-cases (text_eq s t)) [
  | inl same ↦ let e = (text_eq_iff s t).0 same in rw (e) refl
  | inr other ↦ elim (Bool-cases (text_eq t s)) [
    | inl back ↦ absurd (
        ground
          (arith, other, text_eq_refl t, (text_eq_iff t s).0 back, sym ((text_eq_iff t s).0 back)))
    | inr no_back ↦ other ∙ sym no_back
  ]
]

-- a key that is one of two different ones is not the other
pub text_eq_apart :
    (j key k : Text) → text_eq j key ≡ false → text_eq j k ≡ true → text_eq key k ≡ false
text_eq_apart j key k apart same =
    let e = (text_eq_iff j k).0 same in text_eq_sym key k ∙ rw (← e) apart

get-entered :
    (key value k : Text) (m : Entries)
    → get k (entered key value m) ≡ (if text_eq key k then some value else get k m)
unfolding get entered
get-entered key value k [] = refl
get-entered key value k ((j, w) ∷ m) = elim (Bool-cases (text_eq j key)) [
  | inl same ↦ let e = (text_eq_iff j key).0 same in rw (same, e) (ground arith)
  | inr other ↦ rw (other, get-entered key value k m) (ground (arith, text_eq_apart j key k other))
]

entered-IsMap : (key value : Text) (m : Entries) → IsMap m → IsMap (entered key value m)
unfolding entered IsMap get
entered-IsMap key value [] h = (refl, tt)
entered-IsMap key value ((j, w) ∷ m) h = elim (Bool-cases (text_eq j key)) [
  | inl same ↦ rw same h
  | inr other ↦ rw other (
    get-entered key value j m ∙ rw (text_eq_sym key j ∙ other) h.0,
    entered-IsMap key value m h.1,
  )
]

or_else-none :
    (j w k : Text) (other : Entries) (old : Option Text)
    → get j other ≡ none
    → or_else (get k other) (if text_eq j k then some w else old)
      ≡ or_else (if text_eq j k then some w else get k other) old
or_else-none j w k other old missing = elim (Bool-cases (text_eq j k)) [
  | inl same ↦ rw (same, ← (text_eq_iff j k).0 same, missing) refl
  | inr apart ↦ rw apart refl
]

module _ ⦃o : IterationOrder⦄ where
  pub get-insert :
      (key value k : Text) (m : Entries)
      → IsMap m
      → get k (insert key value m) ≡ (if text_eq key k then some value else get k m)
  unfolding insert
  get-insert key value k m h =
      o.get-arrange k (entered key value m) (entered-IsMap key value m h)
      ∙ get-entered key value k m

  pub insert-IsMap : (key value : Text) (m : Entries) → IsMap m → IsMap (insert key value m)
  unfolding insert
  insert-IsMap key value m h = o.arrange-IsMap (entered key value m) (entered-IsMap key value m h)

  pub get-extend :
      (k : Text) (m other : Entries)
      → IsMap m
      → IsMap other
      → get k (extend m other) ≡ or_else (get k other) (get k m)
  unfolding get extend IsMap
  get-extend k m [] g h = refl
  get-extend k m ((j, w) ∷ other) g h =
      get-extend k (insert j w m) other (insert-IsMap j w m g) h.1
      ∙ rw (get-insert j w k m g) (or_else-none j w k other _ h.0)

  pub extend-IsMap : (m other : Entries) → IsMap m → IsMap (extend m other)
  unfolding extend
  extend-IsMap m [] h = h
  extend-IsMap m ((k, v) ∷ other) h = extend-IsMap (insert k v m) other (insert-IsMap k v m h)
