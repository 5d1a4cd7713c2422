-- ===== src/Export/Worker/Tracker.antt =====
-- `CompletionTracker` of crates/eden_logger_export/src/worker.rs: the highest ticket below which
-- all tickets are complete. The `BTreeSet` of later tickets is a list without order.
use mathlib.Core.List.{foldl}
use eden_logger.Base.{
  ℕ, zero, suc, ◌+◌, ◌≤◌, ◌<◌, ◌≡◌, refl, sym, ap, ◌∙◌, ◌⊎◌, inl, inr, Bool, true, false, ◌&&◌,
  ◌||◌, not, Option, none, some, List, [], ◌∷◌, arith, leb, ◌==◌, if◌then◌else◌, Bool-cases, length,
  any, All, u64_max, sat_add,
}

pub record Tracker : Type 0 where
  pub watermark : ℕ
  pub out_of_order : List ℕ

abbrev pub member : ℕ → List ℕ → Bool
member k = any (λ a. k == a)

-- `BTreeSet::insert`
unfoldable pub insert : ℕ → List ℕ → List ℕ
insert k xs = if member k xs then xs else k ∷ xs

unfoldable pub erase : ℕ → List ℕ → List ℕ
erase k [] = []
erase k (x ∷ xs) = if k == x then erase k xs else x ∷ erase k xs

-- `BTreeSet::remove`: the set without the key, if the key was there.
unfoldable pub remove : ℕ → List ℕ → Option (List ℕ)
remove k xs = if member k xs then some (erase k xs) else none

-- The `while` loop of `complete`, on fuel.
unfoldable pub advance : ℕ → Tracker → Tracker
advance zero t = t
advance (suc fuel) t = elim (remove (sat_add t.watermark 1) t.out_of_order) [
  | none ↦ t
  | some rest ↦ advance fuel (record { watermark = sat_add t.watermark 1; out_of_order = rest })
]

-- `CompletionTracker::new`, from the value of `completed_ticket`
unfoldable pub new_tracker : ℕ → Tracker
new_tracker completed = record { watermark = completed; out_of_order = [] }

-- One more round than the set has tickets is enough: each round takes one away.
unfoldable pub complete : Tracker → ℕ → Tracker
complete t ticket =
    if leb ticket t.watermark
    then t
    else let later = insert ticket t.out_of_order in
      advance (suc (length later)) (record { watermark = t.watermark; out_of_order = later })

unfoldable pub complete_all : Tracker → List ℕ → Tracker
complete_all t [] = t
complete_all t (ticket ∷ tickets) = complete_all (complete t ticket) tickets

member_of_eq : (k a : ℕ) (xs : List ℕ) → k ≡ a → member k xs ≡ member a xs
member_of_eq k a xs e = ap (λ n. member n xs) e

member-insert : (k a : ℕ) (xs : List ℕ) → member k (insert a xs) ≡ ((k == a) || member k xs)
unfolding insert
member-insert k a xs = ground (arith, member_of_eq k a xs)

member-erase : (k a : ℕ) (xs : List ℕ) → member k (erase a xs) ≡ (not (k == a) && member k xs)
unfolding erase
member-erase k a [] = ground arith
member-erase k a (x ∷ xs) = ground (arith, member-erase k a xs)

length-erase :
    (k : ℕ) (xs : List ℕ)
    → (length (erase k xs) ≤ length xs) × (member k xs ≡ true → length (erase k xs) < length xs)
unfolding erase
length-erase k [] = ground arith
length-erase k (x ∷ xs) = ground (arith, length-erase k xs)

-- What a set of completed tickets and a tracker have to do with each other.
record Inv (done : List ℕ) (t : Tracker) : Type 0 where
  below : (k : ℕ) → 1 ≤ k → k ≤ t.watermark → member k done ≡ true
  above : (k : ℕ) → t.watermark < k → member k t.out_of_order ≡ member k done
  small : t.watermark < u64_max
  tickets_small : (k : ℕ) → member k done ≡ true → k < u64_max

remove_cases :
    (k : ℕ) (xs : List ℕ)
    → ((remove k xs ≡ none) × (member k xs ≡ false))
      ⊎ ((remove k xs ≡ some (erase k xs)) × (member k xs ≡ true))
unfolding remove
remove_cases k xs = ground arith

-- One round of the loop, on a ticket that is there.
raise-Inv :
    (done : List ℕ) (t : Tracker) (n : ℕ)
    → n ≡ t.watermark + 1
    → Inv done t
    → member n t.out_of_order ≡ true
    → Inv done (record { watermark = n; out_of_order = erase n t.out_of_order })
raise-Inv done t n e v found = record {
  below = λ k one le. ground (arith, v.below k one, v.above n, member_of_eq k n done);
  above = λ k lt. ground (arith, v.above k, member-erase k n t.out_of_order);
  small = v.tickets_small n (sym (v.above n (omega arith)) ∙ found);
  tickets_small = v.tickets_small;
}

-- The loop stops at the first ticket that is missing, if the fuel exceeds the tickets of the set.
advance-Inv :
    (fuel : ℕ) (done : List ℕ) (t : Tracker)
    → length t.out_of_order < fuel
    → Inv done t
    → Inv done (advance fuel t) × (member ((advance fuel t).watermark + 1) done ≡ false)
unfolding advance
advance-Inv zero done t h v = absurd (omega arith)
advance-Inv (suc fuel) done t h v =
    let n = sat_add t.watermark 1 in
    let n_eq : n ≡ t.watermark + 1 = omega (arith, v.small) in
    elim (remove_cases n t.out_of_order) [
      | inl (e, missing) ↦
          rw (e, advance)
            (
              v,
              sym (v.above (t.watermark + 1) (omega arith))
                  ∙ (sym (member_of_eq _ _ t.out_of_order n_eq) ∙ missing),
            )
      | inr (e, found) ↦
          rw (e, advance)
            (advance-Inv fuel done (record { watermark = n; out_of_order = erase n t.out_of_order })
              (omega (arith, (length-erase n t.out_of_order).1 found))
              (raise-Inv done t n n_eq v found))
    ]

-- Everything up to the watermark is complete, and the ticket after it is not.
record IsExact (done : List ℕ) (t : Tracker) : Type 0 where
  inv : Inv done t
  stops : member (t.watermark + 1) done ≡ false

complete-IsExact :
    (done : List ℕ) (t : Tracker) (ticket : ℕ)
    → ticket < u64_max
    → IsExact done t
    → IsExact (ticket ∷ done) (complete t ticket)
unfolding complete
complete-IsExact done t ticket small x = elim (Bool-cases (leb ticket t.watermark)) [
  | inl old ↦ rw old (record { inv = known-Inv old; stops = ground (arith, x.stops) })
  | inr new ↦ rw new (pack (advance-Inv _ (ticket ∷ done) _ (omega arith) inserted-Inv))
]
  where
    known-Inv : leb ticket t.watermark ≡ true → Inv (ticket ∷ done) t
    known-Inv old = record {
      below = λ k one le. ground (arith, x.inv.below k one le);
      above = λ k lt. ground (arith, x.inv.above k lt);
      small = x.inv.small;
      tickets_small = λ k m. ground (arith, x.inv.tickets_small k);
    }

    inserted-Inv :
        Inv
          (ticket ∷ done)
          (record { watermark = t.watermark; out_of_order = insert ticket t.out_of_order })
    inserted-Inv = record {
      below = λ k one le. ground (arith, x.inv.below k one le);
      above = λ k lt. ground (arith, x.inv.above k lt, member-insert k ticket t.out_of_order);
      small = x.inv.small;
      tickets_small = λ k m. ground (arith, x.inv.tickets_small k);
    }

    pack :
        {u : Tracker}
        → Inv (ticket ∷ done) u × (member (u.watermark + 1) (ticket ∷ done) ≡ false)
        → IsExact (ticket ∷ done) u
    pack h = record { inv = h.0; stops = h.1 }

complete_all-IsExact :
    (done tickets : List ℕ) (t : Tracker)
    → All (λ k. k < u64_max) tickets
    → IsExact done t
    → IsExact (foldl (λ ks k. k ∷ ks) done tickets) (complete_all t tickets)
unfolding complete_all
complete_all-IsExact done [] t small x = x
complete_all-IsExact done (k ∷ ks) t small x =
    complete_all-IsExact (k ∷ done) ks (complete t k) small.1 (complete-IsExact done t k small.0 x)

new_tracker-IsExact : IsExact [] (new_tracker 0)
unfolding new_tracker
new_tracker-IsExact = record {
  inv = record {
    below = λ k one le. absurd (omega arith);
    above = λ k lt. refl;
    small = omega arith;
    tickets_small = λ k m. absurd (ground arith);
  };
  stops = refl;
}

member-foldl :
    (k : ℕ) (done tickets : List ℕ)
    → member k (foldl (λ ks a. a ∷ ks) done tickets) ≡ (member k tickets || member k done)
member-foldl k done [] = refl
member-foldl k done (a ∷ tickets) = ground (arith, member-foldl k (a ∷ done) tickets)

-- A new tracker completes any tickets, in any order and repeated or not, none of them u64::MAX.
-- Then every ticket from 1 to its watermark is among them, and the one after the watermark is not.
pub watermark_exact :
    (tickets : List ℕ)
    → All (λ k. k < u64_max) tickets
    → let w = (complete_all (new_tracker 0) tickets).watermark in
      ((k : ℕ) → 1 ≤ k → k ≤ w → member k tickets ≡ true) × (member (w + 1) tickets ≡ false)
watermark_exact tickets small =
    let x = complete_all-IsExact [] tickets (new_tracker 0) small new_tracker-IsExact in
    (
      λ k one le. ground (arith, x.inv.below k one le, member-foldl k [] tickets),
      ground (
        arith,
        x.stops,
        member-foldl ((complete_all (new_tracker 0) tickets).watermark + 1) [] tickets,
      ),
    )
