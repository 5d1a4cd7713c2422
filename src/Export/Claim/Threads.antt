-- ===== src/Export/Claim/Threads.antt =====
-- `claim_amount` and `subtract` under interleaving: any number of threads on one counter, a shared
-- access at a time. A thread that has made its `fetch_add` holds the value it read before.
use eden_logger.Base.{
  ℕ, zero, suc, ◌+◌, ◌-◌, ◌*◌, ◌≤◌, ◌<◌, ◌≡◌, refl, sym, ap, ◌∙◌, subst, List, [], ◌∷◌, ◌++◌, arith,
  leb, if◌then◌else◌, length, All, u64_mod, wrap_add, wrap_sub,
}

-- Where a thread stands in `claim_amount`.
pub data Pc : Type 0 where
  idle : Pc
  added : (previous amount : ℕ) → Pc  -- between `fetch_add` and the test of `previous`

-- The counter, the threads, and the amounts that were granted and not yet given back.
pub record System : Type 0 where
  pub depth : ℕ
  pub threads : List Pc
  pub claims : List ℕ

-- One access, at a capacity of at most u64::MAX / 2. A claim of more than the capacity is refused
-- before any access, and makes no step.
pub data Step (capacity : ℕ) (s : System) : System → Type 0 where
  fetch_add :
      (before after : List Pc) (amount : ℕ)
      → s.threads ≡ before ++ idle ∷ after
      → amount ≤ capacity
      → Step capacity s (record {
        depth = wrap_add s.depth amount;
        threads = before ++ added s.depth amount ∷ after;
        claims = s.claims;
      })
  accept :
      (before after : List Pc) (previous amount : ℕ)
      → s.threads ≡ before ++ added previous amount ∷ after
      → previous ≤ capacity - amount
      → Step capacity s
          (record { depth = s.depth; threads = before ++ idle ∷ after; claims = amount ∷ s.claims })
  undo :
      (before after : List Pc) (previous amount : ℕ)
      → s.threads ≡ before ++ added previous amount ∷ after
      → capacity - amount < previous
      → Step capacity s (record {
        depth = wrap_sub s.depth amount;
        threads = before ++ idle ∷ after;
        claims = s.claims;
      })
  -- `subtract`, when the worker takes the record or the claim of the other counter fails
  give_back :
      (before after : List ℕ) (amount : ℕ)
      → s.claims ≡ before ++ amount ∷ after
      → Step capacity s (record {
        depth = wrap_sub s.depth amount;
        threads = s.threads;
        claims = before ++ after;
      })

pub data Reach (capacity : ℕ) (start : System) : System → Type 0 where
  here : Reach capacity start start
  next : {s t : System} → Reach capacity start s → Step capacity s t → Reach capacity start t

abbrev idle_threads : ℕ → List Pc
idle_threads zero = []
idle_threads (suc n) = idle ∷ idle_threads n

-- `n` threads, none of which has claimed anything.
abbrev pub start : ℕ → System
start n = record { depth = 0; threads = idle_threads n; claims = [] }

-- What a thread has added to the counter, and what part of it will be granted.
abbrev weight : Pc → ℕ
weight idle = 0
weight (added previous amount) = amount

abbrev grant : ℕ → Pc → ℕ
grant capacity idle = 0
grant capacity (added previous amount) = if leb previous (capacity - amount) then amount else 0

pub sum : List ℕ → ℕ
sum [] = 0
sum (x ∷ xs) = x + sum xs

sum-append : (before after : List ℕ) (x : ℕ) → sum (before ++ x ∷ after) ≡ x + sum (before ++ after)
unfolding sum
sum-append [] after x = refl
sum-append (b ∷ before) after x = omega (arith, sum-append before after x)

total : (Pc → ℕ) → List Pc → ℕ
total w [] = 0
total w (p ∷ ps) = w p + total w ps

total-append :
    (w : Pc → ℕ) (before after : List Pc) (p : Pc)
    → total w (before ++ p ∷ after) ≡ w p + total w (before ++ after)
unfolding total
total-append w [] after p = refl
total-append w (b ∷ before) after p = omega (arith, total-append w before after p)

total_le : (v w : Pc → ℕ) (ps : List Pc) → ((p : Pc) → v p ≤ w p) → total v ps ≤ total w ps
unfolding total
total_le v w [] h = omega arith
total_le v w (p ∷ ps) h = omega (arith, h p, total_le v w ps h)

total-weight-le :
    (capacity : ℕ) (ps : List Pc)
    → All (λ p. weight p ≤ capacity) ps
    → total weight ps ≤ length ps * capacity
unfolding total
total-weight-le capacity [] h = omega arith
total-weight-le capacity (p ∷ ps) h = omega (arith, h.0, total-weight-le capacity ps h.1)

All-swap :
    (P : Pc → Type 0) (before after : List Pc) (p q : Pc)
    → All P (before ++ p ∷ after)
    → P q
    → All P (before ++ q ∷ after)
All-swap P [] after p q h hq = (hq, h.1)
All-swap P (b ∷ before) after p q h hq = (h.0, All-swap P before after p q h.1 hq)

length-swap :
    (before after : List Pc) (p q : Pc)
    → length (before ++ p ∷ after) ≡ length (before ++ q ∷ after)
length-swap [] after p q = refl
length-swap (b ∷ before) after p q = ap suc (length-swap before after p q)

record Inv (n capacity : ℕ) (s : System) : Type 0 where
  exact : s.depth ≡ total weight s.threads + sum s.claims
  granted : total (grant capacity) s.threads + sum s.claims ≤ capacity
  modest : All (λ p. weight p ≤ capacity) s.threads
  number : length s.threads ≡ n

grant_le : (capacity : ℕ) (p : Pc) → grant capacity p ≤ weight p
grant_le capacity idle = omega arith
grant_le capacity (added previous amount) = ground arith

-- The counter stays far enough from wrapping.
no_wrap : {n capacity : ℕ} {s : System} → Inv n capacity s → s.depth ≤ (n + 1) * capacity
no_wrap {n} {capacity} {s} v = omega (
  arith,
  v.exact,
  v.granted,
  ap (λ (k : ℕ). k * capacity) v.number,
  total-weight-le capacity s.threads v.modest,
)

-- One thread moves from `p` to `q`: what is left to show is the counter and the grants.
swap-Inv :
    {n capacity depth : ℕ} {s : System}
    → (n + 1) * capacity < u64_mod
    → (before after : List Pc) (p q : Pc) (claims : List ℕ) → s.threads ≡ before ++ p ∷ after
    → Inv n capacity s
    → weight q ≤ capacity
    → (total weight (before ++ q ∷ after) ≤ n * capacity
        → (depth ≡ total weight (before ++ q ∷ after) + sum claims)
          × (total (grant capacity) (before ++ q ∷ after) + sum claims ≤ capacity))
    → Inv n capacity (record { depth = depth; threads = before ++ q ∷ after; claims = claims })
swap-Inv {n} {capacity} small before after p q claims e v hq rest = record {
  exact = (rest bound).0;
  granted = (rest bound).1;
  modest = modest';
  number = number';
}
  where
    modest' : All (λ r. weight r ≤ capacity) (before ++ q ∷ after)
    modest' =
        All-swap (λ r. weight r ≤ capacity) before after p q
          (subst (All (λ r. weight r ≤ capacity)) e v.modest) hq

    number' : length (before ++ q ∷ after) ≡ n
    number' = sym (length-swap before after p q) ∙ (sym (ap length e) ∙ v.number)

    bound : total weight (before ++ q ∷ after) ≤ n * capacity
    bound =
        subst (λ k. total weight (before ++ q ∷ after) ≤ k * capacity) number'
          (total-weight-le capacity (before ++ q ∷ after) modest')

Step-Inv :
    {n capacity : ℕ} {s t : System}
    → (n + 1) * capacity < u64_mod
    → Step capacity s t
    → Inv n capacity s
    → Inv n capacity t
unfolding sum
Step-Inv {n} {capacity} {s} small (fetch_add before after amount e le) v =
    swap-Inv small before after idle (added s.depth amount) s.claims e v le (λ bound. (
      omega (
        arith,
        v.exact,
        bound,
        ap (total weight) e,
        total-append weight before after idle,
        total-append weight before after (added s.depth amount),
      ),
      ground (
        arith,
        v.exact,
        v.granted,
        ap (total (grant capacity)) e,
        ap (total weight) e,
        total-append (grant capacity) before after idle,
        total-append weight before after idle,
        total-append (grant capacity) before after (added s.depth amount),
        total_le (grant capacity) weight (before ++ after) (grant_le capacity),
      ),
    ))
Step-Inv {n} {capacity} {s} small (accept before after previous amount e le) v =
    swap-Inv small before after (added previous amount) idle (amount ∷ s.claims) e v (omega arith)
      (λ bound. (
        omega (
          arith,
          v.exact,
          ap (total weight) e,
          total-append weight before after idle,
          total-append weight before after (added previous amount),
        ),
        ground (
          arith,
          v.granted,
          ap (total (grant capacity)) e,
          total-append (grant capacity) before after idle,
          total-append (grant capacity) before after (added previous amount),
        ),
      ))
Step-Inv {n} {capacity} {s} small (undo before after previous amount e lt) v =
    swap-Inv small before after (added previous amount) idle s.claims e v (omega arith) (λ bound. (
      omega (
        arith,
        v.exact,
        no_wrap v,
        ap (total weight) e,
        total-append weight before after idle,
        total-append weight before after (added previous amount),
      ),
      ground (
        arith,
        v.granted,
        ap (total (grant capacity)) e,
        total-append (grant capacity) before after idle,
        total-append (grant capacity) before after (added previous amount),
      ),
    ))
Step-Inv {n} {capacity} {s} small (give_back before after amount e) v = record {
  exact = omega (arith, v.exact, no_wrap v, ap sum e, sum-append before after amount);
  granted = omega (arith, v.granted, ap sum e, sum-append before after amount);
  modest = v.modest;
  number = v.number;
}

start-Inv : (n capacity : ℕ) → Inv n capacity (start n)
unfolding total sum
start-Inv zero capacity = record { exact = refl; granted = omega arith; modest = tt; number = refl }
start-Inv (suc n) capacity =
    let v = start-Inv n capacity in
    record {
      exact = omega (arith, v.exact);
      granted = omega (arith, v.granted);
      modest = (omega arith, v.modest);
      number = ap suc v.number;
    }

Reach-Inv :
    {n capacity : ℕ} {s : System}
    → (n + 1) * capacity < u64_mod
    → Reach capacity (start n) s
    → Inv n capacity s
Reach-Inv {n} {capacity} small here = start-Inv n capacity
Reach-Inv small (next r st) = Step-Inv small st (Reach-Inv small r)

-- With `n` producer threads and (n + 1) * capacity below 2^64, no interleaving of claims and
-- releases grants more than the capacity.
pub claims_bounded :
    (n : ℕ) {capacity : ℕ} {s : System}
    → (n + 1) * capacity < u64_mod
    → Reach capacity (start n) s
    → sum s.claims ≤ capacity
claims_bounded n small r = omega (arith, (Reach-Inv small r).granted)

total_idle : (ps : List Pc) → All (λ p. p ≡ idle) ps → total weight ps ≡ 0
unfolding total
total_idle [] h = refl
total_idle (p ∷ ps) h = omega (arith, ap weight h.0, total_idle ps h.1)

-- Then, whenever no thread is inside `claim_amount`, the counter is the sum of the amounts granted
-- and not given back: nothing leaks, and it has not wrapped.
pub depth_at_rest :
    (n : ℕ) {capacity : ℕ} {s : System}
    → (n + 1) * capacity < u64_mod
    → Reach capacity (start n) s
    → All (λ p. p ≡ idle) s.threads
    → s.depth ≡ sum s.claims
depth_at_rest n {s = s} small r quiet =
    omega (arith, (Reach-Inv small r).exact, total_idle s.threads quiet)
