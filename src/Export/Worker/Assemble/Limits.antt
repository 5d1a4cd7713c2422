-- ===== src/Export/Worker/Assemble/Limits.antt =====
-- Every batch that the worker exports keeps the limits of the configuration, and gathering keeps
-- the order of the records.
use eden_logger.Export.Worker.Sizer.{encoded_len, length_delimited_field_len}
use eden_logger.Export.Worker.Batch.{MappedLog, Worker}
use eden_logger.Export.Worker.Assemble.{
  BatchConfig, Verdict, oversize, overflow, fits, is_oversize, verdict, field_len, Gathered, stop,
  push, skip, fill, gather, started,
}
use eden_logger.Base.{
  ℕ, ◌+◌, ◌≤◌, min, ◌≡◌, refl, sym, ◌∙◌, ◌⊎◌, inl, inr, true, false, Option, none, some, List, [],
  ◌∷◌, ◌++◌, append_assoc, arith, ltb, if◌then◌else◌, ltb→lt, Bool-cases, length, length-append,
  u64_max, sat_add,
}

-- The records among the arrivals.
abbrev pub somes {ℓ} : {A : Type ℓ} → List (Option A) → List A
somes [] = []
somes (none ∷ xs) = somes xs
somes (some x ∷ xs) = x ∷ somes xs

Verdict-cases : (v : Verdict) → (v ≡ oversize) ⊎ (v ≡ overflow) ⊎ (v ≡ fits)
Verdict-cases oversize = inl refl
Verdict-cases overflow = inr (inl refl)
Verdict-cases fits = inr (inr refl)

module _ {ℓ} {A : Type ℓ} (record_len : A → ℕ) (now : MappedLog A → ℕ) (config : BatchConfig) where
  abbrev G : Type ℓ
  G = Gathered record_len now config

  -- The records that the worker has not looked at.
  abbrev pub rest : G → List (MappedLog A)
  rest g = g.pending ++ somes g.arrivals

  abbrev judge : G → MappedLog A → Verdict
  judge g r = verdict config g.records_encoded_len (field_len record_len now config r)

  -- The rule of the inner loop, for a predicate on what was gathered and what comes next.
  record Rule {κ} (P : G → List (MappedLog A) → Type κ) : Type (ℓ ⊔ κ) where
    on_stop :
        (g : G) (p : List (MappedLog A)) (a : List (Option (MappedLog A)))
        → P g (p ++ somes a)
        → P (stop record_len now config g p a) (p ++ somes a)
    on_skip :
        (g : G) (r : MappedLog A) (c : List (MappedLog A))
        → judge g r ≡ oversize
        → P g (r ∷ c)
        → P (skip record_len now config g r) c
    on_push :
        (g : G) (r : MappedLog A) (c : List (MappedLog A))
        → ltb (length g.batch) config.max_batch_records ≡ true
        → judge g r ≡ fits
        → P g (r ∷ c)
        → P (push record_len now config g r) c

  fill_rule {κ} :
      (P : G → List (MappedLog A) → Type κ)
      → Rule P
      → (pending : List (MappedLog A)) (arrivals : List (Option (MappedLog A))) (g : G)
      → P g (pending ++ somes arrivals)
      → P
          (fill record_len now config pending arrivals g)
          (rest (fill record_len now config pending arrivals g))
  unfolding fill
  fill_rule P R [] [] g h = unfold stop in R.on_stop g [] [] h
  fill_rule P R [] (none ∷ arrivals) g h =
      elim (Bool-cases (ltb (length g.batch) config.max_batch_records)) [
        | inl room ↦ rw room (unfold stop in R.on_stop g [] arrivals h)
        | inr full ↦ rw full (unfold stop in R.on_stop g [] (none ∷ arrivals) h)
      ]
  fill_rule P R [] (some r ∷ arrivals) g h =
      elim (Bool-cases (ltb (length g.batch) config.max_batch_records)) [
        | inl room ↦ elim (Verdict-cases (judge g r)) [
          | inl e ↦
              rw (room, e, fill) (fill_rule P R [] arrivals _ (R.on_skip g r (somes arrivals) e h))
          | inr (inl e) ↦ rw (room, e, fill) (unfold stop in R.on_stop g (r ∷ []) arrivals h)
          | inr (inr e) ↦
              rw (room, e, fill)
                (fill_rule P R [] arrivals _ (R.on_push g r (somes arrivals) room e h))
        ]
        | inr full ↦ rw full (unfold stop in R.on_stop g [] (some r ∷ arrivals) h)
      ]
  fill_rule P R (r ∷ pending) arrivals g h =
      elim (Bool-cases (ltb (length g.batch) config.max_batch_records)) [
        | inl room ↦ elim (Verdict-cases (judge g r)) [
          | inl e ↦
              rw (room, e, fill)
                (fill_rule P R pending arrivals _ (R.on_skip g r (pending ++ somes arrivals) e h))
          | inr (inl e) ↦ rw (room, e, fill) (unfold stop in R.on_stop g (r ∷ pending) arrivals h)
          | inr (inr e) ↦
              rw (room, e, fill)
                (fill_rule P R pending arrivals _
                  (R.on_push g r (pending ++ somes arrivals) room e h))
        ]
        | inr full ↦ rw full (unfold stop in R.on_stop g (r ∷ pending) arrivals h)
      ]

  -- The records that a request can hold.
  abbrev pub kept : List (MappedLog A) → List (MappedLog A)
  kept [] = []
  kept (r ∷ rs) =
      if is_oversize config (field_len record_len now config r) then kept rs else r ∷ kept rs

  -- What the records of a batch take, without saturation.
  abbrev pub total : List (MappedLog A) → ℕ
  total [] = 0
  total (r ∷ rs) = field_len record_len now config r + total rs

  -- A batch within the limits.
  pub Within : G → Type 0
  Within g =
      (1 ≤ length g.batch)
      × (length g.batch ≤ config.max_batch_records)
      × (g.records_encoded_len ≡ min (total g.batch) u64_max)
      × (encoded_len config.sizer g.records_encoded_len ≤ config.max_batch_bytes)

  pub Gathers : List (MappedLog A) → Option G → Type ℓ
  Gathers input none = kept input ≡ []
  Gathers input (some g) = Within g × (g.batch ++ kept (rest g) ≡ kept input)

  is_oversize-oversize : (n f : ℕ) → verdict config n f ≡ oversize → is_oversize config f ≡ true
  unfolding verdict
  is_oversize-oversize n f e = ground arith

  fits_lem :
      (n f : ℕ)
      → verdict config n f ≡ fits
      → (is_oversize config f ≡ false)
        × (encoded_len config.sizer (sat_add n f) ≤ config.max_batch_bytes)
  unfolding verdict
  fits_lem n f e = (ground arith, ground arith)

  total-append : (xs ys : List (MappedLog A)) → total (xs ++ ys) ≡ total xs + total ys
  total-append [] ys = omega arith
  total-append (x ∷ xs) ys = omega (arith, total-append xs ys)

  kept_oversize :
      (r : MappedLog A) (c : List (MappedLog A))
      → is_oversize config (field_len record_len now config r) ≡ true
      → kept (r ∷ c) ≡ kept c
  kept_oversize r c e = rw e

  kept_fits :
      (r : MappedLog A) (c : List (MappedLog A))
      → is_oversize config (field_len record_len now config r) ≡ false
      → kept (r ∷ c) ≡ r ∷ kept c
  kept_fits r c e = rw e

  Within-Rule : Rule (λ g _. Within g)
  unfolding Within
  Within-Rule = record {
    on_stop = λ g p a h. unfold stop in h;
    on_skip = λ g r c _ h. unfold skip in h;
    on_push = λ g r c room e (some_record, few, len, small).
        unfold push in
        (
          omega (arith, some_record, length-append g.batch (r ∷ [])),
          omega (arith, ltb→lt _ _ room, length-append g.batch (r ∷ [])),
          omega (arith, len, total-append g.batch (r ∷ [])),
          (fits_lem g.records_encoded_len (field_len record_len now config r) e).1,
        );
  }

  kept_rule : (input : List (MappedLog A)) → Rule (λ g c. g.batch ++ kept c ≡ input)
  kept_rule input = record {
    on_stop = λ g p a h. unfold stop in h;
    on_skip =
        λ g r c e h. unfold skip in (rw (kept_oversize r c (is_oversize-oversize _ _ e)) at h);
    on_push = λ g r c room e h.
        unfold push in
        (append_assoc g.batch (r ∷ []) (kept c) ∙ (rw (kept_fits r c ((fits_lem _ _ e).0)) at h));
  }

  field_len-u64 : (r : MappedLog A) → field_len record_len now config r ≤ u64_max
  unfolding field_len length_delimited_field_len
  field_len-u64 r = omega arith

  encoded_len-fits :
      (f : ℕ) → is_oversize config f ≡ false → encoded_len config.sizer f ≤ config.max_batch_bytes
  unfolding is_oversize
  encoded_len-fits f e = ground arith

  Gathers-oversize :
      (r : MappedLog A) (c : List (MappedLog A)) (o : Option G)
      → is_oversize config (field_len record_len now config r) ≡ true
      → Gathers c o
      → Gathers (r ∷ c) o
  unfolding Gathers
  Gathers-oversize r c none e h = kept_oversize r c e ∙ h
  Gathers-oversize r c (some g) e (within, order) = (within, order ∙ sym (kept_oversize r c e))

  -- The first record that a request can hold starts the batch.
  started_lem :
      (r : MappedLog A) (pending : List (MappedLog A)) (arrivals : List (Option (MappedLog A)))
      (w : Worker)
      → 1 ≤ config.max_batch_records
      → is_oversize config (field_len record_len now config r) ≡ false
      → Gathers
          (r ∷ pending ++ somes arrivals)
          (some (fill record_len now config pending arrivals (started record_len now config w r)))
  unfolding Gathers Within
  started_lem r pending arrivals w room e = (
    fill_rule (λ g _. Within g) Within-Rule pending arrivals _
        (omega arith, omega (arith, room), omega (arith, field_len-u64 r), encoded_len-fits _ e),
    fill_rule (λ g c. g.batch ++ kept c ≡ kept (r ∷ pending ++ somes arrivals)) (kept_rule _)
        pending arrivals _ (sym (kept_fits r _ e)),
  )

  -- With room for a record, gathering from `pending` and the arrivals takes every record that a
  -- request can hold, in order: the batch, then what is left of them, are the records that a request
  -- can hold. The batch has a record, at most `max_batch_records` of them and an encoded request of
  -- at most `max_batch_bytes`. Without a batch no record was such.
  pub gather_lem :
      (pending : List (MappedLog A)) (arrivals : List (Option (MappedLog A))) (w : Worker)
      → 1 ≤ config.max_batch_records
      → Gathers (pending ++ somes arrivals) (gather record_len now config pending arrivals w).1
  unfolding gather Gathers
  gather_lem [] [] w room = refl
  gather_lem [] (none ∷ arrivals) w room = gather_lem [] arrivals w room
  gather_lem [] (some r ∷ arrivals) w room =
      elim (Bool-cases (is_oversize config (field_len record_len now config r))) [
        | inl over ↦ rw (over, gather) (Gathers-oversize r _ _ over (gather_lem [] arrivals _ room))
        | inr small ↦ rw (small, gather) (started_lem r [] arrivals w room small)
      ]
  gather_lem (r ∷ pending) arrivals w room =
      elim (Bool-cases (is_oversize config (field_len record_len now config r))) [
        | inl over ↦
            rw (over, gather) (Gathers-oversize r _ _ over (gather_lem pending arrivals _ room))
        | inr small ↦ rw (small, gather) (started_lem r pending arrivals w room small)
      ]
