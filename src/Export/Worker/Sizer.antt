-- ===== src/Export/Worker/Sizer.antt =====
-- `varint_len`, `length_delimited_field_len` and `ExportRequestSizer` of
-- crates/eden_logger_export/src/worker.rs. A `usize` has 64 bits. The encoded lengths of the
-- resource and of the scope come from the protobuf library, as numbers.
use native.Mathlib.Nat.{pow-succ'}
use eden_logger.Base.{
  ℕ, zero, suc, ◌+◌, ◌-◌, ◌*◌, ◌/◌, ◌^◌, ◌≤◌, ◌<◌, ◌≡◌, refl, ◌↔◌, arith, leb, if◌then◌else◌,
  u64_max, sat_add,
}

-- The `while` loop, on fuel: it shifts a 64-bit value by seven bits.
unfoldable pub varint_loop : ℕ → ℕ → ℕ → ℕ
varint_loop zero value encoded_len = encoded_len
varint_loop (suc fuel) value encoded_len =
    let longer = varint_loop fuel (value / 128) (encoded_len + 1) in
    if leb 128 value then longer else encoded_len

-- Ten rounds are enough for 64 bits.
unfoldable pub varint_len : ℕ → ℕ
varint_len value = varint_loop 10 value 1

unfoldable pub length_delimited_field_len : ℕ → ℕ
length_delimited_field_len payload_len = sat_add (sat_add 1 (varint_len payload_len)) payload_len

pub record ExportRequestSizer : Type 0 where
  pub resource_field_len : ℕ
  pub scope_field_len : ℕ

unfoldable pub new_sizer : ℕ → ℕ → ExportRequestSizer
new_sizer resource_len scope_len = record {
  resource_field_len = length_delimited_field_len resource_len;
  scope_field_len = length_delimited_field_len scope_len;
}

unfoldable pub encoded_len : ExportRequestSizer → ℕ → ℕ
encoded_len sizer records_encoded_len =
    let scope_logs_len = sat_add sizer.scope_field_len records_encoded_len in
    let resource_logs_len =
      sat_add sizer.resource_field_len (length_delimited_field_len scope_logs_len) in
    length_delimited_field_len resource_logs_len

le-varint_loop : (fuel value len : ℕ) → len ≤ varint_loop fuel value len
unfolding varint_loop
le-varint_loop zero value len = omega arith
le-varint_loop (suc fuel) value len = ground (arith, le-varint_loop fuel (value / 128) (len + 1))

pow_suc : (k : ℕ) → 128 ^ suc k ≡ 128 * 128 ^ k
pow_suc k = pow-succ' 128 k

pow_pos : (k : ℕ) → 1 ≤ 128 ^ k
pow_pos zero = omega arith
pow_pos (suc k) = omega (arith, pow_suc k, pow_pos k)

varint_loop_step :
    (fuel value len : ℕ)
    → varint_loop (suc fuel) value len
      ≡ (if leb 128 value then varint_loop fuel (value / 128) (len + 1) else len)
unfolding varint_loop
varint_loop_step fuel value len = refl

-- The loop counts the base-128 digits, if the fuel covers them.
varint_loop_iff :
    (fuel value len k : ℕ)
    → value < 128 ^ suc fuel
    → (varint_loop (suc fuel) value len ≤ len + k) ↔ (value < 128 ^ suc k)
varint_loop_iff zero value len k h =
    ground (arith, varint_loop_step zero value len, pow_suc k, pow_pos k, pow_suc 0)
varint_loop_iff (suc fuel) value len zero h = ground (
  arith,
  varint_loop_step (suc fuel) value len,
  pow_suc 0,
  le-varint_loop (suc fuel) (value / 128) (len + 1),
)
varint_loop_iff (suc fuel) value len (suc k) h = ground (
  arith,
  varint_loop_step (suc fuel) value len,
  pow_suc (suc k),
  pow_pos (suc k),
  pow_suc (suc fuel),
  varint_loop_iff fuel (value / 128) (len + 1) k (omega (arith, pow_suc (suc fuel))),
)

-- The length of a 64-bit value is the number of its base-128 digits: it is at most k + 1 exactly
-- if the value is below 128^(k+1), and it is at least 1.
pub varint_len_iff :
    (value k : ℕ)
    → value ≤ u64_max
    → ((varint_len value ≤ k + 1) ↔ (value < 128 ^ suc k)) × (1 ≤ varint_len value)
unfolding varint_len
varint_len_iff value k h =
    let exact = varint_loop_iff 9 value 1 k (omega arith) in
    ((λ le. exact.0 (omega arith), λ lt. omega (arith, exact.1 lt)), le-varint_loop 10 value 1)

varint_len_mono : (a b : ℕ) → a ≤ b → b ≤ u64_max → varint_len a ≤ varint_len b
varint_len_mono a b le small =
    let k = varint_len b - 1 in
    let (of_b, positive) = varint_len_iff b k small in
    omega (
      arith,
      (varint_len_iff a k (omega arith)).0.1 (le_lt_trans le (of_b.0 (omega arith))),
      positive,
    )
  where
    le_lt_trans : {m : ℕ} → a ≤ b → b < m → a < m
    le_lt_trans p q = omega arith

-- A larger payload never has a smaller field.
field_len_mono :
    (a b : ℕ) → a ≤ b → b ≤ u64_max → length_delimited_field_len a ≤ length_delimited_field_len b
unfolding length_delimited_field_len
field_len_mono a b le small = omega (arith, varint_len_mono a b le small)

field_len_le : (a : ℕ) → length_delimited_field_len a ≤ u64_max
unfolding length_delimited_field_len
field_len_le a = omega arith

-- A request with more encoded records is never estimated smaller.
encoded_len_mono :
    (sizer : ExportRequestSizer) (a b : ℕ) → a ≤ b → encoded_len sizer a ≤ encoded_len sizer b
unfolding encoded_len
encoded_len_mono sizer a b le =
    field_len_mono _ _
      (omega (
        arith,
        field_len_mono (sat_add sizer.scope_field_len a) (sat_add sizer.scope_field_len b)
            (omega arith) (omega arith),
      ))
      (omega arith)
