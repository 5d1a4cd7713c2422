-- ===== src/Base/Words.antt =====
-- Unsigned machine words: the largest values, saturating and wrapping arithmetic. `usize` has 64
-- bits.
use Prim.Native.Nat.{ℕ, ◌+◌, ◌-◌, ◌*◌, ◌%◌, min}

abbrev pub u64_mod : ℕ
u64_mod = 0x1_0000_0000_0000_0000

abbrev pub u64_max : ℕ
u64_max = 0xFFFF_FFFF_FFFF_FFFF

abbrev pub u128_max : ℕ
u128_max = 0xFFFF_FFFF_FFFF_FFFF_FFFF_FFFF_FFFF_FFFF

-- `u64::saturating_add` and `u64::saturating_mul`, on `usize` too
abbrev pub sat_add : ℕ → ℕ → ℕ
sat_add a b = min (a + b) u64_max

abbrev pub sat_mul : ℕ → ℕ → ℕ
sat_mul a b = min (a * b) u64_max

-- What `AtomicU64::fetch_add` and `fetch_sub` store: they wrap.
abbrev pub wrap_add : ℕ → ℕ → ℕ
wrap_add a b = (a + b) % u64_mod

abbrev pub wrap_sub : ℕ → ℕ → ℕ
wrap_sub a b = (a + u64_mod - b) % u64_mod
