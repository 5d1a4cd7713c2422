-- ===== src/Export/Mapper/Ids.antt =====
-- The exporter reads back the ids that the logger writes.
use eden_logger.Base.{checked, checked-at}
use eden_logger.Trace.{hex_char, hex_encode}
use eden_logger.Export.Mapper.{hex_nibble, decode_pair, decode_pairs, nonzero, decode_hex_id}
use eden_logger.Base.{
  ℕ, ◌*◌, ◌/◌, ◌%◌, ◌<◌, ◌≡◌, refl, ap, Bool, true, false, Option, none, some, List, [], ◌∷◌, arith,
  ◌==◌, ==_iff, length, all, All,
}

is_byte : Option ℕ → ℕ → Bool
is_byte none b = false
is_byte (some c) b = c == b

is_byte→eq : (o : Option ℕ) (b : ℕ) → is_byte o b ≡ true → o ≡ some b
unfolding is_byte
is_byte→eq none b h = ground arith
is_byte→eq (some c) b h = ap some ((==_iff c b).0 h)

pair_table :
    checked (λ b. is_byte (decode_pair (hex_char (b / 16)) (hex_char (b % 16))) b) 256 ≡ true
unfolding checked is_byte decode_pair hex_nibble hex_char
pair_table = refl

decode_pair-hex_char :
    (b : ℕ) → b < 256 → decode_pair (hex_char (b / 16)) (hex_char (b % 16)) ≡ some b
decode_pair-hex_char b small = is_byte→eq _ b (checked-at _ b small pair_table)

decode_pairs-hex_encode :
    (bytes : List ℕ) → All (λ b. b < 256) bytes → decode_pairs (hex_encode bytes) ≡ some bytes
unfolding decode_pairs hex_encode
decode_pairs-hex_encode [] small = refl
decode_pairs-hex_encode (b ∷ bytes) small =
    rw (decode_pair-hex_char b small.0, decode_pairs-hex_encode bytes small.1) refl

length-hex_encode : (bytes : List ℕ) → length (hex_encode bytes) ≡ length bytes * 2
unfolding hex_encode
length-hex_encode [] = refl
length-hex_encode (b ∷ bytes) = omega (arith, length-hex_encode bytes)

-- The id that the logger writes for some bytes, not all of them zero, is read back by the exporter
-- as those bytes.
pub decode_hex_id-hex_encode :
    (bytes : List ℕ)
    → All (λ b. b < 256) bytes
    → all (λ b. b == 0) bytes ≡ false
    → decode_hex_id (length bytes) (some (hex_encode bytes)) ≡ some bytes
unfolding decode_hex_id nonzero
decode_hex_id-hex_encode bytes small valid =
    rw
      (
        length-hex_encode bytes,
        (==_iff (length bytes * 2) _).1 refl,
        decode_pairs-hex_encode bytes small,
        valid,
      )
      refl
