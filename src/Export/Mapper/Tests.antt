-- ===== src/Export/Mapper/Tests.antt =====
-- Ids at concrete bytes.
use eden_logger.Trace.{hex_encode}
use eden_logger.Export.Mapper.{decode_hex_id}
use eden_logger.Export.Mapper.Ids.{decode_hex_id-hex_encode}
use eden_logger.Base.{◌≡◌, refl, some, [], ◌∷◌, arith}

decode_hex_id-hex_encode_example :
    decode_hex_id 3 (some (hex_encode (0 ∷ 171 ∷ 205 ∷ []))) ≡ some (0 ∷ 171 ∷ 205 ∷ [])
decode_hex_id-hex_encode_example =
    decode_hex_id-hex_encode (0 ∷ 171 ∷ 205 ∷ []) (omega arith, (omega arith, (omega arith, tt)))
      refl
