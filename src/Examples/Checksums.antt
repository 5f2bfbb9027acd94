-- ===== src/Examples/Checksums.antt =====
-- Runs of the checksums.
use lateral_root.Prelude.{ℕ, ◌/◌, ◌%◌, ◌≡◌, ◌≢◌, refl, some, List, [], ◌∷◌, ◌++◌, arith}
use lateral_root.Crc.{calculate_crc8, calculate_crc16, crc16_loop, crc16_round, crc16_table}
use lateral_root.Crc.Shifts.{polynomial_8, polynomial_16}
use lateral_root.Crc.Bitwise.{bitwise_crc, calculate_crc-bitwise}
use lateral_root.Crc.Detect.{calculate_crc-one_byte, calculate_crc-residue}

-- The header of a frame with 20 bytes of data, and the usual test text "123456789".
abbrev header : List ℕ
header = 0xa5 ∷ 20 ∷ 0 ∷ 7 ∷ []

abbrev digits : List ℕ
digits = 0x31 ∷ 0x32 ∷ 0x33 ∷ 0x34 ∷ 0x35 ∷ 0x36 ∷ 0x37 ∷ 0x38 ∷ 0x39 ∷ []

-- The checksum of the test text under this polynomial and start value is known.
crc16_digits : calculate_crc16 (some digits) 0xffff ≡ 0x6f91
unfolding calculate_crc16 crc16_loop crc16_round crc16_table
crc16_digits = refl

calculate_crc-bitwise_example :
    (calculate_crc8 (some header) 0xff ≡ bitwise_crc polynomial_8 header 0xff)
    × (calculate_crc16 (some header) 0xffff ≡ bitwise_crc polynomial_16 header 0xffff)
calculate_crc-bitwise_example = calculate_crc-bitwise header 0xff 0xffff (omega arith) (omega arith)

calculate_crc-one_byte_example :
    (calculate_crc8 (some ((0xa5 ∷ []) ++ 20 ∷ 0 ∷ 7 ∷ [])) 0xff
      ≢ calculate_crc8 (some ((0xa5 ∷ []) ++ 21 ∷ 0 ∷ 7 ∷ [])) 0xff)
    × (calculate_crc16 (some ((0xa5 ∷ []) ++ 20 ∷ 0 ∷ 7 ∷ [])) 0xffff
        ≢ calculate_crc16 (some ((0xa5 ∷ []) ++ 21 ∷ 0 ∷ 7 ∷ [])) 0xffff)
calculate_crc-one_byte_example =
    calculate_crc-one_byte (0xa5 ∷ []) (0 ∷ 7 ∷ []) 20 21 0xff 0xffff (omega arith) (omega arith)
      (omega arith) (omega arith) (omega arith)

calculate_crc-residue_example :
    let crc8 = calculate_crc8 (some header) 0xff in
    let crc16 = calculate_crc16 (some header) 0xffff in
    (calculate_crc8 (some (header ++ crc8 ∷ [])) 0xff ≡ 0)
    × (calculate_crc16 (some (header ++ (crc16 % 256) ∷ (crc16 / 256) ∷ [])) 0xffff ≡ 0)
calculate_crc-residue_example = calculate_crc-residue header 0xff 0xffff (omega arith) (omega arith)
