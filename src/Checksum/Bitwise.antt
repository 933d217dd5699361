-- ===== src/Checksum/Bitwise.antt =====
-- The table-driven CRC of src/xcplite.c against the bitwise CRC-16/CCITT.
use xcplite.Prelude.{
  subst, ℕ, zero, suc, ◌+◌, ◌*◌, ◌/◌, ◌%◌, ◌<◌, ◌≡◌, refl, true, bit_xor, get_or, passes_below,
  passes_below-at, arith,
}
use xcplite.Prelude.{ltb, leb, ◌==◌, if◌then◌else◌, ==_iff, ltb→lt}
use xcplite.Checksum.{crc16_table, crc16_step}

-- One bit: shift, and where a bit falls out at the top, add the polynomial 0x1021.
abbrev pub crc16_bit : ℕ → ℕ
crc16_bit s = if leb 0x8000 s then bit_xor (s * 2 % 65536) 0x1021 else s * 2

abbrev pub crc16_bits : ℕ → ℕ → ℕ
crc16_bits zero s = s
crc16_bits (suc n) s = crc16_bits n (crc16_bit s)

agrees_table :
    passes_below
      (λ h.
        passes_below
          (λ l. bit_xor (get_or crc16_table h 0) (l * 256) == crc16_bits 8 (h * 256 + l))
          256)
      256
    ≡ true
unfolding passes_below
agrees_table = refl

byte_table : passes_below (λ a. passes_below (λ b. ltb (bit_xor a b) 256) 256) 256 ≡ true
unfolding passes_below
byte_table = refl

bit_xor-byte : (a b : ℕ) → a < 256 → b < 256 → bit_xor a b < 256
bit_xor-byte a b h k = ltb→lt _ _ (
    passes_below-at (λ b. ltb (bit_xor a b) 256) 256 b
      (passes_below-at (λ a. passes_below (λ b. ltb (bit_xor a b) 256) 256) 256 a byte_table h) k)

agrees :
    (h l : ℕ)
    → h < 256
    → l < 256
    → bit_xor (get_or crc16_table h 0) (l * 256) ≡ crc16_bits 8 (h * 256 + l)
agrees h l p q = (==_iff _ _).0 (
    passes_below-at (λ l. bit_xor (get_or crc16_table h 0) (l * 256) == crc16_bits 8 (h * 256 + l))
      256 l
      (passes_below-at
        (λ h.
          passes_below
            (λ l. bit_xor (get_or crc16_table h 0) (l * 256) == crc16_bits 8 (h * 256 + l)) 256)
        256 h agrees_table p)
      q)

-- The byte goes into the high byte of the register, and eight bits are shifted out.
abbrev pub crc16_bitwise : ℕ → ℕ → ℕ
crc16_bitwise s value = crc16_bits 8 (bit_xor (s / 256) value * 256 + s % 256)

-- One lookup in the table of 256 words does what the eight bitwise steps of CRC-16/CCITT do, for
-- every 16 bit register and every byte.
pub crc16_step-bitwise :
    (s value : ℕ) → s < 65536 → value < 256 → crc16_step s value ≡ crc16_bitwise s value
unfolding crc16_step
crc16_step-bitwise s value h k =
    subst (λ x. bit_xor (get_or crc16_table (bit_xor (s / 256) value) 0) x ≡ crc16_bitwise s value)
      shifted (agrees (bit_xor (s / 256) value) (s % 256) (bit_xor-byte _ _ high k) (omega arith))
  where
    high : s / 256 < 256
    high = omega arith

    shifted : s % 256 * 256 ≡ s * 256 % 65536
    shifted = omega arith

word_table :
    passes_below
      (λ h. passes_below (λ l. ltb (bit_xor (get_or crc16_table h 0) (l * 256)) 65536) 256)
      256
    ≡ true
unfolding passes_below
word_table = refl

pub crc16_step-word : (s value : ℕ) → s < 65536 → value < 256 → crc16_step s value < 65536
unfolding crc16_step
crc16_step-word s value h k =
    subst (λ x. bit_xor (get_or crc16_table (bit_xor (s / 256) value) 0) x < 65536) (omega arith)
      (ltb→lt _ _ (
        passes_below-at
          (λ l. ltb (bit_xor (get_or crc16_table (bit_xor (s / 256) value) 0) (l * 256)) 65536) 256
          (s % 256)
          (passes_below-at
            (λ h. passes_below (λ l. ltb (bit_xor (get_or crc16_table h 0) (l * 256)) 65536) 256)
            256 (bit_xor (s / 256) value) word_table (bit_xor-byte _ _ (omega arith) k))
          (omega arith)))
