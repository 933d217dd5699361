-- ===== src/Mta/Crc.antt =====
-- The checksum of a block of memory, `calcChecksum` of src/xcplite.c.
use xcplite.Prelude.{ℕ, zero, suc, ◌+◌, ◌^◌, ◌<◌, ◌≡◌, arith, some, List, [], ◌∷◌}
use xcplite.Config.{crc_cmd_ok, xcp_addr_ext_ptr}
use xcplite.Checksum.{crc16_step}
use xcplite.Checksum.Bitwise.{crc16_bitwise, crc16_step-bitwise, crc16_step-word}
use xcplite.Mta.{Backend, Mta, read_bytes, read_mta, calc_checksum_from, calc_checksum}

-- The CRC-16/CCITT of bytes, bit by bit.
abbrev pub crc16_ccitt : ℕ → List ℕ → ℕ
crc16_ccitt s [] = s
crc16_ccitt s (x ∷ xs) = crc16_ccitt (crc16_bitwise s x) xs

module _ (b : Backend) where
  open b use {World}

  read_one :
      (m : Mta) (w : World)
      → m.mta_ext ≡ xcp_addr_ext_ptr
      → 0 < m.mta_ptr
      → m.mta_ptr + 1 < 2 ^ 64
      → read_mta b 1 m w
        ≡ (crc_cmd_ok, m.memory m.mta_ptr ∷ [], record m { mta_ptr = m.mta_ptr + 1 })
  unfolding read_mta read_bytes
  read_one m w e p q = ground arith

  checksum_from-bitwise :
      (n value sum : ℕ) (m : Mta) (w : World)
      → m.mta_ext ≡ xcp_addr_ext_ptr
      → 0 < m.mta_ptr
      → m.mta_ptr + n < 2 ^ 64
      → ((i : ℕ) → m.memory i < 256)
      → sum < 65536
      → calc_checksum_from b n value sum m w ≡ (
        crc_cmd_ok,
        crc16_ccitt sum (read_bytes m.memory m.mta_ptr n),
        record m { mta_ptr = m.mta_ptr + n },
      )
  unfolding calc_checksum_from read_bytes
  checksum_from-bitwise zero value sum m w e p q bytes h = ground arith
  checksum_from-bitwise (suc n) value sum m w e p q bytes h = ground (
    arith,
    read_one m w e p,
    bytes m.mta_ptr,
    crc16_step-bitwise sum (m.memory m.mta_ptr) h,
    crc16_step-word sum (m.memory m.mta_ptr) h,
    checksum_from-bitwise n (m.memory m.mta_ptr) (crc16_step sum (m.memory m.mta_ptr))
        (record m { mta_ptr = m.mta_ptr + 1 }) w e,
  )

  -- With the MTA at a block of byte memory that is not empty, not at the null pointer and without
  -- wrap-around of the address, the assertion of calcChecksum holds and it succeeds: it returns the
  -- bitwise CRC-16/CCITT, begun at 0xFFFF, of the bytes of the block, and leaves the MTA behind the
  -- block.
  pub calc_checksum-bitwise :
      (n : ℕ) (m : Mta) (w : World)
      → 0 < n
      → m.mta_ext ≡ xcp_addr_ext_ptr
      → 0 < m.mta_ptr
      → m.mta_ptr + n < 2 ^ 64
      → ((i : ℕ) → m.memory i < 256)
      → calc_checksum b n m w
        ≡ some (
          crc_cmd_ok,
          crc16_ccitt 0xffff (read_bytes m.memory m.mta_ptr n),
          record m { mta_ptr = m.mta_ptr + n },
        )
  unfolding calc_checksum
  calc_checksum-bitwise n m w some_bytes e p q bytes =
      ground (arith, some_bytes, checksum_from-bitwise n 0 0xffff m w e p q bytes (omega arith))
