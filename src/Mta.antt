-- ===== src/Mta.antt =====
-- The memory transfer address, src/xcplite.c: `XcpWriteMta`, `XcpReadMta`, `XcpSetMta` and the loop
-- of `calcChecksum`. The calibration segments (src/cal.c) and the callbacks of the application
-- (src/xcpappl.c) are the operations of a `Backend`.
pub mod Transfer
pub mod Crc
use xcplite.Prelude.{
  ℕ, zero, suc, ◌+◌, ◌-◌, ◌*◌, ◌/◌, ◌%◌, ◌^◌, ◌&&◌, Option, none, some, List, [], ◌∷◌,
}
use xcplite.Prelude.{ltb, leb, ◌==◌, if◌then◌else◌, length, get_or}
use xcplite.Config.{
  crc_cmd_ok, crc_access_denied, crc_out_of_range, xcp_addr_ext_abs, xcp_addr_ext_ptr,
  xcp_addr_ext_file,
}
use xcplite.Memory.{Bytes}
use xcplite.Daq.Address.{is_seg, is_abs, is_dyn, is_app}
use xcplite.Checksum.{crc16_step}

-- What answers the accesses that are not by pointer. A reader returns its code and the bytes.
pub record Backend : Type 1 where
  pub World : Type 0
  -- XcpCalSegWriteMemory and XcpCalSegReadMemory
  pub write_segment : ℕ → List ℕ → World → ℕ × World
  pub read_segment : ℕ → ℕ → World → ℕ × List ℕ
  -- ApplXcpWriteMemory and ApplXcpReadMemory
  pub write_app : ℕ → List ℕ → World → ℕ × World
  pub read_app : ℕ → ℕ → World → ℕ × List ℕ
  -- ApplXcpReadFile
  pub read_file : ℕ → ℕ → Option (List ℕ)
  -- ApplXcpGetBaseAddr and ApplXcpCheckMemory
  pub base_addr : ℕ
  pub check_memory : ℕ → ℕ → ℕ → ℕ

-- `mta_ptr`, `mta_addr` and `mta_ext` of `tXcpLocalData`, and the memory that the pointer reaches;
-- the address 0 is NULL.
pub record Mta : Type 0 where
  pub mta_ptr : ℕ
  pub mta_addr : ℕ
  pub mta_ext : ℕ
  pub memory : Bytes

-- the `n` bytes at `p`
unfoldable pub read_bytes : Bytes → ℕ → ℕ → List ℕ
read_bytes m p zero = []
read_bytes m p (suc n) = m p ∷ read_bytes m (p + 1) n

-- the memory with `bytes` stored at `p`
unfoldable pub write_bytes : Bytes → ℕ → List ℕ → Bytes
write_bytes m p bytes i =
    if leb p i && ltb i (p + length bytes) then get_or bytes (i - p) 0 else m i

-- mta_addr += size, on uint32_t
abbrev pub advance_addr : ℕ → Mta → Mta
advance_addr size m = record m { mta_addr = (m.mta_addr + size) % 4294967296 }

abbrev pub advance_ptr : ℕ → Mta → Mta
advance_ptr size m = record m { mta_ptr = (m.mta_ptr + size) % 2 ^ 64 }

module _ (b : Backend) where
  open b use {World}

  -- `XcpWriteMta`: the stores of 1, 2, 4 and 8 bytes and the memcpy write the same bytes.
  unfoldable pub write_mta : List ℕ → Mta → World → ℕ × Mta × World
  unfolding write_bytes
  write_mta bytes m w =
      let size = length bytes in
      if is_seg m.mta_ext
      then (let (res, w') = b.write_segment m.mta_addr bytes w in (res, advance_addr size m, w'))
      else if is_app m.mta_ext
      then (let (res, w') = b.write_app m.mta_addr bytes w in (res, advance_addr size m, w'))
      else if m.mta_ext == xcp_addr_ext_ptr
      then (if m.mta_ptr == 0 then (crc_access_denied, m, w) else (
        crc_cmd_ok,
        advance_ptr size (record m { memory = write_bytes m.memory m.mta_ptr bytes }),
        w,
      ))
      else (crc_access_denied, m, w)

  -- `XcpReadMta`: the code, the bytes that are written to `bytes`, and the new MTA.
  unfoldable pub read_mta : ℕ → Mta → World → ℕ × List ℕ × Mta
  unfolding read_bytes
  read_mta size m w =
      if is_seg m.mta_ext
      then (let (res, bytes) = b.read_segment m.mta_addr size w in
          (res, bytes, advance_addr size m))
      else if is_app m.mta_ext
      then (let (res, bytes) = b.read_app m.mta_addr size w in (res, bytes, advance_addr size m))
      else if m.mta_ext == xcp_addr_ext_ptr
      then (if m.mta_ptr == 0
          then (crc_access_denied, [], m)
          else (crc_cmd_ok, read_bytes m.memory m.mta_ptr size, advance_ptr size m))
      else if m.mta_ext == xcp_addr_ext_file
      then elim (b.read_file size m.mta_addr) [
        | none ↦ (crc_access_denied, [], m)
        | some bytes ↦ (crc_cmd_ok, bytes, advance_addr size m)
      ]
      else (crc_access_denied, [], m)

  -- `XcpSetMta`
  unfoldable pub set_mta : ℕ → ℕ → Mta → ℕ × Mta
  set_mta ext addr m0 =
      let m = record m0 { mta_ext = ext; mta_addr = addr; mta_ptr = 0 } in
      if is_dyn ext
      then (crc_cmd_ok, m)
      else if is_seg ext
      then (if ltb addr 0x80000000
          then (crc_cmd_ok, record m { mta_ext = xcp_addr_ext_abs })
          else (crc_cmd_ok, m))
      else if is_app ext
      then (crc_cmd_ok, m)
      else if is_abs ext
      then (
        b.check_memory xcp_addr_ext_ptr addr 0,
        record m { mta_ptr = (b.base_addr + addr) % 2 ^ 64; mta_ext = xcp_addr_ext_ptr },
      )
      else (crc_out_of_range, m)

  -- The loop of `calcChecksum`, `n` rounds left: `value` keeps its byte where nothing is read.
  pub calc_checksum_from : ℕ → ℕ → ℕ → Mta → World → ℕ × ℕ × Mta
  unfolding read_mta
  calc_checksum_from zero value sum m w = (crc_cmd_ok, sum, m)
  calc_checksum_from (suc n) value sum m w =
      let (res, bytes, m') = read_mta 1 m w in
      let byte = get_or bytes 0 value in
      let rest = calc_checksum_from n byte (crc16_step sum byte) m' w in
      if res == crc_cmd_ok then rest else (res, sum, m')

  -- `calcChecksum`; `none`: the assertion fails that the size is not 0.
  unfoldable pub calc_checksum : ℕ → Mta → World → Option (ℕ × ℕ × Mta)
  calc_checksum size m w =
      let result = calc_checksum_from size 0 0xffff m w in if ltb 0 size then some result else none
