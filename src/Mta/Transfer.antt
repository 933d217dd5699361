-- ===== src/Mta/Transfer.antt =====
-- What DOWNLOAD writes and UPLOAD reads, src/xcplite.c.
use mathlib.Core.Path.{ap}
use xcplite.Prelude.{
  ℕ, zero, suc, ◌+◌, ◌^◌, ◌≤◌, ◌<◌, ◌≡◌, refl, arith, List, [], ◌∷◌, length, get_or,
}
use xcplite.Config.{crc_cmd_ok, crc_access_denied, xcp_addr_ext_abs, xcp_addr_ext_seg}
use xcplite.Memory.{Bytes}
use xcplite.Mta.{Backend, Mta, read_bytes, write_bytes, write_mta, read_mta, set_mta}

-- Reading `n` bytes where every one is known.
pub read_bytes-get_or :
    (m : Bytes) (p : ℕ) (bytes : List ℕ)
    → ((k : ℕ) → k < length bytes → m (p + k) ≡ get_or bytes k 0)
    → read_bytes m p (length bytes) ≡ bytes
unfolding read_bytes
read_bytes-get_or m p [] h = refl
read_bytes-get_or m p (x ∷ xs) h =
    ground (arith, h 0, read_bytes-get_or m (p + 1) xs (λ k lt. ground (arith, h (suc k))))

read_bytes-write_bytes :
    (m : Bytes) (p : ℕ) (bytes : List ℕ)
    → read_bytes (write_bytes m p bytes) p (length bytes) ≡ bytes
unfolding write_bytes
read_bytes-write_bytes m p bytes =
    read_bytes-get_or (write_bytes m p bytes) p bytes (λ k lt. ground arith)

pub length-read_bytes : (m : Bytes) (p n : ℕ) → length (read_bytes m p n) ≡ n
unfolding read_bytes
length-read_bytes m p zero = refl
length-read_bytes m p (suc n) = omega (arith, length-read_bytes m (p + 1) n)

-- a byte and then the bytes stored behind it
pub read_bytes-behind :
    (m : Bytes) (bytes : List ℕ)
    → read_bytes (write_bytes m 1 bytes) 0 (suc (length bytes)) ≡ m 0 ∷ bytes
unfolding read_bytes write_bytes
read_bytes-behind m bytes = ap (λ xs. m 0 ∷ xs) (read_bytes-write_bytes m 1 bytes)

module _ (b : Backend) where
  open b use {World}

  -- After SET_MTA to an absolute address that is not the null pointer and does
  -- not wrap around, DOWNLOAD of bytes succeeds,
  -- and UPLOAD of as many bytes from the same address returns them; the bytes outside the block
  -- keep their values.
  pub write_mta-read_mta :
      (addr : ℕ) (bytes : List ℕ) (m : Mta) (w : World)
      → 0 < b.base_addr + addr
      → b.base_addr + addr < 2 ^ 64
      → let (r0, m0) = set_mta b xcp_addr_ext_abs addr m in
        let (r1, m1, w1) = write_mta b bytes m0 w in
        let (r2, m2) = set_mta b xcp_addr_ext_abs addr m1 in
        let (r3, back, m3) = read_mta b (length bytes) m2 w1 in
        (r1 ≡ crc_cmd_ok)
        × (r3 ≡ crc_cmd_ok)
        × (back ≡ bytes)
        × ((i : ℕ) → i < b.base_addr + addr → m3.memory i ≡ m.memory i)
        × ((i : ℕ) → b.base_addr + addr + length bytes ≤ i → m3.memory i ≡ m.memory i)
  unfolding set_mta write_mta read_mta
  write_mta-read_mta addr bytes m w h k =
      ground (arith, read_bytes-write_bytes m.memory (b.base_addr + addr) bytes)

  -- SET_MTA with the segment extension and an address below 0x80000000 is accepted, and every
  -- UPLOAD and DOWNLOAD behind it is denied and leaves memory, MTA and segments as they are.
  pub set_mta_seg_denied :
      (addr size : ℕ) (bytes : List ℕ) (m : Mta) (w : World)
      → addr < 0x80000000
      → let (r0, m0) = set_mta b xcp_addr_ext_seg addr m in
        (r0 ≡ crc_cmd_ok)
        × (read_mta b size m0 w ≡ (crc_access_denied, [], m0))
        × (write_mta b bytes m0 w ≡ (crc_access_denied, m0, w))
        × (m0.memory ≡ m.memory)
  unfolding set_mta write_mta read_mta
  set_mta_seg_denied addr size bytes m w h = ground arith
