-- ===== src/Daq/Trigger/Packets.antt =====
-- The packets of an event fill the buffers that are acquired for them.
use xcplite.Prelude.{
  ℕ, zero, suc, ◌+◌, ◌-◌, ◌≤◌, ◌<◌, ◌≡◌, refl, arith, Bool, true, false, length, length-append,
  ◌==◌, if◌then◌else◌,
}
use xcplite.Memory.{Bytes}
use xcplite.State.{DaqLists}
use xcplite.Daq.Tables.{first_odt, last_odt, first_odt_entry, last_odt_entry, entry_size}
use xcplite.Daq.Layout.{IsWf}
use xcplite.Daq.Entry.Sized.{IsSized, IsShort, sum_sizes}
use xcplite.Daq.Trigger.{copy_bytes, copy_entries, odt_header, odt_packet, buffer_size}

length-copy_bytes : (memory : Bytes) (src n : ℕ) → length (copy_bytes memory src n) ≡ n
unfolding copy_bytes
length-copy_bytes memory src zero = refl
length-copy_bytes memory src (suc n) = omega (arith, length-copy_bytes memory (src + 1) n)

module _ (memory : Bytes) (bases : ℕ → ℕ) (l : DaqLists) where
  length-copy_entries : (n e : ℕ) → length (copy_entries memory bases n l e) ≡ sum_sizes l e n
  unfolding copy_entries
  length-copy_entries zero e = refl
  length-copy_entries (suc n) e = omega (
    arith,
    length-append (copy_bytes memory _ (entry_size l e)) (copy_entries memory bases n l (e + 1)),
    length-copy_bytes memory _ (entry_size l e),
    length-copy_entries n (e + 1),
  )

  length-header :
      (daq odt clock : ℕ) (is_first : Bool)
      → length (odt_packet memory bases l daq odt clock is_first)
        ≡ sum_sizes l (first_odt_entry l odt) (last_odt_entry l odt + 1 - first_odt_entry l odt)
          + (if is_first then 8 else 4)
  unfolding odt_packet odt_header
  length-header daq odt clock true = omega (
    arith,
    length-copy_entries (last_odt_entry l odt + 1 - first_odt_entry l odt) (first_odt_entry l odt),
  )
  length-header daq odt clock false = omega (
    arith,
    length-copy_entries (last_odt_entry l odt + 1 - first_odt_entry l odt) (first_odt_entry l odt),
  )

  -- In a configuration that WRITE_DAQ has kept sized, the header and the copied entries of each ODT
  -- of a list make up exactly the buffer that is acquired for it, and that buffer is no longer than
  -- XCPTL_MAX_DTO_SIZE: the copy loop writes neither less nor more.
  pub length-odt_packet :
      (daq odt clock : ℕ)
      → IsWf l
      → IsSized l
      → IsShort l
      → 0 < l.odt_count
      → daq < l.daq_count
      → first_odt l daq ≤ odt
      → odt ≤ last_odt l daq
      → let is_first = odt == first_odt l daq in
        (length (odt_packet memory bases l daq odt clock is_first)
          ≡ buffer_size memory bases l odt is_first)
        × (buffer_size memory bases l odt is_first ≤ 1024)
  length-odt_packet daq odt clock v s short some_odts hd lo hi =
      ground
        (arith, length-header daq odt clock (odt == first_odt l daq), v.lists daq, s odt, short daq)
