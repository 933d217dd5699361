-- ===== src/Daq/Alloc/Outcome.antt =====
-- The tables that an allocation function can leave, src/xcplite.c.
use xcplite.Prelude.{ℕ, ◌+◌, ◌*◌, ◌≤◌, ◌<◌, ◌≡◌, ◌⊎◌, arith}
use xcplite.State.{Xcp}
use xcplite.Daq.Tables.{first_odt, last_odt}
use xcplite.Daq.Alloc.{
  empty_daq_lists, clear_daq, used_memory, check_memory, init_daq_lists, alloc_daq, take_odts,
  alloc_odt, take_entries, alloc_odt_entry,
}

-- What `XcpAllocDaq` leaves: the old tables, the empty ones, or `n` new DAQ lists.
pub outcome-alloc_daq :
    (n : ℕ) (x : Xcp)
    → let l = x.daq_lists in
      let l' = (alloc_daq n x).1.daq_lists in
      (l' ≡ l)
      ⊎ (l' ≡ empty_daq_lists)
      ⊎ ((l' ≡ init_daq_lists n (record l { daq_count = n }))
          × (l.odt_count ≡ 0)
          × (l.odt_entry_count ≡ 0)
          × (12 * n < 3072))
unfolding alloc_daq check_memory clear_daq
outcome-alloc_daq n x = ground arith

-- What `XcpAllocOdt` leaves.
pub outcome-alloc_odt :
    (daq count : ℕ) (x : Xcp)
    → let l = x.daq_lists in
      let l' = (alloc_odt daq count x).1.daq_lists in
      (l' ≡ l)
      ⊎ (l' ≡ empty_daq_lists)
      ⊎ ((l' ≡ take_odts daq count l)
          × (l.odt_entry_count ≡ 0)
          × (daq < l.daq_count)
          × (0 < count)
          × (l.odt_count + count < 65536)
          × (used_memory l' < 3072))
unfolding alloc_odt check_memory clear_daq
outcome-alloc_odt daq count x = ground arith

-- What `XcpAllocOdtEntry` leaves.
pub outcome-alloc_odt_entry :
    (daq odt count : ℕ) (x : Xcp)
    → let l = x.daq_lists in
      let l' = (alloc_odt_entry daq odt count x).1.daq_lists in
      (l' ≡ l)
      ⊎ (l' ≡ empty_daq_lists)
      ⊎ ((l' ≡ take_entries (first_odt l daq + odt) count l)
          × (0 < l.odt_count)
          × (daq < l.daq_count)
          × (first_odt l daq + odt ≤ last_odt l daq)
          × (0 < count)
          × (l.odt_entry_count + count < 65536)
          × (used_memory l' < 3072))
unfolding alloc_odt_entry check_memory clear_daq
outcome-alloc_odt_entry daq odt count x = ground arith

-- The whole state behind an allocation function: as before, freed, or with new tables.
pub cases-alloc_odt :
    (daq count : ℕ) (x : Xcp)
    → let y = record x { daq_lists = take_odts daq count x.daq_lists } in
      ((alloc_odt daq count x).1 ≡ x)
      ⊎ ((alloc_odt daq count x).1 ≡ clear_daq y)
      ⊎ (((alloc_odt daq count x).1 ≡ y) × (daq < x.daq_lists.daq_count))
unfolding alloc_odt check_memory
cases-alloc_odt daq count x = ground arith

pub cases-alloc_odt_entry :
    (daq odt count : ℕ) (x : Xcp)
    → let k = first_odt x.daq_lists daq + odt in
      let y = record x { daq_lists = take_entries k count x.daq_lists } in
      ((alloc_odt_entry daq odt count x).1 ≡ x)
      ⊎ ((alloc_odt_entry daq odt count x).1 ≡ clear_daq x)
      ⊎ ((alloc_odt_entry daq odt count x).1 ≡ clear_daq y)
      ⊎ ((alloc_odt_entry daq odt count x).1 ≡ y)
unfolding alloc_odt_entry check_memory
cases-alloc_odt_entry daq odt count x = ground arith
