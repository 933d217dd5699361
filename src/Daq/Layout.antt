-- ===== src/Daq/Layout.antt =====
-- The well-formedness of the DAQ memory of `tXcpDaqLists`, src/xcplite.h.
use xcplite.Prelude.{ℕ, ◌+◌, ◌*◌, ◌≤◌, ◌<◌, ◌≡◌, refl, ◌⊎◌, arith}
use xcplite.Memory.{get16, cleared}
use xcplite.State.{DaqLists}
use xcplite.Daq.Tables.{first_odt, last_odt, first_odt_entry, last_odt_entry}
use xcplite.Daq.Alloc.{empty_daq_lists}

-- Every table lies in the memory, every DAQ list names ODTs of the ODT table, every ODT names
-- entries of the entry tables, and before the first entry what follows the ODTs is zero.
-- A DAQ list without ODTs reads as the one ODT 0, an ODT without entries as the one entry 0.
pub record IsWf (l : DaqLists) : Type 0 where
  pub fits : 12 * l.daq_count + 8 * l.odt_count + 6 * l.odt_entry_count < 3072
  pub has_lists : 0 < l.odt_count → 0 < l.daq_count
  pub has_odts : 0 < l.odt_entry_count → 0 < l.odt_count
  pub lists :
      (daq : ℕ)
      → daq < l.daq_count
      → (first_odt l daq ≤ last_odt l daq) × ((last_odt l daq ≡ 0) ⊎ (last_odt l daq < l.odt_count))
  pub odts :
      (odt : ℕ)
      → odt < l.odt_count
      → (first_odt_entry l odt ≤ last_odt_entry l odt)
        × ((last_odt_entry l odt ≡ 0) ⊎ (last_odt_entry l odt < l.odt_entry_count))
  pub fresh : l.odt_entry_count ≡ 0 → (i : ℕ) → 12 * l.daq_count + 8 * l.odt_count ≤ i → l.mem i ≡ 0

pub empty_daq_lists-IsWf : IsWf empty_daq_lists
unfolding cleared
empty_daq_lists-IsWf = record {
  fits = omega arith;
  has_lists = λ h. h;
  has_odts = λ h. absurd (omega arith);
  lists = λ d h. absurd (omega arith);
  odts = λ o h. absurd (omega arith);
  fresh = λ e i h. refl;
}

-- Where there are no ODTs, what follows the DAQ lists reads as lists without ODTs.
pub fresh_odts :
    (l : DaqLists)
    → IsWf l
    → (daq : ℕ) → l.odt_count ≡ 0
    → l.odt_entry_count ≡ 0
    → l.daq_count ≤ daq
    → (first_odt l daq ≡ 0) × (last_odt l daq ≡ 0)
unfolding get16
fresh_odts l v daq none no_entries h = ground (
  arith,
  v.fresh no_entries (12 * daq),
  v.fresh no_entries (12 * daq + 1),
  v.fresh no_entries (12 * daq + 2),
  v.fresh no_entries (12 * daq + 3),
)

-- Before the first entry, what follows the ODTs reads as ODTs without entries.
pub fresh_entries :
    (l : DaqLists)
    → IsWf l
    → (odt : ℕ) → l.odt_entry_count ≡ 0
    → l.odt_count ≤ odt
    → (first_odt_entry l odt ≡ 0) × (last_odt_entry l odt ≡ 0)
unfolding get16
fresh_entries l v odt none h = ground (
  arith,
  v.fresh none (12 * l.daq_count + 8 * odt),
  v.fresh none (12 * l.daq_count + 8 * odt + 1),
  v.fresh none (12 * l.daq_count + 8 * odt + 2),
  v.fresh none (12 * l.daq_count + 8 * odt + 3),
)
