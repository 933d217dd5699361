-- ===== src/Daq/Alloc/Keeps.antt =====
-- Each allocation function keeps the DAQ memory well-formed, src/xcplite.c.
use xcplite.Prelude.{ℕ, ◌≤◌, inl, inr, arith}
use xcplite.State.{Xcp}
use xcplite.Daq.Alloc.{clear_daq, alloc_daq, alloc_odt, alloc_odt_entry}
use xcplite.Daq.Layout.{IsWf, empty_daq_lists-IsWf}
use xcplite.Daq.Alloc.Outcome.{outcome-alloc_daq, outcome-alloc_odt, outcome-alloc_odt_entry}
use xcplite.Daq.Alloc.Lists.{init_daq_lists-IsWf}
use xcplite.Daq.Alloc.Odts.{take_odts-IsWf}
use xcplite.Daq.Alloc.Entries.{take_entries-IsWf}

-- ALLOC_DAQ with a count that is not below the number of DAQ lists, accepted or refused, leaves
-- well-formed DAQ memory.
alloc_daq-IsWf :
    (n : ℕ) (x : Xcp)
    → IsWf x.daq_lists
    → x.daq_lists.daq_count ≤ n
    → IsWf (alloc_daq n x).1.daq_lists
alloc_daq-IsWf n x v h = elim (outcome-alloc_daq n x) [
  | inl same ↦ rw same v
  | inr (inl empty) ↦ rw empty empty_daq_lists-IsWf
  | inr (inr (e, none, no_entries, fits)) ↦
      rw e (init_daq_lists-IsWf n x.daq_lists v h none no_entries fits)
]

-- ALLOC_ODT, accepted or refused, leaves well-formed DAQ memory.
alloc_odt-IsWf :
    (daq count : ℕ) (x : Xcp) → IsWf x.daq_lists → IsWf (alloc_odt daq count x).1.daq_lists
alloc_odt-IsWf daq count x v = elim (outcome-alloc_odt daq count x) [
  | inl same ↦ rw same v
  | inr (inl empty) ↦ rw empty empty_daq_lists-IsWf
  | inr (inr (e, none, hd, hc, h, fits)) ↦
      rw e (take_odts-IsWf daq count x.daq_lists v none hd hc h (rw e at fits))
]

-- ALLOC_ODT_ENTRY, accepted or refused, leaves well-formed DAQ memory.
alloc_odt_entry-IsWf :
    (daq odt count : ℕ) (x : Xcp)
    → IsWf x.daq_lists
    → IsWf (alloc_odt_entry daq odt count x).1.daq_lists
alloc_odt_entry-IsWf daq odt count x v = elim (outcome-alloc_odt_entry daq odt count x) [
  | inl same ↦ rw same v
  | inr (inl empty) ↦ rw empty empty_daq_lists-IsWf
  | inr (inr (e, some_odts, hd, within, hc, h, fits)) ↦
      rw e
        (take_entries-IsWf _ count x.daq_lists v (ground (arith, v.lists daq)) hc h (rw e at fits))
]

-- What a sequence of allocation commands makes of a state.
pub data Allocations (x : Xcp) : Xcp → Type 0 where
  none_yet : Allocations x x
  then_daq :
      {y : Xcp} (n : ℕ)
      → Allocations x y
      → y.daq_lists.daq_count ≤ n
      → Allocations x (alloc_daq n y).1
  then_odt : {y : Xcp} (daq count : ℕ) → Allocations x y → Allocations x (alloc_odt daq count y).1
  then_odt_entry :
      {y : Xcp} (daq odt count : ℕ)
      → Allocations x y
      → Allocations x (alloc_odt_entry daq odt count y).1

-- From FREE_DAQ on, every sequence of ALLOC_DAQ with counts that are not below the number of DAQ lists
-- at that point, ALLOC_ODT and ALLOC_ODT_ENTRY, each accepted or refused, leaves well-formed DAQ memory.
pub clear_daq-Allocations-IsWf :
    (x : Xcp) {y : Xcp} → Allocations (clear_daq x) y → IsWf y.daq_lists
unfolding clear_daq
clear_daq-Allocations-IsWf x none_yet = empty_daq_lists-IsWf
clear_daq-Allocations-IsWf x (then_daq {y} n before h) =
    alloc_daq-IsWf n y (clear_daq-Allocations-IsWf x before) h
clear_daq-Allocations-IsWf x (then_odt {y} daq count before) =
    alloc_odt-IsWf daq count y (clear_daq-Allocations-IsWf x before)
clear_daq-Allocations-IsWf x (then_odt_entry {y} daq odt count before) =
    alloc_odt_entry-IsWf daq odt count y (clear_daq-Allocations-IsWf x before)
