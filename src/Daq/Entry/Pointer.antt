-- ===== src/Daq/Entry/Pointer.antt =====
-- SET_DAQ_PTR, `XcpSetDaqPtr` of src/xcplite.c.
use xcplite.Prelude.{ℕ, ◌+◌, ◌≤◌, ◌<◌, ◌≡◌, ◌⊎◌, arith, true, false}
use xcplite.State.{Xcp, is_daq_running}
use xcplite.Config.{crc_cmd_ok, crc_daq_active, crc_out_of_range}
use xcplite.Daq.Tables.{first_odt, last_odt, first_odt_entry, last_odt_entry}
use xcplite.Daq.Layout.{IsWf}
use xcplite.Daq.Entry.{set_daq_ptr}
use xcplite.Daq.Entry.Sized.{IsCursor}

-- What SET_DAQ_PTR makes of `x`.
abbrev pub PointsAt : ℕ → ℕ → ℕ → Xcp → Type 0
PointsAt daq odt idx x =
    let l = x.daq_lists in
    let odt0 = first_odt l daq + odt in
    let (r, x') = set_daq_ptr daq odt idx x in
    ((r ≡ crc_cmd_ok)
      × (daq < l.daq_count)
      × (odt0 ≤ last_odt l daq)
      × (first_odt_entry l odt0 + idx ≤ last_odt_entry l odt0)
      × (is_daq_running x ≡ false)
      × IsCursor x'
      × (x'.write_daq_daq ≡ daq)
      × (x'.write_daq_odt ≡ odt0)
      × (x'.write_daq_odt_entry ≡ first_odt_entry l odt0 + idx)
      × (x'.daq_lists ≡ l))
    ⊎ ((x' ≡ x)
        × (((r ≡ crc_out_of_range)
              × ((l.daq_count ≤ daq)
                  ⊎ (last_odt l daq < odt0)
                  ⊎ (last_odt_entry l odt0 < first_odt_entry l odt0 + idx)))
            ⊎ ((r ≡ crc_daq_active) × (is_daq_running x ≡ true))))

-- SET_DAQ_PTR on a well-formed configuration is accepted exactly for an ODT within the list's
-- range and an entry within the ODT's range while data acquisition is stopped; it then points at
-- that entry, and otherwise changes nothing.
pub set_daq_ptr_lem :
    (daq odt idx : ℕ) (x : Xcp)
    → IsWf x.daq_lists
    → 0 < x.daq_lists.odt_count
    → PointsAt daq odt idx x
unfolding set_daq_ptr
set_daq_ptr_lem daq odt idx x v some_odts =
    ground (arith, v.fits, v.lists daq, v.odts (first_odt x.daq_lists daq + odt))

pub set_daq_ptr-tables :
    (daq odt idx : ℕ) (x : Xcp)
    → let x' = (set_daq_ptr daq odt idx x).1 in
      (x'.daq_lists ≡ x.daq_lists) × (x'.events ≡ x.events) × (x'.event_count ≡ x.event_count)
unfolding set_daq_ptr
set_daq_ptr-tables daq odt idx x = ground arith
