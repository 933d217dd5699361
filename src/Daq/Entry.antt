-- ===== src/Daq/Entry.antt =====
-- Writing ODT entries, src/xcplite.c: `XcpSetDaqPtr`, `XcpSetOdtSize`, `XcpAddOdtEntry` and the
-- loop of WRITE_DAQ_MULTIPLE.
pub mod Written
pub mod Sized
pub mod Cursor
pub mod Running
pub mod Pointer
pub mod Empty
use xcplite.Prelude.{ℕ, zero, suc, ◌+◌, ◌-◌, ◌*◌, ◌%◌, not, ◌&&◌, ◌||◌, Bool, List, [], ◌∷◌}
use xcplite.Prelude.{ltb, leb, ◌==◌, if◌then◌else◌, Option, none, some}
use xcplite.Config.{
  crc_cmd_ok, crc_sequence, crc_out_of_range, crc_daq_config, crc_daq_active, crc_access_denied,
  xcp_max_odt_entry_size, xcp_undefined_event_id, xcptl_max_dto_size, odt_header_size,
}
use xcplite.State.{DaqLists, Xcp, is_daq_running}
use xcplite.Daq.Tables.{
  first_odt, event_channel, set_event_channel, first_odt_entry, last_odt_entry, odt_size,
  set_odt_size, entry_size, set_entry_addr, set_entry_size, set_entry_ext, beyond_odts,
  beyond_entries,
}
use xcplite.Daq.Address.{is_abs, is_dyn, is_app, decode_dyn_event, decode_dyn_offset}
use xcplite.Daq.Alloc.{clear_daq}

pub set_daq_ptr : ℕ → ℕ → ℕ → Xcp → ℕ × Xcp
unfolding is_daq_running
set_daq_ptr daq odt idx x =
    let l = x.daq_lists in
    let odt0 = (first_odt l daq + odt) % 65536 in
    if leb l.daq_count daq || beyond_odts l daq odt
    then (crc_out_of_range, x)
    else if is_daq_running x
    then (crc_daq_active, x)
    else if beyond_entries l odt0 idx
    then (crc_out_of_range, x)
    else (
      crc_cmd_ok,
      record x {
        write_daq_odt_entry = (first_odt_entry l odt0 + idx) % 65536;
        write_daq_odt = odt0;
        write_daq_daq = daq;
      },
    )

-- The payload that fits an ODT: the first one of a list carries the timestamp too.
abbrev pub max_odt_size : DaqLists → ℕ → ℕ → ℕ
max_odt_size l daq odt =
    let daq_odt = (odt + 65536 - first_odt l daq) % 65536 in
    xcptl_max_dto_size - odt_header_size - (if daq_odt == 0 then 4 else 0)

-- (uint16_t)(odt.size - old size of the entry + its new size): entries may be rewritten.
abbrev pub size_after : DaqLists → ℕ → ℕ → ℕ → ℕ
size_after l odt e size = (odt_size l odt + 65536 - entry_size l e + size) % 65536

-- `XcpSetOdtSize`: `none` is `return false`.
unfoldable pub checked_odt_size : ℕ → ℕ → ℕ → DaqLists → Option DaqLists
checked_odt_size daq odt size l =
    if ltb (max_odt_size l daq odt) size then none else some (set_odt_size l odt size)

-- Where an entry lies and which event its list is then bound to: the address decoding in the
-- middle of `XcpAddOdtEntry`.
pub data Decoded : Type 0 where
  refused : ℕ → Decoded
  decoded : ℕ → ℕ → Decoded

unfoldable pub decode_entry : DaqLists → ℕ → ℕ → ℕ → Decoded
decode_entry l daq addr ext =
    if is_dyn ext
    then (if not (event_channel l daq == xcp_undefined_event_id)
          && not (event_channel l daq == decode_dyn_event addr)
        then refused crc_out_of_range
        else decoded (decode_dyn_offset addr) (decode_dyn_event addr))
    else if is_abs ext
    then decoded addr (event_channel l daq)
    else if is_app ext
    then decoded addr (event_channel l daq)
    else refused crc_access_denied

-- The commit: the size of the ODT, the event of the list and the three tables of the entry.
unfoldable pub commit_entry : ℕ → ℕ → ℕ → ℕ → DaqLists → DaqLists
commit_entry entry size offset ext l =
    let l1 = set_entry_size l entry size in
    let l2 = set_entry_addr l1 entry offset in set_entry_ext l2 entry ext

unfoldable pub place_entry : ℕ → ℕ → Decoded → Xcp → ℕ × Xcp
unfolding checked_odt_size commit_entry
place_entry size ext (refused err) x = (err, x)
place_entry size ext (decoded offset event) x =
    let l = x.daq_lists in
    let e = x.write_daq_odt_entry in
    elim (checked_odt_size x.write_daq_daq x.write_daq_odt (size_after l x.write_daq_odt e size)
      l) [
        | none ↦ (crc_daq_config, x)
        | some l1 ↦ (
          crc_cmd_ok,
          record x {
            daq_lists = commit_entry e size offset ext (set_event_channel l1 x.write_daq_daq event);
            write_daq_odt_entry = (e + 1) % 65536;
          },
        )
      ]

unfoldable pub add_odt_entry : ℕ → ℕ → ℕ → Xcp → ℕ × Xcp
unfolding is_daq_running decode_entry place_entry
add_odt_entry addr ext size x =
    let l = x.daq_lists in
    if size == 0 || ltb xcp_max_odt_entry_size size
    then (crc_out_of_range, x)
    else if l.daq_count == 0 || l.odt_count == 0 || l.odt_entry_count == 0
    then (crc_daq_config, x)
    else if leb l.daq_count x.write_daq_daq
    then (crc_sequence, x)
    else if leb (last_odt_entry l x.write_daq_odt + 1) x.write_daq_odt_entry
    then (crc_out_of_range, x)
    else if is_daq_running x
    then (crc_daq_active, x)
    else place_entry size ext (decode_entry l x.write_daq_daq addr ext) x

-- One element of WRITE_DAQ_MULTIPLE.
pub record EntrySpec : Type 0 where
  pub addr : ℕ
  pub ext : ℕ
  pub size : ℕ

-- The loop of WRITE_DAQ_MULTIPLE: a refused entry frees the whole configuration.
pub add_odt_entries : List EntrySpec → Xcp → ℕ × Xcp
unfolding add_odt_entry clear_daq
add_odt_entries [] x = (crc_cmd_ok, x)
add_odt_entries (e ∷ es) x =
    let (r, x') = add_odt_entry e.addr e.ext e.size x in
    let rest = add_odt_entries es x' in if r == crc_cmd_ok then rest else (r, clear_daq x')
