-- ===== src/Daq/Alloc.antt =====
-- Allocation of DAQ lists, ODTs and ODT entries, src/xcplite.c: `XcpClearDaq`, `XcpCheckMemory`,
-- `XcpAllocDaq`, `XcpAllocOdt`, `XcpAllocOdtEntry`. A function returns its code and the new state.
pub mod Outcome
pub mod Lists
pub mod Odts
pub mod Entries
pub mod Keeps
use xcplite.Prelude.{ℕ, zero, suc, ◌+◌, ◌-◌, ◌*◌, ◌%◌, bit_and, not, false, ◌&&◌, ◌||◌}
use xcplite.Prelude.{ltb, leb, ◌==◌, if◌then◌else◌}
use xcplite.Memory.{cleared}
use xcplite.Config.{
  crc_cmd_ok, crc_memory_overflow, crc_sequence, crc_out_of_range, crc_daq_config, xcp_daq_mem_size,
  xcp_undefined_daq_list, xcp_undefined_event_id, xcp_undefined_addr_ext,
}
use xcplite.State.{DaqLists, Event, Xcp, set_event}
use xcplite.Daq.Tables.{
  first_odt, set_last_odt, set_first_odt, set_event_channel, set_next_daq, set_daq_addr_ext,
  set_first_odt_entry, set_last_odt_entry, set_odt_size, beyond_odts,
}

-- session_status &= (uint16_t)(~SS_DAQ)
abbrev pub clear_ss_daq : ℕ → ℕ
clear_ss_daq status = bit_and status 0xffbf

-- for (event = 0; event < n; event++) event_list.event[event].daq_first = XCP_UNDEFINED_DAQ_LIST
pub reset_daq_first : ℕ → (ℕ → Event) → ℕ → Event
unfolding set_event
reset_daq_first zero events = events
reset_daq_first (suc n) events =
    let done = reset_daq_first n events in
    set_event done n (record (done n) { daq_first = xcp_undefined_daq_list })

-- memset(&daq_lists, 0, sizeof(tXcpDaqLists)) and `res = 0xBEAC`
abbrev pub empty_daq_lists : DaqLists
empty_daq_lists = record {
  odt_entry_count = 0;
  odt_count = 0;
  daq_count = 0;
  res = 0xbeac;
  mem = cleared;
}

unfoldable pub clear_daq : Xcp → Xcp
unfolding reset_daq_first
clear_daq x = record x {
  session_status = clear_ss_daq x.session_status;
  daq_running = false;
  daq_lists = empty_daq_lists;
  write_daq_daq = 0xffff;
  events = reset_daq_first x.event_count x.events;
}

-- the bytes that the tables take, ODT_ENTRY_SIZE being 6
abbrev pub used_memory : DaqLists → ℕ
used_memory l = l.daq_count * 12 + l.odt_count * 8 + l.odt_entry_count * 6

unfoldable pub check_memory : Xcp → ℕ × Xcp
unfolding clear_daq
check_memory x =
    if leb xcp_daq_mem_size (used_memory x.daq_lists)
    then (crc_memory_overflow, clear_daq x)
    else (crc_cmd_ok, x)

-- for (daq = 0; daq < n; daq++): the fields of a new DAQ list
unfoldable pub init_daq_lists : ℕ → DaqLists → DaqLists
init_daq_lists zero l = l
init_daq_lists (suc daq) l =
    let l1 = set_event_channel (init_daq_lists daq l) daq xcp_undefined_event_id in
    let l2 = set_daq_addr_ext l1 daq xcp_undefined_addr_ext in
    set_next_daq l2 daq xcp_undefined_daq_list

init_if_ok : ℕ → ℕ × Xcp → ℕ × Xcp
unfolding init_daq_lists
init_if_ok n (r, x) =
    if r == crc_cmd_ok
    then (crc_cmd_ok, record x { daq_lists = init_daq_lists n x.daq_lists })
    else (r, x)

unfoldable pub alloc_daq : ℕ → Xcp → ℕ × Xcp
unfolding check_memory init_if_ok
alloc_daq n x =
    if not (x.daq_lists.odt_count == 0) || not (x.daq_lists.odt_entry_count == 0)
    then (crc_sequence, x)
    else if n == 0
    then (crc_out_of_range, x)
    else init_if_ok n (check_memory (record x { daq_lists = record x.daq_lists { daq_count = n } }))

-- The part of `XcpAllocOdt` behind its guards: `count` ODTs at the end of the ODT table.
unfoldable pub take_odts : ℕ → ℕ → DaqLists → DaqLists
take_odts daq count l =
    let l1 = set_first_odt l daq l.odt_count in
    let l2 = record l1 { odt_count = (l.odt_count + count) % 65536 } in
    set_last_odt l2 daq ((l2.odt_count + 65535) % 65536)

unfoldable pub alloc_odt : ℕ → ℕ → Xcp → ℕ × Xcp
unfolding check_memory take_odts
alloc_odt daq count x =
    let l = x.daq_lists in
    if count == 0
    then (crc_daq_config, x)
    else if l.daq_count == 0 || not (l.odt_entry_count == 0)
    then (crc_sequence, x)
    else if leb l.daq_count daq
    then (crc_daq_config, x)
    else if count == 0 || leb 0xfc count
    then (crc_out_of_range, x)
    else if ltb 0xffff (l.odt_count + count)
    then (crc_out_of_range, x)
    else check_memory (record x { daq_lists = take_odts daq count l })

-- The part of `XcpAllocOdtEntry` behind its guards; `odt` is the absolute ODT number.
unfoldable pub take_entries : ℕ → ℕ → DaqLists → DaqLists
take_entries odt count l =
    let l1 = set_first_odt_entry l odt l.odt_entry_count in
    let l2 = record l1 { odt_entry_count = (l.odt_entry_count + count) % 65536 } in
    let l3 = set_last_odt_entry l2 odt ((l2.odt_entry_count + 65535) % 65536) in
    set_odt_size l3 odt 0

unfoldable pub alloc_odt_entry : ℕ → ℕ → ℕ → Xcp → ℕ × Xcp
unfolding check_memory take_entries clear_daq
alloc_odt_entry daq odt count x =
    let l = x.daq_lists in
    if count == 0
    then (crc_daq_config, x)
    else if l.daq_count == 0 || l.odt_count == 0
    then (crc_sequence, x)
    else if leb l.daq_count daq || count == 0 || beyond_odts l daq odt
    then (crc_out_of_range, x)
    else if ltb 0xffff (l.odt_entry_count + count)
    then (crc_memory_overflow, clear_daq x)
    else check_memory (record x { daq_lists = take_entries (first_odt l daq + odt) count l })
