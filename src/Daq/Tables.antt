-- ===== src/Daq/Tables.antt =====
-- The layout of the DAQ memory: the access macros at the head of src/xcplite.c over the packed
-- structs `tXcpDaqList` (12 bytes) and `tXcpOdt` (8 bytes) of src/xcplite.h.
use xcplite.Prelude.{ℕ, ◌+◌, ◌*◌, Bool, leb}
use xcplite.Memory.{get8, get16, get32, put8, put16, put32}
use xcplite.State.{DaqLists}

-- &u.daq_list[daq], &DaqListOdtTable[odt], &DaqListOdtEntryAddrTable[e],
-- &DaqListOdtEntrySizeTable[e], &DaqListOdtEntryAddrExtTable[e], as offsets into `u`
abbrev pub daq_list_at : ℕ → ℕ
daq_list_at daq = 12 * daq

abbrev pub odt_at : DaqLists → ℕ → ℕ
odt_at l odt = 12 * l.daq_count + 8 * odt

abbrev pub entry_addr_at : DaqLists → ℕ → ℕ
entry_addr_at l e = 12 * l.daq_count + 8 * l.odt_count + 4 * e

abbrev pub entry_size_at : DaqLists → ℕ → ℕ
entry_size_at l e = 12 * l.daq_count + 8 * l.odt_count + 4 * l.odt_entry_count + e

abbrev pub entry_ext_at : DaqLists → ℕ → ℕ
entry_ext_at l e = 12 * l.daq_count + 8 * l.odt_count + 5 * l.odt_entry_count + e

-- fields of `tXcpDaqList`
abbrev pub last_odt : DaqLists → ℕ → ℕ
last_odt l daq = get16 l.mem (daq_list_at daq)

abbrev pub first_odt : DaqLists → ℕ → ℕ
first_odt l daq = get16 l.mem (daq_list_at daq + 2)

abbrev pub event_channel : DaqLists → ℕ → ℕ
event_channel l daq = get16 l.mem (daq_list_at daq + 4)

abbrev pub next_daq : DaqLists → ℕ → ℕ
next_daq l daq = get16 l.mem (daq_list_at daq + 6)

abbrev pub daq_mode : DaqLists → ℕ → ℕ
daq_mode l daq = get8 l.mem (daq_list_at daq + 8)

abbrev pub daq_state : DaqLists → ℕ → ℕ
daq_state l daq = get8 l.mem (daq_list_at daq + 9)

abbrev pub daq_priority : DaqLists → ℕ → ℕ
daq_priority l daq = get8 l.mem (daq_list_at daq + 10)

abbrev pub daq_addr_ext : DaqLists → ℕ → ℕ
daq_addr_ext l daq = get8 l.mem (daq_list_at daq + 11)

abbrev pub set_last_odt : DaqLists → ℕ → ℕ → DaqLists
set_last_odt l daq v = record l { mem = put16 l.mem (daq_list_at daq) v }

abbrev pub set_first_odt : DaqLists → ℕ → ℕ → DaqLists
set_first_odt l daq v = record l { mem = put16 l.mem (daq_list_at daq + 2) v }

abbrev pub set_event_channel : DaqLists → ℕ → ℕ → DaqLists
set_event_channel l daq v = record l { mem = put16 l.mem (daq_list_at daq + 4) v }

abbrev pub set_next_daq : DaqLists → ℕ → ℕ → DaqLists
set_next_daq l daq v = record l { mem = put16 l.mem (daq_list_at daq + 6) v }

abbrev pub set_daq_mode : DaqLists → ℕ → ℕ → DaqLists
set_daq_mode l daq v = record l { mem = put8 l.mem (daq_list_at daq + 8) v }

abbrev pub set_daq_state : DaqLists → ℕ → ℕ → DaqLists
set_daq_state l daq v = record l { mem = put8 l.mem (daq_list_at daq + 9) v }

abbrev pub set_daq_priority : DaqLists → ℕ → ℕ → DaqLists
set_daq_priority l daq v = record l { mem = put8 l.mem (daq_list_at daq + 10) v }

abbrev pub set_daq_addr_ext : DaqLists → ℕ → ℕ → DaqLists
set_daq_addr_ext l daq v = record l { mem = put8 l.mem (daq_list_at daq + 11) v }

-- fields of `tXcpOdt`
abbrev pub first_odt_entry : DaqLists → ℕ → ℕ
first_odt_entry l odt = get16 l.mem (odt_at l odt)

abbrev pub last_odt_entry : DaqLists → ℕ → ℕ
last_odt_entry l odt = get16 l.mem (odt_at l odt + 2)

abbrev pub odt_size : DaqLists → ℕ → ℕ
odt_size l odt = get16 l.mem (odt_at l odt + 4)

abbrev pub set_first_odt_entry : DaqLists → ℕ → ℕ → DaqLists
set_first_odt_entry l odt v = record l { mem = put16 l.mem (odt_at l odt) v }

abbrev pub set_last_odt_entry : DaqLists → ℕ → ℕ → DaqLists
set_last_odt_entry l odt v = record l { mem = put16 l.mem (odt_at l odt + 2) v }

abbrev pub set_odt_size : DaqLists → ℕ → ℕ → DaqLists
set_odt_size l odt v = record l { mem = put16 l.mem (odt_at l odt + 4) v }

-- the three tables of ODT entries
abbrev pub entry_addr : DaqLists → ℕ → ℕ
entry_addr l e = get32 l.mem (entry_addr_at l e)

abbrev pub entry_size : DaqLists → ℕ → ℕ
entry_size l e = get8 l.mem (entry_size_at l e)

abbrev pub entry_ext : DaqLists → ℕ → ℕ
entry_ext l e = get8 l.mem (entry_ext_at l e)

abbrev pub set_entry_addr : DaqLists → ℕ → ℕ → DaqLists
set_entry_addr l e v = record l { mem = put32 l.mem (entry_addr_at l e) v }

abbrev pub set_entry_size : DaqLists → ℕ → ℕ → DaqLists
set_entry_size l e v = record l { mem = put8 l.mem (entry_size_at l e) v }

abbrev pub set_entry_ext : DaqLists → ℕ → ℕ → DaqLists
set_entry_ext l e v = record l { mem = put8 l.mem (entry_ext_at l e) v }

-- `odt >= DaqListOdtCount(daq)` on `int`, the subtraction moved to the other side
abbrev pub beyond_odts : DaqLists → ℕ → ℕ → Bool
beyond_odts l daq odt = leb (last_odt l daq + 1) (odt + first_odt l daq)

-- `idx >= DaqListOdtEntryCount(odt)`
abbrev pub beyond_entries : DaqLists → ℕ → ℕ → Bool
beyond_entries l odt idx = leb (last_odt_entry l odt + 1) (idx + first_odt_entry l odt)
