-- ===== src/Config.antt =====
-- The constants of the default configuration (src/xcplib_cfg.h, src/xcp_cfg.h, src/xcptl_cfg.h)
-- and of the protocol (src/xcp.h).
use Prim.Native.Nat.{ℕ}

-- xcp.h: error codes
abbrev pub crc_cmd_ok : ℕ
crc_cmd_ok = 0

abbrev pub crc_cmd_synch : ℕ
crc_cmd_synch = 0

abbrev pub crc_cmd_pending : ℕ
crc_cmd_pending = 1

abbrev pub crc_cmd_ignored : ℕ
crc_cmd_ignored = 2

abbrev pub crc_cmd_busy : ℕ
crc_cmd_busy = 16

abbrev pub crc_daq_active : ℕ
crc_daq_active = 17

abbrev pub crc_cmd_unknown : ℕ
crc_cmd_unknown = 32

abbrev pub crc_cmd_syntax : ℕ
crc_cmd_syntax = 33

abbrev pub crc_out_of_range : ℕ
crc_out_of_range = 34

abbrev pub crc_access_denied : ℕ
crc_access_denied = 36

abbrev pub crc_page_not_valid : ℕ
crc_page_not_valid = 38

abbrev pub crc_mode_not_valid : ℕ
crc_mode_not_valid = 39

abbrev pub crc_segment_not_valid : ℕ
crc_segment_not_valid = 40

abbrev pub crc_sequence : ℕ
crc_sequence = 41

abbrev pub crc_daq_config : ℕ
crc_daq_config = 42

abbrev pub crc_memory_overflow : ℕ
crc_memory_overflow = 48

abbrev pub crc_resource_temporary_not_accessible : ℕ
crc_resource_temporary_not_accessible = 51

-- xcp.h: session status bits
abbrev pub ss_daq : ℕ
ss_daq = 64

abbrev pub ss_legacy_mode : ℕ
ss_legacy_mode = 0x200

abbrev pub ss_started : ℕ
ss_started = 0x4000

abbrev pub ss_connected : ℕ
ss_connected = 0x2000

abbrev pub ss_activated : ℕ
ss_activated = 0x1000

-- xcp.h: DAQ list states
abbrev pub daq_state_stopped_unselected : ℕ
daq_state_stopped_unselected = 0

abbrev pub daq_state_selected : ℕ
daq_state_selected = 1

abbrev pub daq_state_running : ℕ
daq_state_running = 2

abbrev pub daq_state_overrun : ℕ
daq_state_overrun = 4

-- xcp.h: DAQ list modes
abbrev pub daq_mode_alternating : ℕ
daq_mode_alternating = 1

abbrev pub daq_mode_direction : ℕ
daq_mode_direction = 2

abbrev pub daq_mode_dto_ctr : ℕ
daq_mode_dto_ctr = 8

abbrev pub daq_mode_timestamp : ℕ
daq_mode_timestamp = 16

abbrev pub daq_mode_pid_off : ℕ
daq_mode_pid_off = 32

-- xcp.h: packet identifiers
abbrev pub pid_res : ℕ
pid_res = 255

abbrev pub pid_err : ℕ
pid_err = 254

-- xcplite.h: undefined identifiers
abbrev pub xcp_undefined_event_id : ℕ
xcp_undefined_event_id = 0xffff

abbrev pub xcp_undefined_daq_list : ℕ
xcp_undefined_daq_list = 0xffff

-- xcp_cfg.h: address extensions, XCPLITE__CASDD
abbrev pub xcp_addr_ext_seg : ℕ
xcp_addr_ext_seg = 0

abbrev pub xcp_addr_ext_abs : ℕ
xcp_addr_ext_abs = 1

abbrev pub xcp_addr_ext_dyn : ℕ
xcp_addr_ext_dyn = 2

abbrev pub xcp_addr_ext_dyn_max : ℕ
xcp_addr_ext_dyn_max = 15

abbrev pub xcp_addr_ext_app : ℕ
xcp_addr_ext_app = 0x80

abbrev pub xcp_addr_ext_file : ℕ
xcp_addr_ext_file = 0xfd

abbrev pub xcp_addr_ext_ptr : ℕ
xcp_addr_ext_ptr = 0xfe

abbrev pub xcp_undefined_addr_ext : ℕ
xcp_undefined_addr_ext = 0xff

-- OPTION_DAQ_MEM_SIZE and OPTION_DAQ_EVENT_COUNT
abbrev pub xcp_daq_mem_size : ℕ
xcp_daq_mem_size = 3072

abbrev pub xcp_max_event_count : ℕ
xcp_max_event_count = 16

-- xcplite.c, xcptl_cfg.h: sizes of packets and of what goes into them
abbrev pub xcp_max_odt_entry_size : ℕ
xcp_max_odt_entry_size = 248

abbrev pub xcptl_max_cto_size : ℕ
xcptl_max_cto_size = 248

abbrev pub xcptl_max_dto_size : ℕ
xcptl_max_dto_size = 1024

abbrev pub odt_header_size : ℕ
odt_header_size = 4

abbrev pub odt_timestamp_size : ℕ
odt_timestamp_size = 4

abbrev pub xcptl_max_segment_size : ℕ
xcptl_max_segment_size = 1472

-- sizeof(tXcpSegmentBuffer) without a segment header
abbrev pub segment_buffer_size : ℕ
segment_buffer_size = 1480

abbrev pub xcp_max_event_name : ℕ
xcp_max_event_name = 15

abbrev pub xcp_daq_event_flag_priority : ℕ
xcp_daq_event_flag_priority = 2
