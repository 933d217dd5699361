-- ===== src/Command/Info.antt =====
-- The commands that only ask, src/xcplite.c: SYNCH, GET_COMM_MODE_INFO, GET_STATUS,
-- GET_DAQ_PROCESSOR_INFO, GET_DAQ_RESOLUTION_INFO, GET_DAQ_CLOCK and GET_VERSION.
use xcplite.Prelude.{◌/◌, not, bit_and}
use xcplite.Prelude.{◌==◌, if◌then◌else◌}
use xcplite.Config.{crc_cmd_unknown, crc_cmd_synch, pid_err, ss_legacy_mode, xcp_max_odt_entry_size}
use xcplite.Memory.{Bytes}
use xcplite.State.{has_status}
use xcplite.Command.Reply.{
  Session, App, Reply, positive, negative, set_crm_len, crm_byte, crm_word, crm_dword, cro_byte,
}

module _ {World : Type 0} where
  -- CC_SYNCH: always an error response
  unfoldable pub synch : Session World → Reply World
  synch s = positive (crm_byte 1 crc_cmd_synch (crm_byte 0 pid_err (set_crm_len 2 s)))

  -- CC_GET_COMM_MODE_INFO; version 2.3 is 0x23.
  unfoldable pub get_comm_mode_info : Session World → Reply World
  get_comm_mode_info s = positive (
      crm_byte 5 0 (crm_byte 4 0 (crm_byte 6 0 (crm_byte 2 0 (crm_byte 7 0x23 (set_crm_len 8 s))))))

  -- CC_GET_STATUS
  unfoldable pub get_status : Session World → Reply World
  get_status s = positive (
      crm_word 2 0
        (crm_byte 2 0 (crm_byte 1 (bit_and s.xcp.session_status 0xff) (set_crm_len 6 s))))

  -- CC_GET_DAQ_PROCESSOR_INFO: the key byte is DAQ_HDR_ODT_FIL_DAQW | DAQ_EXT_FREE, the properties
  -- are DAQ_PROPERTY_CONFIG_TYPE | DAQ_PROPERTY_TIMESTAMP.
  unfoldable pub get_daq_processor_info : Session World → Reply World
  get_daq_processor_info s = positive (
      crm_byte 1 0x11 (
        crm_byte 7 0xc0 (
          crm_word 2 s.xcp.event_count
            (crm_word 1 s.xcp.daq_lists.daq_count (crm_byte 6 0 (set_crm_len 8 s))))))

  -- CC_GET_DAQ_RESOLUTION_INFO: UNIT_1NS, TIMESTAMP_FIXED, 4 byte timestamps, one tick
  unfoldable pub get_daq_resolution_info : Session World → Reply World
  get_daq_resolution_info s = positive (
      crm_word 3 1 (
        crm_byte 5 0x0c (
          crm_byte 4 xcp_max_odt_entry_size
            (crm_byte 2 xcp_max_odt_entry_size (crm_byte 3 1 (crm_byte 1 1 (set_crm_len 8 s)))))))

  -- CC_GET_DAQ_CLOCK: the extended format has 64 bits and the clock state. It is 13 bytes long and
  -- fits XCPTL_MAX_CTO_SIZE.
  unfoldable pub get_daq_clock : App World → Session World → Reply World
  get_daq_clock app s =
      let s1 = crm_byte 2 0x18 (crm_byte 1 0 s) in
      let clock = app.clock s.world in
      if not (has_status ss_legacy_mode s.xcp)
      then positive (
          crm_byte 12 (app.clock_state s.world) (
            crm_dword 2 (clock / 4294967296)
              (crm_dword 1 clock (crm_byte 3 2 (set_crm_len 13 s1)))))
      else positive (crm_dword 1 clock (set_crm_len 8 (crm_byte 3 1 s1)))

  -- CC_LEVEL_1_COMMAND with CC_GET_VERSION, protocol layer 1.4 and transport layer 1.4
  unfoldable pub level_1_command : Bytes → Session World → Reply World
  level_1_command cmd s =
      if cro_byte cmd 1 == 0
      then positive (
          crm_byte 5 4
            (crm_byte 4 1 (crm_byte 3 4 (crm_byte 2 1 (crm_byte 1 0 (set_crm_len 6 s))))))
      else negative crc_cmd_unknown s
