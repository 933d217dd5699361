-- ===== src/Command/Process.antt =====
-- `XcpAsyncCommand` of src/xcplite.c, the dispatch of a command and its response, and
-- `XcpProcessPendingCommand`.
use xcplite.Prelude.{ℕ, ◌+◌, ◌%◌, ◌^◌, not, ◌&&◌, ◌||◌, Bool, true, false, Option, none, some}
use xcplite.Prelude.{ltb, leb, ◌==◌, if◌then◌else◌}
use xcplite.Config.{
  crc_cmd_ok, crc_cmd_ignored, crc_cmd_syntax, crc_cmd_busy, crc_cmd_unknown, pid_res,
  xcp_addr_ext_ptr,
}
use xcplite.Memory.{Bytes}
use xcplite.State.{is_connected, is_started}
use xcplite.Daq.Address.{is_dyn, decode_dyn_event, decode_dyn_offset}
use xcplite.Mta.{Backend}
use xcplite.Command.Reply.{
  Session, App, Reply, positive, negative, busy, silent, hung, send_response, send_error,
  set_crm_len, crm_byte, cro_byte,
}
use xcplite.Command.Access.{
  set_mta_command, download, short_download, upload, short_upload, build_checksum,
}
use xcplite.Command.Config.{
  free_daq, alloc_daq_command, alloc_odt_command, alloc_odt_entry_command, get_daq_list_mode,
  set_daq_list_mode_command, set_daq_ptr_command, write_daq, write_daq_multiple,
}
use xcplite.Command.Control.{connect_command, disconnect, start_stop_daq_list, start_stop_synch}
use xcplite.Command.Info.{
  synch, get_comm_mode_info, get_status, get_daq_processor_info, get_daq_resolution_info,
  get_daq_clock, level_1_command,
}

-- CRM_CMD = PID_RES; CRM_LEN = 1
unfoldable pub default_response : {World : Type 0} → Session World → Session World
default_response s = crm_byte 0 pid_res (set_crm_len 1 s)

-- The end of `XcpAsyncCommand`: the return value, and the response that is sent.
unfoldable pub finish : {World : Type 0} → Bool → Reply World → Option (ℕ × Session World)
unfolding send_response send_error
finish async (positive s) = some (crc_cmd_ok, send_response async s)
finish async (negative err s) = some (err, send_error async err s)
finish async (busy s) = some (crc_cmd_busy, send_error async crc_cmd_busy s)
finish async (silent s) = some (crc_cmd_ok, s)
finish async hung = none

module _ (b : Backend) (app : App b.World) where
  open b use {World}

  -- `others`: the commands of ids, pages and segments (`segment_commands` of Command/Segments), those of
  -- events and time correlation, and what the processor makes of an unknown one. The subcommands of the
  -- transport layer are not configured.
  module _ (others : Bool → Bytes → ℕ → Session World → Reply World) where
    -- The cases of the switch for the other commands.
    unfoldable pub dispatch : Bool → Bytes → ℕ → Session World → Reply World
    dispatch async cmd len s =
        let cc = cro_byte cmd 0 in
        if cc == 0xfc
        then synch s
        else if cc == 0xc1
        then silent s
        else if cc == 0xfb
        then get_comm_mode_info s
        else if cc == 0xfe
        then positive (disconnect app s)
        else if cc == 0xfd
        then get_status s
        else if cc == 0xf6
        then set_mta_command b cmd len s
        else if cc == 0xf0
        then download b cmd len s
        else if cc == 0xed
        then short_download b async cmd len s
        else if cc == 0xf5
        then upload b cmd len s
        else if cc == 0xf4
        then short_upload b async cmd len s
        else if cc == 0xf3
        then build_checksum b cmd len s
        else if cc == 0xda
        then get_daq_processor_info s
        else if cc == 0xd9
        then get_daq_resolution_info s
        else if cc == 0xd6
        then free_daq s
        else if cc == 0xd5
        then alloc_daq_command cmd len s
        else if cc == 0xd4
        then alloc_odt_command cmd len s
        else if cc == 0xd3
        then alloc_odt_entry_command cmd len s
        else if cc == 0xdf
        then get_daq_list_mode cmd len s
        else if cc == 0xe0
        then set_daq_list_mode_command cmd len s
        else if cc == 0xe2
        then set_daq_ptr_command cmd len s
        else if cc == 0xe1
        then write_daq cmd len s
        else if cc == 0xc7
        then write_daq_multiple cmd len s
        else if cc == 0xde
        then start_stop_daq_list cmd len s
        else if cc == 0xdd
        then start_stop_synch app async cmd len s
        else if cc == 0xdc
        then get_daq_clock app s
        else if cc == 0xc0
        then level_1_command cmd s
        else if cc == 0xf2
        then negative crc_cmd_unknown s
        else others async cmd len s

    -- CONNECT, or any other command while connected; 0xf2 is CC_TRANSPORT_LAYER_CMD.
    unfoldable pub reply_to : Bool → Bytes → ℕ → Session World → Reply World
    unfolding dispatch
    reply_to async cmd len s =
        if len == 2 && cro_byte cmd 0 == 0xff
        then connect_command app cmd s
        else if ltb len 1 || ltb 248 len
        then negative crc_cmd_syntax s
        else dispatch async cmd len s

    -- not connected, and neither CONNECT nor a command of the transport layer
    unfoldable pub is_ignored : Bytes → ℕ → Session World → Bool
    is_ignored cmd len s =
        not (len == 2 && cro_byte cmd 0 == 0xff)
        && not (is_connected s.xcp)
        && not (cro_byte cmd 0 == 0xf2)

    -- `XcpAsyncCommand`. `none`: it does not return, or an assertion fails, first of all that XCP is
    -- started and the command at most XCPTL_MAX_CTO_SIZE long.
    unfoldable pub async_command : Bool → Bytes → ℕ → Session World → Option (ℕ × Session World)
    unfolding reply_to finish default_response is_ignored
    async_command async cmd len s0 =
        let s = default_response s0 in
        let answer =
          if is_ignored cmd len s
          then some (crc_cmd_ignored, s)
          else finish async (reply_to async cmd len s) in
        if is_started s0.xcp && leb len 248 then answer else none

    -- `XcpProcessPendingCommand` at an event: the command that waits for it is executed with the
    -- address relative to the event turned into a pointer. `none`: the assertion fails that the
    -- event comes with a base for the extension, or the command does not return.
    unfoldable pub process_pending : ℕ → ℕ → (ℕ → ℕ) → Session World → Option (Session World)
    unfolding async_command
    process_pending event count bases s =
        let m = s.mta in
        let ptr = (bases m.mta_ext + decode_dyn_offset m.mta_addr) % 2 ^ 64 in
        let s1 = record s {
          cmd_pending = false;
          mta = record m { mta_ptr = ptr; mta_ext = xcp_addr_ext_ptr };
        } in
        if s.cmd_pending && is_dyn m.mta_ext && decode_dyn_event m.mta_addr == event
        then if leb count m.mta_ext
          then none
          else elim (async_command true s.cmd_pending_crm s.cmd_pending_crm_len s1) [
            | none ↦ none
            | some (r, s2) ↦ some s2
          ]
        else some s
