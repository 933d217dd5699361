-- ===== src/Command/Control.antt =====
-- The commands that connect, disconnect, start and stop, src/xcplite.c: CONNECT, DISCONNECT,
-- START_STOP_DAQ_LIST and START_STOP_SYNCH.
use xcplite.Prelude.{ℕ, not, ◌||◌, Bool, ◌∷◌, bit_and, bit_or}
use xcplite.Prelude.{leb, ◌==◌, if◌then◌else◌}
use xcplite.Config.{
  crc_out_of_range, crc_mode_not_valid, crc_daq_config, crc_daq_active,
  crc_resource_temporary_not_accessible, daq_state_selected, xcp_undefined_event_id,
}
use xcplite.Memory.{Bytes}
use xcplite.State.{Xcp, AppCall, is_started, is_connected, is_daq_running}
use xcplite.Daq.Tables.{daq_state, set_daq_state}
use xcplite.Daq.Alloc.{clear_daq}
use xcplite.Daq.Run.{
  start_daq, stop_daq, start_selected_daq_lists, stop_daq_list, stop_selected_daq_lists,
}
use xcplite.Daq.Check.{check_daq_lists}
use xcplite.Command.Reply.{
  Session, App, Reply, positive, negative, silent, check_len, send_response, set_crm_len, crm_byte,
  crm_word, cro_byte, cro_word,
}

-- XcpTlWaitForTransmitQueueEmpty; its result only makes a warning.
abbrev pub wait_queue_empty : Xcp → Xcp
wait_queue_empty x = record x { app_calls = AppCall.wait_queue_empty ∷ x.app_calls }

-- SS_ACTIVATED | SS_STARTED | SS_CONNECTED | SS_LEGACY_MODE
abbrev pub connected_status : ℕ
connected_status = 0x7200

module _ {World : Type 0} where
  -- The answer to CONNECT: versions 1.4, 248 byte commands, 1024 byte data, DAQ and CAL.
  unfoldable pub connect_response : Session World → Session World
  connect_response s = crm_byte 2 128 (
      crm_byte 1 5
        (crm_word 2 1024 (crm_byte 3 248 (crm_byte 6 1 (crm_byte 7 1 (set_crm_len 8 s))))))

  -- CC_CONNECT; `silent` where the application is not ready.
  unfoldable pub connect_command : App World → Bytes → Session World → Reply World
  unfolding connect_response
  connect_command app cmd s =
      let (ready, w) = app.connect (cro_byte cmd 1) s.world in
      let s1 = record s { world = w } in
      let x = clear_daq (record s.xcp { session_status = connected_status }) in
      if not ready then silent s1 else positive (connect_response (record s1 { xcp = x }))

  -- `XcpDisconnect`; ~SS_CONNECTED is 0xdfff. Persistence on disconnect is not configured.
  unfoldable pub disconnect : App World → Session World → Session World
  disconnect app s =
      let x = if is_daq_running s.xcp then wait_queue_empty (stop_daq s.xcp) else s.xcp in
      let x' = record x { session_status = bit_and x.session_status 0xdfff } in
      if not (is_started s.xcp)
      then s
      else if not (is_connected s.xcp)
      then s
      else record s { xcp = x'; world = app.disconnect (app.publish_all s.world) }

  -- CC_START_STOP_DAQ_LIST; starting an individual list is rejected (XCP_ENABLE_TEST_CHECKS).
  unfoldable pub start_stop_daq_list : Bytes → ℕ → Session World → Reply World
  start_stop_daq_list cmd len s =
      let daq = cro_word cmd 1 in
      let mode = cro_byte cmd 1 in
      let l = s.xcp.daq_lists in
      let s1 = crm_byte 1 0 (set_crm_len 2 s) in
      let selected = set_daq_state l daq (bit_or (daq_state l daq) daq_state_selected) in
      check_len 4 len s (
        if leb l.daq_count daq
        then negative crc_out_of_range s
        else if mode == 2
        then positive (record s1 { xcp = record s.xcp { daq_lists = selected } })
        else if mode == 1
        then negative crc_mode_not_valid s1
        else if mode == 0
        then positive (record s1 { xcp = stop_daq_list daq s.xcp })
        else negative crc_mode_not_valid s1)

  -- case 3 of START_STOP_SYNCH: prepare for start selected
  unfoldable pub prepare_selected : App World → Session World → Reply World
  prepare_selected app s =
      let (ready, w) = app.prepare_daq s.world in
      let s1 = record s { world = w } in
      if not
        (check_daq_lists app.check_memory daq_state_selected xcp_undefined_event_id s.xcp.daq_lists)
      then negative crc_daq_config s
      else if not ready
      then negative crc_resource_temporary_not_accessible s1
      else positive s1

  -- case 1 of START_STOP_SYNCH: the response goes out first, then data acquisition starts.
  unfoldable pub start_selected_command : App World → Bool → Session World → Reply World
  unfolding send_response
  start_selected_command app async s =
      let s1 = send_response async s in
      let x = start_daq (app.clock s.world) (start_selected_daq_lists s.xcp) in
      if is_daq_running s.xcp
      then negative crc_daq_active s
      else if not (
          check_daq_lists app.check_memory daq_state_selected xcp_undefined_event_id
            s.xcp.daq_lists)
      then negative crc_daq_config s
      else silent (record s1 { xcp = x })

  -- CC_START_STOP_SYNCH
  unfoldable pub start_stop_synch : App World → Bool → Bytes → ℕ → Session World → Reply World
  unfolding prepare_selected start_selected_command
  start_stop_synch app async cmd len s =
      let mode = cro_byte cmd 1 in
      let l = s.xcp.daq_lists in
      if l.daq_count == 0 || l.odt_count == 0 || l.odt_entry_count == 0
      then negative crc_daq_config s
      else check_len 2 len s (
          if mode == 3
          then prepare_selected app s
          else if mode == 2
          then positive (record s { xcp = stop_selected_daq_lists s.xcp })
          else if mode == 1
          then start_selected_command app async s
          else if mode == 0
          then positive (record s { xcp = wait_queue_empty (stop_daq s.xcp) })
          else negative crc_mode_not_valid s)
