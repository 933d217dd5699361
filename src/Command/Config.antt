-- ===== src/Command/Config.antt =====
-- The commands that configure data acquisition, src/xcplite.c: FREE_DAQ, ALLOC_DAQ, ALLOC_ODT,
-- ALLOC_ODT_ENTRY, GET_DAQ_LIST_MODE, SET_DAQ_LIST_MODE, SET_DAQ_PTR, WRITE_DAQ and
-- WRITE_DAQ_MULTIPLE.
use xcplite.Prelude.{ℕ, zero, suc, ◌+◌, ◌*◌, not, List, [], ◌∷◌, Option, none, some, bit_and}
use xcplite.Prelude.{leb, ◌==◌, if◌then◌else◌}
use xcplite.Config.{crc_cmd_syntax, crc_out_of_range, crc_daq_active}
use xcplite.Memory.{Bytes}
use xcplite.State.{Xcp, is_daq_running}
use xcplite.Daq.Tables.{event_channel, daq_mode, daq_priority}
use xcplite.Daq.Alloc.{clear_daq, alloc_daq, alloc_odt, alloc_odt_entry}
use xcplite.Daq.Entry.{EntrySpec, set_daq_ptr, add_odt_entry, add_odt_entries}
use xcplite.Daq.Mode.{set_daq_list_mode}
use xcplite.Command.Reply.{
  Session, Reply, positive, negative, hung, check_len, check_error, on_xcp, set_crm_len, crm_byte,
  crm_word, cro_byte, cro_word, cro_dword,
}

-- the elements `i` to `i + n - 1` of WRITE_DAQ_MULTIPLE
unfoldable pub entry_specs : Bytes → ℕ → ℕ → List EntrySpec
entry_specs cmd i zero = []
entry_specs cmd i (suc n) =
    record {
      addr = cro_dword cmd (1 + 2 * i);
      ext = cro_byte cmd (8 + 8 * i);
      size = cro_byte cmd (3 + 8 * i);
    }
    ∷ entry_specs cmd (i + 1) n

module _ {World : Type 0} where
  -- if (XcpIsDaqRunning()) error(CRC_DAQ_ACTIVE)
  unfoldable pub unless_running : Session World → Reply World → Reply World
  unless_running s r = if is_daq_running s.xcp then negative crc_daq_active s else r

  -- CC_FREE_DAQ
  unfoldable pub free_daq : Session World → Reply World
  free_daq s = positive (record s { xcp = clear_daq s.xcp })

  -- CC_ALLOC_DAQ
  unfoldable pub alloc_daq_command : Bytes → ℕ → Session World → Reply World
  unfolding unless_running
  alloc_daq_command cmd len s =
      check_len 4 len s
        (unless_running s (check_error (on_xcp (alloc_daq (cro_word cmd 1) s.xcp) s)))

  -- CC_ALLOC_ODT
  unfoldable pub alloc_odt_command : Bytes → ℕ → Session World → Reply World
  unfolding unless_running
  alloc_odt_command cmd len s = check_len 5 len s (
      unless_running s (check_error (on_xcp (alloc_odt (cro_word cmd 1) (cro_byte cmd 4) s.xcp) s)))

  -- CC_ALLOC_ODT_ENTRY
  unfoldable pub alloc_odt_entry_command : Bytes → ℕ → Session World → Reply World
  unfolding unless_running
  alloc_odt_entry_command cmd len s = check_len 6 len s (
      unless_running s (
        check_error
          (on_xcp (alloc_odt_entry (cro_word cmd 1) (cro_byte cmd 4) (cro_byte cmd 5) s.xcp) s)))

  -- CC_GET_DAQ_LIST_MODE
  unfoldable pub get_daq_list_mode : Bytes → ℕ → Session World → Reply World
  get_daq_list_mode cmd len s =
      let daq = cro_word cmd 1 in
      let l = s.xcp.daq_lists in
      check_len 4 len s (
        if leb l.daq_count daq
        then negative crc_out_of_range s
        else positive (
            crm_byte 7 (daq_priority l daq) (
              crm_word 2 (event_channel l daq)
                (crm_byte 6 1 (crm_byte 1 (daq_mode l daq) (set_crm_len 8 s))))))

  -- what `check_error(XcpSetDaqListMode(...))` makes of its result
  unfoldable pub end_set_mode : Session World → Option (ℕ × Xcp) → Reply World
  end_set_mode s none = hung
  end_set_mode s (some r) = check_error (on_xcp r s)

  -- CC_SET_DAQ_LIST_MODE: ALTERNATING, DIRECTION, DTO_CTR and PID_OFF are the mask 43.
  unfoldable pub set_daq_list_mode_command : Bytes → ℕ → Session World → Reply World
  unfolding unless_running end_set_mode
  set_daq_list_mode_command cmd len s =
      let daq = cro_word cmd 1 in
      let event = cro_word cmd 2 in
      let mode = cro_byte cmd 1 in
      let prio = cro_byte cmd 7 in
      let prescaler = cro_byte cmd 6 in
      check_len 8 len s (
        unless_running s (
          if leb s.xcp.daq_lists.daq_count daq
          then negative crc_out_of_range s
          else if not (bit_and mode 43 == 0)
          then negative crc_out_of_range s
          else if bit_and mode 16 == 0
          then negative crc_cmd_syntax s
          else end_set_mode s (set_daq_list_mode daq event mode prescaler prio s.xcp)))

  -- CC_SET_DAQ_PTR
  unfoldable pub set_daq_ptr_command : Bytes → ℕ → Session World → Reply World
  set_daq_ptr_command cmd len s = check_len 6 len s (
      check_error (on_xcp (set_daq_ptr (cro_word cmd 1) (cro_byte cmd 4) (cro_byte cmd 5) s.xcp) s))

  -- CC_WRITE_DAQ
  unfoldable pub write_daq : Bytes → ℕ → Session World → Reply World
  write_daq cmd len s = check_len 8 len s (
      check_error
        (on_xcp (add_odt_entry (cro_dword cmd 1) (cro_byte cmd 3) (cro_byte cmd 2) s.xcp) s))

  -- CC_WRITE_DAQ_MULTIPLE
  unfoldable pub write_daq_multiple : Bytes → ℕ → Session World → Reply World
  unfolding unless_running entry_specs
  write_daq_multiple cmd len s =
      let n = cro_byte cmd 1 in
      check_len 10 len s (
        check_len (2 + 8 * n) len s
          (unless_running s (check_error (on_xcp (add_odt_entries (entry_specs cmd 0 n) s.xcp) s))))
