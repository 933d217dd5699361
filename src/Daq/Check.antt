-- ===== src/Daq/Check.antt =====
-- The check before the start, `XcpCheckDaqLists` of src/xcplite.c. The callback of
-- `ApplXcpCheckMemory` (src/xcpappl.c) is the parameter `check`: extension, address, size.
pub mod Complete
use xcplite.Prelude.{ℕ, zero, suc, ◌+◌, ◌-◌, ◌*◌, not, ◌&&◌, ◌||◌, Bool, true, false, bit_and}
use xcplite.Prelude.{◌==◌, if◌then◌else◌}
use xcplite.Config.{crc_cmd_ok, xcp_undefined_event_id}
use xcplite.State.{DaqLists}
use xcplite.Daq.Tables.{
  first_odt, last_odt, event_channel, daq_state, first_odt_entry, last_odt_entry, entry_size,
  entry_addr, entry_ext,
}

module _ (check : ℕ → ℕ → ℕ → ℕ) where
  -- The innermost body: the size is set, and the application grants the access.
  unfoldable pub check_entry : DaqLists → ℕ → Bool
  check_entry l e =
      not (entry_size l e == 0)
      && check (entry_ext l e) (entry_addr l e) (entry_size l e) == crc_cmd_ok

  -- for (e = first; e <= last; e++), `n` rounds left
  unfoldable pub check_entries : ℕ → DaqLists → ℕ → Bool
  check_entries zero l e = true
  check_entries (suc n) l e = check_entry l e && check_entries n l (e + 1)

  -- for (i = first; i <= last; i++), `n` rounds left
  unfoldable pub check_odts : ℕ → DaqLists → ℕ → Bool
  check_odts zero l i = true
  check_odts (suc n) l i =
      check_entries (last_odt_entry l i + 1 - first_odt_entry l i) l (first_odt_entry l i)
      && check_odts n l (i + 1)

  -- The body of the outer loop; a `continue` is `true`.
  unfoldable pub check_list : ℕ → ℕ → DaqLists → ℕ → Bool
  check_list state event l daq =
      if not (bit_and (daq_state l daq) state == state)
      then true
      else if event_channel l daq == xcp_undefined_event_id
      then false
      else if not (event == xcp_undefined_event_id) && not (event_channel l daq == event)
      then true
      else check_odts (last_odt l daq + 1 - first_odt l daq) l (first_odt l daq)

  -- for (daq = 0; daq < n; daq++)
  unfoldable pub check_lists : ℕ → ℕ → ℕ → DaqLists → Bool
  check_lists zero state event l = true
  check_lists (suc daq) state event l =
      check_lists daq state event l && check_list state event l daq

  unfoldable pub check_daq_lists : ℕ → ℕ → DaqLists → Bool
  check_daq_lists state event l = check_lists l.daq_count state event l
