-- ===== src/Daq/Check/Complete.antt =====
-- What a passed check of the DAQ lists means.
use xcplite.Prelude.{ℕ, zero, suc, ◌+◌, ◌-◌, ◌≤◌, ◌<◌, ◌≡◌, ◌≢◌, arith, true, bit_and}
use xcplite.Config.{crc_cmd_ok, xcp_undefined_event_id}
use xcplite.State.{DaqLists}
use xcplite.Daq.Tables.{
  first_odt, last_odt, event_channel, daq_state, first_odt_entry, last_odt_entry, entry_size,
  entry_addr, entry_ext,
}
use xcplite.Daq.Check.{
  check_entry, check_entries, check_odts, check_list, check_lists, check_daq_lists,
}

module _ (check : ℕ → ℕ → ℕ → ℕ) (l : DaqLists) where
  check_entries-all :
      (n e k : ℕ)
      → check_entries check n l e ≡ true
      → e ≤ k
      → k < e + n
      → check_entry check l k ≡ true
  unfolding check_entries
  check_entries-all zero e k h p q = absurd (omega arith)
  check_entries-all (suc n) e k h p q = ground (arith, check_entries-all n (e + 1) k)

  check_odts-all :
      (n i odt k : ℕ)
      → check_odts check n l i ≡ true
      → i ≤ odt
      → odt < i + n
      → first_odt_entry l odt ≤ k
      → k ≤ last_odt_entry l odt
      → check_entry check l k ≡ true
  unfolding check_odts
  check_odts-all zero i odt k h p q a b = absurd (omega arith)
  check_odts-all (suc n) i odt k h p q a b = ground (
    arith,
    check_odts-all n (i + 1) odt k,
    check_entries-all (last_odt_entry l odt + 1 - first_odt_entry l odt) (first_odt_entry l odt) k,
  )

  check_lists-all :
      (n state event daq : ℕ)
      → check_lists check n state event l ≡ true
      → daq < n
      → check_list check state event l daq ≡ true
  unfolding check_lists
  check_lists-all zero state event daq h p = absurd (omega arith)
  check_lists-all (suc n) state event daq h p = ground (arith, check_lists-all n state event daq)

  -- If the check passes, every DAQ list in the given state has an event, and each entry of each of
  -- its ODTs has a size and lies in memory that the application grants.
  pub check_daq_lists_sound :
      (state : ℕ)
      → check_daq_lists check state xcp_undefined_event_id l ≡ true
      → (daq odt e : ℕ) → daq < l.daq_count
      → bit_and (daq_state l daq) state ≡ state
      → first_odt l daq ≤ odt
      → odt ≤ last_odt l daq
      → first_odt_entry l odt ≤ e
      → e ≤ last_odt_entry l odt
      → (event_channel l daq ≢ xcp_undefined_event_id)
        × (entry_size l e ≢ 0)
        × (check (entry_ext l e) (entry_addr l e) (entry_size l e) ≡ crc_cmd_ok)
  unfolding check_daq_lists check_list check_entry
  check_daq_lists_sound state h daq odt e hd hs p q a b = ground (
    arith,
    check_lists-all l.daq_count state xcp_undefined_event_id daq,
    check_odts-all (last_odt l daq + 1 - first_odt l daq) (first_odt l daq) odt e,
  )
