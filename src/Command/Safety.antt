-- ===== src/Command/Safety.antt =====
-- Configuration, start and stop of data acquisition by commands, src/xcplite.c.
use xcplite.Prelude.{
  ℕ, ◌+◌, ◌*◌, ◌≤◌, ◌<◌, ◌≡◌, refl, ◌≢◌, arith, Bool, true, false, ltb, ◌==◌, if◌then◌else◌,
  if_cases, ==_iff, subst, sym, ◌∙◌,
}
use mathlib.Core.Bool.{true≢false}
use xcplite.Config.{crc_cmd_ok, xcp_undefined_event_id}
use xcplite.Memory.{Bytes, get8}
use xcplite.State.{Xcp, is_daq_running}
use xcplite.Daq.Tables.{
  first_odt, last_odt, event_channel, daq_state, first_odt_entry, last_odt_entry, entry_size,
  entry_addr, entry_ext,
}
use xcplite.Daq.Entry.Running.{set_daq_ptr-running, add_odt_entry-running}
use xcplite.Daq.Run.{is_selected}
use xcplite.Daq.Run.States.{started}
use xcplite.Command.Reply.{
  Session, App, Reply, negative, send_response, check_len, check_error, on_xcp,
}
use xcplite.Command.Config.{
  unless_running, alloc_daq_command, alloc_odt_command, alloc_odt_entry_command,
  set_daq_list_mode_command, set_daq_ptr_command, write_daq, write_daq_multiple,
}

-- The command is refused and the session is as before.
abbrev pub Refused : {World : Type 0} → Session World → Reply World → Type 0
Refused s r = (err : ℕ) × (err ≢ crc_cmd_ok) × (r ≡ negative err s)

-- While data acquisition is running, ALLOC_DAQ, ALLOC_ODT, ALLOC_ODT_ENTRY, SET_DAQ_LIST_MODE,
-- SET_DAQ_PTR, WRITE_DAQ and WRITE_DAQ_MULTIPLE are answered with an error and change nothing.
-- FREE_DAQ is not among them: it stops data acquisition.
pub configuration-Refused :
    {World : Type 0} (cmd : Bytes) (len : ℕ) (s : Session World)
    → is_daq_running s.xcp ≡ true
    → Refused s (alloc_daq_command cmd len s)
      × Refused s (alloc_odt_command cmd len s)
      × Refused s (alloc_odt_entry_command cmd len s)
      × Refused s (set_daq_list_mode_command cmd len s)
      × Refused s (set_daq_ptr_command cmd len s)
      × Refused s (write_daq cmd len s)
      × Refused s (write_daq_multiple cmd len s)
unfolding alloc_daq_command alloc_odt_command alloc_odt_entry_command set_daq_list_mode_command
    set_daq_ptr_command write_daq write_daq_multiple unless_running
configuration-Refused cmd len s h = (
  guarded 4 _,
  guarded 5 _,
  guarded 6 _,
  guarded 8 _,
  checked 6 _ (set_daq_ptr-running _ _ _ s.xcp h),
  checked 8 _ (add_odt_entry-running _ _ _ s.xcp h),
  if_cases (Refused s) (ltb len 10) (λ _. (33, omega arith, refl))
      (λ _. guarded (2 + 8 * get8 cmd 1) _),
)
  where
    guarded : (n : ℕ) (r : Reply _) → Refused s (check_len n len s (unless_running s r))
    guarded n r =
        if_cases (Refused s) (ltb len n) (λ _. (33, omega arith, refl))
          (λ _.
            if_cases (Refused s) (is_daq_running s.xcp) (λ _. (17, omega arith, refl))
              (λ f. absurd (true≢false (sym h ∙ f))))

    checked :
        (n : ℕ) (o : ℕ × Xcp)
        → ((err : ℕ) × (err ≢ 0) × (o ≡ (err, s.xcp)))
        → Refused s (check_len n len s (check_error (on_xcp o s)))
    checked n o (err, ne, e) =
        if_cases (Refused s) (ltb len n) (λ _. (33, omega arith, refl))
          (λ _.
            subst (λ o. Refused s (check_error (on_xcp o s))) (sym e)
              (if_cases (Refused s) (err == 0) (λ z. absurd (ne ((==_iff err 0).0 z)))
                (λ _. (err, ne, refl))))

-- Data acquisition is running from `s` to `s'`: the lists that were selected, and only those, have
-- been started, the response was handed over, and each entry that will be copied was granted.
abbrev pub Starts : {World : Type 0} → App World → Bool → Session World → Session World → Type 0
Starts app async s s' =
    let l = s.xcp.daq_lists in
    (is_daq_running s.xcp ≡ false)
    × (s'.xcp.daq_running ≡ true)
    × (s'.sent ≡ (send_response async s).sent)
    × ((d : ℕ)
        → d < l.daq_count
        → daq_state s'.xcp.daq_lists d
          ≡ (if is_selected l d then started (daq_state l d) else daq_state l d))
    × ((daq odt e : ℕ)
        → daq < l.daq_count
        → is_selected l daq ≡ true
        → first_odt l daq ≤ odt
        → odt ≤ last_odt l daq
        → first_odt_entry l odt ≤ e
        → e ≤ last_odt_entry l odt
        → (event_channel l daq ≢ xcp_undefined_event_id)
          × (entry_size l e ≢ 0)
          × (app.check_memory (entry_ext l e) (entry_addr l e) (entry_size l e) ≡ crc_cmd_ok))
