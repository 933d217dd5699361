-- ===== src/Daq/Run.antt =====
-- Starting and stopping of data acquisition, src/xcplite.c from `XcpStartDaq` to
-- `XcpStopSelectedDaqLists`, and `XcpIsDaqEventRunning`.
pub mod States
pub mod Stopped
pub mod Links
pub mod Selected
use xcplite.Prelude.{
  ℕ, zero, suc, ◌+◌, ◌*◌, not, ◌&&◌, ◌||◌, Bool, true, false, ◌∷◌, bit_and, bit_or,
}
use xcplite.Prelude.{ltb, leb, ◌==◌, if◌then◌else◌}
use xcplite.Config.{ss_daq, daq_state_running, daq_state_selected, daq_state_stopped_unselected}
use xcplite.State.{DaqLists, Xcp, AppCall, is_daq_running}
use xcplite.Daq.Tables.{event_channel, daq_state, set_daq_state}
use xcplite.Daq.Alloc.{clear_ss_daq}

-- (DaqListState(daq) & bit) != 0
abbrev pub has_state : ℕ → DaqLists → ℕ → Bool
has_state bit l daq = not (bit_and (daq_state l daq) bit == 0)

abbrev pub is_running : DaqLists → ℕ → Bool
is_running = has_state daq_state_running

abbrev pub is_selected : DaqLists → ℕ → Bool
is_selected = has_state daq_state_selected

-- `XcpStartDaq` at the clock `now`
pub start_daq : ℕ → Xcp → Xcp
unfolding is_daq_running
start_daq now x = if is_daq_running x then x else record x {
  daq_start_clock = now;
  daq_overflow_count = 0;
  app_calls = AppCall.start_daq ∷ x.app_calls;
  session_status = bit_or x.session_status ss_daq;
  daq_running = true;
}

-- for (daq = 0; daq < n; daq++) DaqListStateMut(daq) = DAQ_STATE_STOPPED_UNSELECTED
pub reset_states : ℕ → DaqLists → DaqLists
reset_states zero l = l
reset_states (suc daq) l = set_daq_state (reset_states daq l) daq daq_state_stopped_unselected

-- `XcpStopDaq`
pub stop_daq : Xcp → Xcp
stop_daq x = record x {
  session_status = clear_ss_daq x.session_status;
  daq_running = false;
  daq_lists = reset_states x.daq_lists.daq_count x.daq_lists;
  app_calls = AppCall.stop_daq ∷ x.app_calls;
}

-- `XcpStartDaqList`
pub start_daq_list : ℕ → DaqLists → DaqLists
start_daq_list daq l = set_daq_state l daq (bit_or (daq_state l daq) daq_state_running)

-- the body of the loop of `XcpStartSelectedDaqLists`: ~DAQ_STATE_SELECTED is 0xfe
pub start_if_selected : ℕ → DaqLists → DaqLists
start_if_selected daq l =
    if is_selected l daq
    then start_daq_list daq (set_daq_state l daq (bit_and (daq_state l daq) 0xfe))
    else l

-- for (daq = 0; daq < n; daq++)
pub start_selected : ℕ → DaqLists → DaqLists
start_selected zero l = l
start_selected (suc daq) l = start_if_selected daq (start_selected daq l)

pub start_selected_daq_lists : Xcp → Xcp
start_selected_daq_lists x = record x {
  daq_lists = start_selected x.daq_lists.daq_count x.daq_lists;
}

-- for (d = 0; d < n; d++) if ((DaqListState(d) & DAQ_STATE_RUNNING) != 0) return
pub any_running : ℕ → DaqLists → Bool
any_running zero l = false
any_running (suc d) l = any_running d l || is_running l d

-- `XcpStopDaqList`: ~(DAQ_STATE_OVERRUN | DAQ_STATE_RUNNING) is 0xf9
pub stop_daq_list : ℕ → Xcp → Xcp
unfolding any_running stop_daq
stop_daq_list daq x =
    let l = set_daq_state x.daq_lists daq (bit_and (daq_state x.daq_lists daq) 0xf9) in
    let x' = record x { daq_lists = l } in
    if any_running x.daq_lists.daq_count l then x' else stop_daq x'

-- the loop of `XcpStopSelectedDaqLists` up to the list `n`
pub stop_selected : ℕ → Xcp → Xcp
unfolding stop_daq_list
stop_selected zero x = x
stop_selected (suc daq) x =
    let x' = stop_selected daq x in
    if is_selected x'.daq_lists daq
    then (let x2 = stop_daq_list daq x' in
        record x2 { daq_lists = set_daq_state x2.daq_lists daq daq_state_stopped_unselected })
    else x'

pub stop_selected_daq_lists : Xcp → Xcp
stop_selected_daq_lists x = stop_selected x.daq_lists.daq_count x

-- the loop of `XcpIsDaqEventRunning`
pub event_running : ℕ → ℕ → DaqLists → Bool
event_running event zero l = false
event_running event (suc daq) l =
    event_running event daq l || is_running l daq && event_channel l daq == event

-- `XcpIsDaqEventRunning`
pub is_daq_event_running : ℕ → Xcp → Bool
unfolding is_daq_running event_running
is_daq_event_running event x =
    is_daq_running x && event_running event x.daq_lists.daq_count x.daq_lists
