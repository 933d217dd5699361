-- ===== src/Daq/Mode.antt =====
-- The association of DAQ lists with events, src/xcplite.c: `XcpSetDaqListMode` with its walk along
-- the linked list of an event, and `XcpGetEvent`.
pub mod Chain
pub mod Linked
pub mod Append
pub mod Refine
pub mod Once
pub mod Frame
use xcplite.Prelude.{ℕ, zero, suc, ◌+◌, ◌*◌, not, ◌&&◌, ◌||◌, Bool, true, false}
use xcplite.Prelude.{ltb, leb, ◌==◌, if◌then◌else◌, Option, none, some}
use xcplite.Config.{
  crc_cmd_ok, crc_out_of_range, crc_daq_config, xcp_undefined_event_id, xcp_undefined_daq_list,
}
use xcplite.State.{DaqLists, Event, Xcp, is_activated, set_event}
use xcplite.Daq.Tables.{
  event_channel, set_event_channel, next_daq, set_next_daq, set_daq_mode, set_daq_priority,
}

-- `XcpGetEvent`
pub get_event : ℕ → Xcp → Option Event
unfolding is_activated
get_event event x =
    if not (is_activated x) || leb x.event_count event then none else some (x.events event)

-- What `daq0_next` points at.
pub data Slot : Type 0 where
  first_of : ℕ → Slot
  next_of : ℕ → Slot

-- The end of the walk: the list is linked already, or its link goes to a slot. `endless` is no
-- outcome of the C code: the fuel of the model ran out, as it does where the links form a cycle.
pub data Walk : Type 0 where
  linked endless : Walk
  append_at : Slot → Walk

-- while (daq0 != XCP_UNDEFINED_DAQ_LIST) { ... }
unfoldable pub walk : ℕ → DaqLists → ℕ → Slot → ℕ → Walk
walk zero l daq slot daq0 = endless
walk (suc fuel) l daq slot daq0 =
    let rest = walk fuel l daq (next_of daq0) (next_daq l daq0) in
    if daq0 == xcp_undefined_daq_list then append_at slot else if daq0 == daq then linked else rest

-- *daq0_next = daq
pub store_slot : Slot → ℕ → Xcp → Xcp
unfolding set_event
store_slot (first_of event) daq x = record x {
  events = set_event x.events event (record (x.events event) { daq_first = daq });
}
store_slot (next_of prev) daq x = record x { daq_lists = set_next_daq x.daq_lists prev daq }

pub end_walk : Walk → ℕ → Xcp → Option (ℕ × Xcp)
end_walk linked daq x = some (crc_cmd_ok, x)
end_walk endless daq x = none
end_walk (append_at slot) daq x = some (crc_cmd_ok, store_slot slot daq x)

-- The assignments before the walk: event channel, mode and priority of the list.
pub assign_mode : ℕ → ℕ → ℕ → ℕ → DaqLists → DaqLists
assign_mode daq event mode prio l =
    set_daq_priority (set_daq_mode (set_event_channel l daq event) daq mode) daq prio

-- There are fewer lists than 65536, so a walk that takes as many steps has met a cycle.
abbrev pub walk_fuel : ℕ
walk_fuel = 65536

-- `none`: the walk does not end.
pub set_daq_list_mode : ℕ → ℕ → ℕ → ℕ → ℕ → Xcp → Option (ℕ × Xcp)
set_daq_list_mode daq event mode prescaler prio x =
    let l = x.daq_lists in
    let l' = assign_mode daq event mode prio l in
    if leb l.daq_count daq
    then some (crc_daq_config, x)
    else if ltb 1 prescaler
    then some (crc_out_of_range, x)
    else elim (get_event event x) [
      | none ↦ some (crc_out_of_range, x)
      | some e ↦
          if not (event_channel l daq == xcp_undefined_event_id)
            && not (event == event_channel l daq)
          then some (crc_daq_config, x)
          else end_walk (walk walk_fuel l' daq (first_of event) (e.daq_first)) daq
              (record x { daq_lists = l' })
    ]
