-- ===== src/Events.antt =====
-- The event list, src/xcplite.c from `XcpInitEventList` to `XcpCreateEvent`, and `XcpEventEnable`.
-- A name is the list of its bytes before the terminating zero.
pub mod Find
use xcplite.Prelude.{
  ℕ, zero, suc, ◌+◌, ◌%◌, not, ◌&&◌, Bool, true, false, Option, none, some, List, [], ◌∷◌, bit_and,
  bit_or, length,
}
use xcplite.Prelude.{ltb, leb, ◌==◌, if◌then◌else◌}
use xcplite.Config.{
  xcp_undefined_event_id, xcp_undefined_daq_list, xcp_max_event_count, xcp_max_event_name,
  xcp_daq_event_flag_priority,
}
use xcplite.State.{Event, Xcp, is_activated, is_started, set_event}
use xcplite.Daq.Mode.{get_event}

-- `XcpInitEventList`
pub init_event_list : Xcp → Xcp
init_event_list x = record x { event_count = 0 }

-- `XcpGetEventCycleTime`, `XcpGetEventPriority` (XCP_DAQ_EVENT_FLAG_PRIORITY) and `XcpGetEventIndex`
pub get_event_cycle_time : ℕ → Xcp → ℕ
get_event_cycle_time event x = elim (get_event event x) [ none ↦ 0 | some e ↦ e.cycle_time_ns ]

pub get_event_priority : ℕ → Xcp → ℕ
get_event_priority event x = elim (get_event event x) [
  | none ↦ 0
  | some e ↦ if bit_and e.flags xcp_daq_event_flag_priority == 0 then 0 else 1
]

pub get_event_index : ℕ → Xcp → ℕ
get_event_index event x = elim (get_event event x) [ none ↦ 0 | some e ↦ e.index ]

-- strcmp(a, b) == 0
abbrev pub same_name : List ℕ → List ℕ → Bool
same_name [] [] = true
same_name [] (b ∷ bs) = false
same_name (a ∷ rest) [] = false
same_name (a ∷ rest) (b ∷ bs) = a == b && same_name rest bs

-- The loop of `XcpFindEventInstances` up to the event `n`: the first event found, and how many.
unfoldable pub find_below : ℕ → List ℕ → (ℕ → Event) → ℕ × ℕ
find_below zero name events = (xcp_undefined_event_id, 0)
find_below (suc i) name events =
    let (id, count) = find_below i name events in
    if same_name (events i).name name
    then (if id == xcp_undefined_event_id then i else id, (count + 1) % 65536)
    else (id, count)

-- `XcpFindEventInstances`
unfoldable pub find_event_instances : List ℕ → Xcp → ℕ × ℕ
unfolding find_below
find_event_instances name x =
    if is_activated x then find_below x.event_count name x.events else (xcp_undefined_event_id, 0)

-- `XcpFindEvent`
pub find_event : List ℕ → Xcp → ℕ
unfolding find_event_instances
find_event name x = (find_event_instances name x).0

-- The slot of a new event; the flags are XCP_DAQ_EVENT_FLAG_PRIORITY or none.
abbrev pub new_event : List ℕ → ℕ → ℕ → ℕ → Event
new_event name index cycle_time_ns priority = record {
  cycle_time_ns = cycle_time_ns;
  index = index;
  daq_first = xcp_undefined_daq_list;
  flags = if ltb 0 priority then xcp_daq_event_flag_priority else 0;
  name = name;
}

-- `XcpCreateIndexedEvent`
pub create_indexed_event : List ℕ → ℕ → ℕ → ℕ → Xcp → ℕ × Xcp
unfolding set_event is_activated
create_indexed_event name index cycle_time_ns priority x =
    let e = x.event_count in
    if not (is_activated x)
    then (xcp_undefined_event_id, x)
    else if ltb xcp_max_event_name (length name)
    then (xcp_undefined_event_id, x)
    else if leb xcp_max_event_count e
    then (xcp_undefined_event_id, x)
    else (
      e,
      record x {
        events = set_event x.events e (new_event name index cycle_time_ns priority);
        event_count = e + 1;
      },
    )

-- `XcpCreateEventInstance`, the mutex held
pub create_event_instance : List ℕ → ℕ → ℕ → Xcp → ℕ × Xcp
unfolding create_indexed_event find_event_instances
create_event_instance name cycle_time_ns priority x =
    let (id, count) = find_event_instances name x in
    if not (is_activated x)
    then (xcp_undefined_event_id, x)
    else create_indexed_event name ((count + 1) % 65536) cycle_time_ns priority x

-- `XcpCreateEvent`, the mutex held; `none`: the assertion that an existing event has one instance
-- fails.
pub create_event : List ℕ → ℕ → ℕ → Xcp → Option (ℕ × Xcp)
unfolding create_indexed_event find_event_instances
create_event name cycle_time_ns priority x =
    let (id, count) = find_event_instances name x in
    if not (is_activated x)
    then some (xcp_undefined_event_id, x)
    else if not (id == xcp_undefined_event_id)
    then if count == 1 then some (id, x) else none
    else some (create_indexed_event name 0 cycle_time_ns priority x)

-- `XcpEventEnable`; ~XCP_DAQ_EVENT_FLAG_DISABLED is 0xfe. `none`: the assertion fails that
-- the id is in range.
pub event_enable : ℕ → Bool → Xcp → Option Xcp
unfolding set_event
event_enable event enable x =
    let e = x.events event in
    let flags = if enable then bit_and e.flags 0xfe else bit_or e.flags 1 in
    if not (is_started x)
    then some x
    else if leb x.event_count event
    then none
    else some (record x { events = set_event x.events event (record e { flags = flags }) })
