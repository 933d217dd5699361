-- ===== src/Tests/DaqTests.antt =====
-- Data acquisition at the configuration of two DAQ lists.
use xcplite.Prelude.{
  inl, inr, ℕ, ◌≤◌, ◌<◌, ◌≡◌, refl, ◌≢◌, ◌⊎◌, arith, true, some, List, [], ◌∷◌, ◌++◌, length,
}
use xcplite.Config.{crc_cmd_ok, crc_daq_config, crc_out_of_range, xcp_undefined_event_id}
use xcplite.Memory.{cleared, get8, get16, get32, put8, put16}
use xcplite.State.{Xcp, is_daq_running, is_started, is_activated}
use xcplite.Daq.Tables.{event_channel, entry_size, entry_addr, entry_ext, daq_state, set_daq_state}
use xcplite.Daq.Layout.{IsWf}
use xcplite.Daq.Alloc.{clear_daq, alloc_daq, alloc_odt, alloc_odt_entry}
use xcplite.Daq.Alloc.Keeps.{
  clear_daq-Allocations-IsWf, none_yet, then_daq, then_odt, then_odt_entry,
}
use xcplite.Daq.Entry.{
  set_daq_ptr, EntrySpec, add_odt_entry, add_odt_entries, decode_entry, place_entry,
  checked_odt_size, commit_entry,
}
use xcplite.Daq.Entry.Cursor.{
  IsFreed, IsReady, ReadBack, add_odt_entry-IsReady, add_odt_entry-ReadBack,
  add_odt_entries-IsReady,
}
use xcplite.Daq.Entry.Empty.{Rewrites, add_odt_entry-set_daq_ptr}
use xcplite.Daq.Entry.Pointer.{PointsAt, set_daq_ptr_lem}
use xcplite.Daq.Mode.{set_daq_list_mode}
use xcplite.Daq.Mode.Refine.{Accepts, set_daq_list_mode_refines}
use xcplite.Daq.Mode.Frame.{Linked}
use xcplite.Daq.Reach.{
  DaqCommand, configure, alloc_odts, alloc_odt_entries, set_ptr, write_entry, set_mode, start_list,
  stop_all,
}
use xcplite.Daq.Run.{stop_selected_daq_lists}
use xcplite.Daq.Run.States.{daq_state-set_daq_state}
use xcplite.Daq.Run.Selected.{GoesOn, EndsAll, stop_selected_daq_lists_lem}
use xcplite.Daq.Run.Stopped.{StopsOne, stop_daq_list_lem}
use xcplite.Daq.Check.{
  check_daq_lists, check_lists, check_list, check_odts, check_entries, check_entry,
}
use xcplite.Daq.Check.Complete.{check_daq_lists_sound}
use xcplite.Daq.Trigger.{Transmit, odt_packet, buffer_size}
use xcplite.Daq.Trigger.Packets.{length-odt_packet}
use xcplite.Daq.Trigger.Cycle.{Cycles, alloc_daq-Cycles}
use xcplite.Tests.Setup.{
  two_lists, configured, first_bound, two_lists-IsWf, configured-IsReady, configured-IsLinked,
  daq_state-byte, below_two,
}

-- SET_DAQ_LIST_MODE binds the second list to the event 0 too.
set_daq_list_mode_refines_example :
    let out = set_daq_list_mode 1 0 16 1 0 configured in
    (out ≡ some (crc_daq_config, configured))
    ⊎ (out ≡ some (crc_out_of_range, configured))
    ⊎ Accepts first_bound 1 0 configured out
set_daq_list_mode_refines_example =
    set_daq_list_mode_refines first_bound 1 0 16 1 0 configured configured-IsLinked

add_odt_entry-IsReady_example : IsReady (add_odt_entry 0x1000 1 4 configured).1
add_odt_entry-IsReady_example = add_odt_entry-IsReady 0x1000 1 4 configured configured-IsReady

write_accepted : (add_odt_entry 0x1000 1 4 configured).0 ≡ crc_cmd_ok
unfolding add_odt_entry decode_entry place_entry checked_odt_size commit_entry is_daq_running
    is_started get8 get16 put8 put16 cleared
write_accepted = refl

add_odt_entry-ReadBack_example :
    ReadBack 0x1000 1 4 configured (add_odt_entry 0x1000 1 4 configured).1
add_odt_entry-ReadBack_example =
    add_odt_entry-ReadBack 0x1000 1 4 configured configured-IsReady (omega arith) (omega arith)
      write_accepted

abbrev two_entries : List EntrySpec
two_entries =
    record { addr = 0x1000; ext = 1; size = 4 } ∷ record { addr = 0x2000; ext = 1; size = 2 } ∷ []

-- The second list has one entry, so the second element is refused.
add_odt_entries-IsReady_example :
    (((add_odt_entries two_entries configured).0 ≡ crc_cmd_ok)
      × IsReady (add_odt_entries two_entries configured).1)
    ⊎ (((add_odt_entries two_entries configured).0 ≢ crc_cmd_ok)
        × IsFreed configured.event_count (add_odt_entries two_entries configured).1)
add_odt_entries-IsReady_example = add_odt_entries-IsReady two_entries configured configured-IsReady

-- two lists, an ODT in the first one with two entries, and another one that is refused
clear_daq-Allocations-IsWf_example :
    IsWf
      (alloc_odt 7 1
        (alloc_odt_entry 0 0 2
          (alloc_odt 0 1 (alloc_daq 2 (clear_daq configured)).1).1).1).1.daq_lists
unfolding clear_daq
clear_daq-Allocations-IsWf_example =
    clear_daq-Allocations-IsWf configured
      (then_odt 7 1 (then_odt_entry 0 0 2 (then_odt 0 1 (then_daq 2 none_yet (omega arith)))))

stop_daq_list_lem_example : StopsOne 0 configured
stop_daq_list_lem_example = stop_daq_list_lem 0 configured (daq_state-byte 0)

-- the first list runs and is selected, the second one runs
abbrev both_running : Xcp
both_running = record configured { daq_lists = set_daq_state (set_daq_state two_lists 0 3) 1 2 }

both_running-bytes : (k : ℕ) → daq_state both_running.daq_lists k < 256
both_running-bytes k = ground (
  arith,
  daq_state-byte k,
  daq_state-set_daq_state two_lists 0 3 k,
  daq_state-set_daq_state (set_daq_state two_lists 0 3) 1 2 k,
)

stop_selected_daq_lists_lem_example :
    let x' = stop_selected_daq_lists both_running in
    GoesOn 2 both_running x' ⊎ EndsAll both_running x'
stop_selected_daq_lists_lem_example = stop_selected_daq_lists_lem both_running both_running-bytes

-- the application grants every access
abbrev grant_all : ℕ → ℕ → ℕ → ℕ
grant_all ext addr size = 0

check_passes : check_daq_lists grant_all 1 0xffff two_lists ≡ true
unfolding get8 get16 get32 put8 put16 cleared check_daq_lists check_lists check_list check_odts
    check_entries check_entry
check_passes = refl

check_daq_lists_sound_example :
    (event_channel two_lists 0 ≢ xcp_undefined_event_id)
    × (entry_size two_lists 1 ≢ 0)
    × (grant_all (entry_ext two_lists 1) (entry_addr two_lists 1) (entry_size two_lists 1)
        ≡ crc_cmd_ok)
unfolding get8 get16 put8 put16 cleared
check_daq_lists_sound_example =
    check_daq_lists_sound grant_all two_lists 1 check_passes 0 0 1 (omega arith) refl (omega arith)
      (omega arith) (omega arith) (omega arith)

length-odt_packet_example :
    (length (odt_packet cleared (λ ext. 0x4000) two_lists 0 0 77 true)
      ≡ buffer_size cleared (λ ext. 0x4000) two_lists 0 true)
    × (buffer_size cleared (λ ext. 0x4000) two_lists 0 true ≤ 1024)
unfolding get16 put16 put8 cleared
length-odt_packet_example =
    length-odt_packet cleared (λ ext. 0x4000) two_lists 0 0 77 two_lists-IsWf
      configured-IsReady.sized configured-IsReady.short (omega arith) (omega arith) (omega arith)
      (omega arith)

-- a queue that keeps all packets
abbrev recorder : Transmit
recorder = record {
  Queue = List (List ℕ);
  acquire = λ size q. some q;
  push = λ packet flush q. q ++ packet ∷ [];
}

-- the first list is running
abbrev measuring : Xcp
measuring = record configured { daq_running = true; daq_lists = set_daq_state two_lists 0 2 }

set_daq_ptr_lem_example : PointsAt 1 0 0 configured
unfolding get16 put16 put8 cleared
set_daq_ptr_lem_example = set_daq_ptr_lem 1 0 0 configured two_lists-IsWf (omega arith)

-- Two events that begin with a list each, before any ODT is allocated.
abbrev two_events : Xcp
two_events = record configured {
  daq_lists = record two_lists { odt_count = 0; odt_entry_count = 0 };
  event_count = 2;
  events = λ i. record (configured.events 0) { daq_first = i };
}

alloc_daq-Cycles_example :
    let (r, x0) = alloc_daq 2 two_events in
    (r ≡ crc_cmd_ok) × Cycles cleared (λ ext. 0x4000) recorder 0 1 0 1 x0
unfolding is_activated
alloc_daq-Cycles_example =
    alloc_daq-Cycles cleared (λ ext. 0x4000) recorder 2 0 1 0 1 two_events refl refl refl
      (omega arith) (omega arith) (omega arith) (omega arith) (omega arith) (omega arith)
      (λ e. absurd (omega (arith, e))) refl refl

-- One list with one ODT of one entry on the event 0, started and stopped.
abbrev measurement : List DaqCommand
measurement =
    configure 1
    ∷ alloc_odts 0 1
    ∷ alloc_odt_entries 0 0 1
    ∷ set_ptr 0 0 0
    ∷ write_entry 0x1000 1 4
    ∷ set_mode 0 0 16 1 0
    ∷ start_list 5 0
    ∷ stop_all
    ∷ []

-- the ODT of the second list without entries
abbrev hollow : Xcp
hollow = record configured {
  daq_lists = record two_lists { odt_entry_count = 2; mem = put16 (put16 two_lists.mem 32 0) 34 0 };
}

hollow-IsWf : IsWf hollow.daq_lists
unfolding get16 put16 put8 cleared
hollow-IsWf = record {
  fits = omega arith;
  has_lists = λ h. omega arith;
  has_odts = λ h. omega arith;
  lists = below_two _ (omega arith, inl refl) (omega arith, inr (omega arith));
  odts = below_two _ (omega arith, inr (omega arith)) (omega arith, inl refl);
  fresh = λ none. absurd (omega arith);
}

add_odt_entry-set_daq_ptr_example :
    let (r, x') = set_daq_ptr 1 0 0 hollow in (r ≡ crc_cmd_ok) × Rewrites 1 0x1000 1 8 x'
unfolding get16 put16 put8 cleared is_daq_running is_started
add_odt_entry-set_daq_ptr_example =
    add_odt_entry-set_daq_ptr 1 0 0x1000 1 8 hollow hollow-IsWf (omega arith) (omega arith)
      (omega arith) refl refl refl
