-- ===== src/Daq/Reach.antt =====
-- Every configuration that the commands reach, src/xcplite.c: the links of the events are sound, so
-- that SET_DAQ_LIST_MODE and the events return.
use xcplite.Prelude.{ℕ, Option, none, some, List, [], ◌∷◌, bit_or}
use xcplite.Config.{daq_state_selected}
use xcplite.State.{Xcp}
use xcplite.Daq.Tables.{daq_state, set_daq_state}
use xcplite.Daq.Alloc.{clear_daq, alloc_daq, alloc_odt, alloc_odt_entry}
use xcplite.Daq.Run.{
  start_daq, stop_daq, start_daq_list, start_selected_daq_lists, stop_daq_list,
  stop_selected_daq_lists,
}
use xcplite.Daq.Entry.{set_daq_ptr, add_odt_entry}
use xcplite.Daq.Mode.{set_daq_list_mode}
use xcplite.Daq.Mode.Frame.{Linked}

-- The operations that the commands on the DAQ configuration call. The protocol asks for a FREE_DAQ
-- before ALLOC_DAQ, so `configure` is the two in that order.
pub data DaqCommand : Type 0 where
  configure : ℕ → DaqCommand
  alloc_odts : ℕ → ℕ → DaqCommand
  alloc_odt_entries : ℕ → ℕ → ℕ → DaqCommand
  set_ptr : ℕ → ℕ → ℕ → DaqCommand
  write_entry : ℕ → ℕ → ℕ → DaqCommand
  set_mode : ℕ → ℕ → ℕ → ℕ → ℕ → DaqCommand
  select_list : ℕ → DaqCommand
  start_selected_lists : ℕ → DaqCommand
  start_list : ℕ → ℕ → DaqCommand
  stop_all : DaqCommand
  stop_list : ℕ → DaqCommand
  stop_selected_lists : DaqCommand

-- none: the operation does not return
unfoldable pub perform : DaqCommand → Xcp → Option Xcp
perform (configure n) x = some (alloc_daq n (clear_daq x)).1
perform (alloc_odts daq n) x = some (alloc_odt daq n x).1
perform (alloc_odt_entries daq odt n) x = some (alloc_odt_entry daq odt n x).1
perform (set_ptr daq odt idx) x = some (set_daq_ptr daq odt idx x).1
perform (write_entry addr ext size) x = some (add_odt_entry addr ext size x).1
perform (set_mode daq event mode prescaler prio) x =
    elim (set_daq_list_mode daq event mode prescaler prio x) [
      | none ↦ none
      | some (r, x') ↦ some x'
    ]
perform (select_list daq) x = some (record x {
  daq_lists = set_daq_state x.daq_lists daq (bit_or (daq_state x.daq_lists daq) daq_state_selected);
})
perform (start_selected_lists now) x = some (start_daq now (start_selected_daq_lists x))
perform (start_list now daq) x =
    some (start_daq now (record x { daq_lists = start_daq_list daq x.daq_lists }))
perform stop_all x = some (stop_daq x)
perform (stop_list daq) x = some (stop_daq_list daq x)
perform stop_selected_lists x = some (stop_selected_daq_lists x)

unfoldable pub perform_all : List DaqCommand → Xcp → Option Xcp
unfolding perform
perform_all [] x = some x
perform_all (c ∷ cs) x = elim (perform c x) [ none ↦ none | some x' ↦ perform_all cs x' ]
