-- ===== src/Daq/Trigger/Order.antt =====
-- The order in which an event triggers its DAQ lists, src/xcplite.c: the walk along the links is
-- the sequence that SET_DAQ_LIST_MODE has built.
use xcplite.Prelude.{ℕ, not, bit_and, List, [], ◌∷◌, leb, ◌==◌, if◌then◌else◌}
use xcplite.Memory.{Bytes}
use xcplite.State.{DaqLists, Xcp, is_daq_running}
use xcplite.Daq.Run.{is_running}
use xcplite.Daq.Mode.Linked.{Assoc}
use xcplite.Daq.Trigger.{Transmit, trigger_daq_list}

module _ (memory : Bytes) (bases : ℕ → ℕ) (t : Transmit) where
  open t use {Queue}

  -- The packets of the running lists of a sequence, list by list.
  abbrev pub trigger_lists : List ℕ → DaqLists → ℕ → Queue → Queue
  trigger_lists [] l clock q = q
  trigger_lists (d ∷ ds) l clock q =
      trigger_lists ds l clock
        (if is_running l d then trigger_daq_list memory bases t l d clock q else q)

  -- What an event does to the transmit queue, by the sequence of its DAQ lists.
  abbrev pub triggered : Assoc → ℕ → ℕ → ℕ → Xcp → Queue → Queue
  triggered assoc event now clock x q =
      let time = if clock == 0 then now else clock in
      if not (is_daq_running x)
      then q
      else if leb x.event_count event
      then q
      else if not (bit_and (x.events event).flags 1 == 0)
      then q
      else trigger_lists (assoc event) x.daq_lists time q
