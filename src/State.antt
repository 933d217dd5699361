-- ===== src/State.antt =====
-- The state of the protocol layer, src/xcplite.h: `tXcpData`, `tXcpLocalData` and what they hold.
-- The calls that leave the modelled code are kept in order, so that a theorem can speak of them.
use xcplite.Prelude.{ℕ, Bool, not, ◌&&◌, List, ◌==◌, if◌then◌else◌}
use xcplite.Prelude.{bit_and, ◌≡◌, arith}
use xcplite.Memory.{Bytes}
use xcplite.Config.{ss_started, ss_connected, ss_activated}

-- `tXcpDaqLists`; `mem` is the union `u`, all tables overlaid in one block of bytes.
pub record DaqLists : Type 0 where
  pub odt_entry_count : ℕ
  pub odt_count : ℕ
  pub daq_count : ℕ
  pub res : ℕ
  pub mem : Bytes

-- `tXcpEvent`; the name is its bytes up to the terminating zero.
pub record Event : Type 0 where
  pub cycle_time_ns : ℕ
  pub index : ℕ
  pub daq_first : ℕ
  pub flags : ℕ
  pub name : List ℕ

-- A call of an application callback (src/xcpappl.c), or of the transport layer.
pub data AppCall : Type 0 where
  start_daq stop_daq wait_queue_empty : AppCall

-- The parts of `tXcpData` and `tXcpLocalData` that data acquisition reads and writes.
pub record Xcp : Type 0 where
  pub session_status : ℕ
  pub daq_running : Bool
  pub daq_lists : DaqLists
  pub daq_overflow_count : ℕ
  pub event_count : ℕ
  pub events : ℕ → Event
  pub write_daq_odt_entry : ℕ
  pub write_daq_odt : ℕ
  pub write_daq_daq : ℕ
  pub daq_start_clock : ℕ
  pub app_calls : List AppCall

-- isActivated(), isStarted(), isConnected(), isLegacyMode(): a bit of `session_status`
abbrev pub has_status : ℕ → Xcp → Bool
has_status bit x = not (bit_and x.session_status bit == 0)

unfoldable pub is_activated : Xcp → Bool
is_activated = has_status ss_activated

unfoldable pub is_started : Xcp → Bool
is_started = has_status ss_started

unfoldable pub is_connected : Xcp → Bool
is_connected = has_status ss_connected

-- isDaqRunning()
unfoldable pub is_daq_running : Xcp → Bool
unfolding is_started
is_daq_running x = is_started x && x.daq_running

-- `shared_mut.event_list.event[id] = e`
unfoldable pub set_event : (ℕ → Event) → ℕ → Event → ℕ → Event
set_event events id e i = if i == id then e else events i

pub daq_first-set_event :
    (events : ℕ → Event) (id : ℕ) (e : Event) (i : ℕ)
    → (set_event events id e i).daq_first ≡ (if i == id then e.daq_first else (events i).daq_first)
unfolding set_event
daq_first-set_event events id e i = ground arith
