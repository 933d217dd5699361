-- ===== src/Daq/Trigger.antt =====
-- Data acquisition on an event, src/xcplite.c: `XcpTriggerDaqList_`, `XcpTriggerDaqEvent_` and the
-- DAQ part of `XcpEventExtAt_`. The transmit queue is what `queueAcquire` and `queuePush` (queue.h)
-- make of a state of any type.
pub mod Packets
pub mod Order
pub mod Cycle
use xcplite.Prelude.{
  ℕ, zero, suc, ◌+◌, ◌-◌, ◌*◌, ◌/◌, ◌%◌, ◌^◌, not, ◌&&◌, Bool, true, false, bit_and, Option, none,
  some, List, [], ◌∷◌, ◌++◌,
}
use xcplite.Prelude.{leb, ◌==◌, if◌then◌else◌}
use xcplite.Config.{xcp_undefined_daq_list, odt_header_size, odt_timestamp_size}
use xcplite.Memory.{Bytes}
use xcplite.State.{DaqLists, Event, Xcp, is_started, is_daq_running}
use xcplite.Daq.Tables.{
  first_odt, last_odt, next_daq, daq_priority, first_odt_entry, last_odt_entry, odt_size,
  entry_size, entry_addr, entry_ext,
}
use xcplite.Daq.Run.{is_running}

-- `acquire size q`: the queue with a buffer of `size` bytes taken, or `none` for a NULL buffer.
-- `push packet flush q`: the queue with the filled buffer committed.
pub record Transmit : Type 1 where
  pub Queue : Type 0
  pub acquire : ℕ → Queue → Option Queue
  pub push : List ℕ → Bool → Queue → Queue

-- memcpy from the memory of the application
pub copy_bytes : Bytes → ℕ → ℕ → List ℕ
copy_bytes memory src zero = []
copy_bytes memory src (suc n) = memory src ∷ copy_bytes memory (src + 1) n

module _ (memory : Bytes) (bases : ℕ → ℕ) where
  -- The inner loop: the entries from `e` on, `n` of them, each at its base plus its offset.
  pub copy_entries : ℕ → DaqLists → ℕ → List ℕ
  copy_entries zero l e = []
  copy_entries (suc n) l e =
      copy_bytes memory ((bases (entry_ext l e) + entry_addr l e) % 2 ^ 64) (entry_size l e)
      ++ copy_entries n l (e + 1)

  -- The header of an ODT: relative number, fill byte, DAQ list number; the first has a timestamp.
  pub odt_header : DaqLists → ℕ → ℕ → ℕ → Bool → List ℕ
  odt_header l daq odt clock is_first =
      (odt + 65536 - first_odt l daq) % 256
      ∷ 0xaa
      ∷ daq % 256
      ∷ daq / 256 % 256
      ∷ (if is_first
          then clock % 256 ∷ clock / 256 % 256 ∷ clock / 65536 % 256 ∷ clock / 16777216 % 256 ∷ []
          else [])

  pub odt_packet : DaqLists → ℕ → ℕ → ℕ → Bool → List ℕ
  odt_packet l daq odt clock is_first =
      odt_header l daq odt clock is_first
      ++ copy_entries (last_odt_entry l odt + 1 - first_odt_entry l odt) l (first_odt_entry l odt)

  -- The bytes that are asked of the queue: DaqListOdtTable[odt].size + hs
  abbrev pub buffer_size : DaqLists → ℕ → Bool → ℕ
  buffer_size l odt is_first =
      odt_size l odt + (if is_first then odt_header_size + odt_timestamp_size else odt_header_size)

  module _ (t : Transmit) where
    open t use {Queue, acquire, push}

    -- The outer loop over the ODTs of a list, `n` rounds left: a NULL buffer ends it.
    pub trigger_odts : ℕ → DaqLists → ℕ → ℕ → ℕ → Bool → Queue → Queue
    trigger_odts zero l daq odt clock is_first q = q
    trigger_odts (suc n) l daq odt clock is_first q =
        elim (acquire (buffer_size l odt is_first) q) [
          | none ↦ q
          | some q' ↦ trigger_odts n l daq (odt + 1) clock false (
              push (odt_packet l daq odt clock is_first)
                (not (daq_priority l daq == 0) && odt == last_odt l daq) q')
        ]

    -- `XcpTriggerDaqList_`
    pub trigger_daq_list : DaqLists → ℕ → ℕ → Queue → Queue
    trigger_daq_list l daq clock q =
        trigger_odts (last_odt l daq + 1 - first_odt l daq) l daq (first_odt l daq) clock true q

    -- for (daq = DaqListFirst(event); daq != XCP_UNDEFINED_DAQ_LIST; daq = DaqListNext(daq));
    -- `none`: the links do not end within the fuel.
    pub trigger_chain : ℕ → DaqLists → ℕ → ℕ → Queue → Option Queue
    trigger_chain zero l daq clock q = none
    trigger_chain (suc fuel) l daq clock q =
        let rest = λ (q' : Queue). trigger_chain fuel l (next_daq l daq) clock q' in
        if daq == xcp_undefined_daq_list
        then some q
        else rest (if is_running l daq then trigger_daq_list l daq clock q else q)

    -- `XcpTriggerDaqEvent_`: the clock 0 stands for the current time `now`.
    pub trigger_daq_event : ℕ → ℕ → ℕ → ℕ → Xcp → Queue → Option Queue
    trigger_daq_event fuel event now clock x q =
        let time = if clock == 0 then now else clock in
        if leb x.event_count event
        then some q
        else if not (bit_and (x.events event).flags 1 == 0)
        then some q
        else trigger_chain fuel x.daq_lists (x.events event).daq_first time q

    -- `XcpEventExtAt_` behind the processing of a pending command
    pub event_daq : ℕ → ℕ → ℕ → ℕ → Xcp → Queue → Option Queue
    event_daq fuel event now clock x q =
        if not (is_started x)
        then some q
        else if not (is_daq_running x)
        then some q
        else trigger_daq_event fuel event now clock x q
