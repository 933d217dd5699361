-- ===== src/Daq/Trigger/Cycle.antt =====
-- Linking DAQ lists behind stale sequences of events, src/xcplite.c: `XcpAllocDaq` resets the links
-- of the DAQ lists but not `daq_first` of the events.
use xcplite.Prelude.{
  ℕ, zero, suc, ◌≤◌, ◌<◌, ◌≡◌, refl, ◌≢◌, sym, ap, ◌∙◌, arith, true, none, some, if◌then◌else◌,
}
use xcplite.Config.{crc_cmd_ok, xcp_undefined_event_id, xcp_undefined_daq_list}
use xcplite.Memory.{Bytes}
use xcplite.State.{DaqLists, Xcp, is_activated}
use xcplite.Daq.Tables.{event_channel, next_daq}
use xcplite.Daq.Alloc.{alloc_daq}
use xcplite.Daq.Alloc.Lists.{alloc_daq-links}
use xcplite.Daq.Run.{is_running}
use xcplite.Daq.Mode.{set_daq_list_mode}
use xcplite.Daq.Mode.Once.{
  IsSingle, linked_behind, set_daq_list_mode-IsSingle, linked_behind-links, linked_behind-count,
}
use xcplite.Daq.Trigger.{Transmit, trigger_daq_list, trigger_chain}

-- Two events still begin with the lists `a` and `b`, whose links and event channels have been reset.
pub record IsStale (a b ea eb : ℕ) (x : Xcp) : Type 0 where
  pub activated : is_activated x ≡ true
  pub few_lists : x.daq_lists.daq_count ≤ 256
  pub few_events : x.event_count ≤ 16
  pub a_in : a < x.daq_lists.daq_count
  pub b_in : b < x.daq_lists.daq_count
  pub ea_in : ea < x.event_count
  pub eb_in : eb < x.event_count
  pub apart : a ≢ b
  pub first_a : (x.events ea).daq_first ≡ a
  pub first_b : (x.events eb).daq_first ≡ b
  pub last_a : next_daq x.daq_lists a ≡ xcp_undefined_daq_list
  pub last_b : next_daq x.daq_lists b ≡ xcp_undefined_daq_list
  pub unbound_a : event_channel x.daq_lists a ≡ xcp_undefined_event_id
  pub unbound_b : event_channel x.daq_lists b ≡ xcp_undefined_event_id

module _ (memory : Bytes) (bases : ℕ → ℕ) (t : Transmit) where
  open t use {Queue}

  -- Two lists that are linked to each other are triggered forever.
  trigger_chain-cycle :
      (l : DaqLists) (a b : ℕ)
      → a < 65535
      → b < 65535
      → next_daq l a ≡ b
      → next_daq l b ≡ a
      → (fuel clock : ℕ) (q : Queue)
      → (trigger_chain memory bases t fuel l a clock q ≡ none)
        × (trigger_chain memory bases t fuel l b clock q ≡ none)
  unfolding trigger_chain
  trigger_chain-cycle l a b ha hb na nb zero clock q = (refl, refl)
  trigger_chain-cycle l a b ha hb na nb (suc fuel) clock q = ground (
    arith,
    trigger_chain-cycle l a b ha hb na nb fuel clock
        (if is_running l a then trigger_daq_list memory bases t l a clock q else q),
    trigger_chain-cycle l a b ha hb na nb fuel clock
        (if is_running l b then trigger_daq_list memory bases t l b clock q else q),
  )

  -- What two SET_DAQ_LIST_MODE make of a stale state.
  abbrev pub Cycles : ℕ → ℕ → ℕ → ℕ → Xcp → Type 0
  Cycles a b ea eb x =
      (x1 : Xcp) × (x2 : Xcp) × (set_daq_list_mode b ea 16 1 0 x ≡ some (crc_cmd_ok, x1))
      × (set_daq_list_mode a eb 16 1 0 x1 ≡ some (crc_cmd_ok, x2))
      × ((fuel clock : ℕ) (q : Queue)
          → trigger_chain memory bases t fuel x2.daq_lists (x2.events ea).daq_first clock q ≡ none)

  stale-Cycles : (a b ea eb : ℕ) (x : Xcp) → IsStale a b ea eb x → Cycles a b ea eb x
  unfolding is_activated
  stale-Cycles a b ea eb x v = (
    x1,
    x2,
    set_daq_list_mode-IsSingle a b ea x single,
    set_daq_list_mode-IsSingle b a eb x1 single1,
    λ fuel clock q. rw v.first_a (
        (trigger_chain-cycle x2.daq_lists a b (omega (arith, v.a_in, v.few_lists))
          (omega (arith, v.b_in, v.few_lists)) next_a next_b fuel clock q).0),
  )
    where
      single : IsSingle a b ea x
      single = record {
        activated = v.activated;
        few_lists = v.few_lists;
        few_events = v.few_events;
        c_in = v.a_in;
        d_in = v.b_in;
        event_in = v.ea_in;
        apart = v.apart;
        first = v.first_a;
        last = v.last_a;
        unbound = v.unbound_b;
      }

      x1 : Xcp
      x1 = linked_behind a b ea x

      count1 : x1.daq_lists.daq_count ≡ x.daq_lists.daq_count
      count1 = linked_behind-count a b ea x

      single1 : IsSingle b a eb x1
      single1 = record {
        activated = v.activated;
        few_lists = rw count1 v.few_lists;
        few_events = v.few_events;
        c_in = rw count1 v.b_in;
        d_in = rw count1 v.a_in;
        event_in = v.eb_in;
        apart = λ e. v.apart (sym e);
        first = v.first_b;
        last = ground (arith, linked_behind-links a b ea x b single, v.last_b, v.apart);
        unbound = ground (arith, linked_behind-links a b ea x a single, v.unbound_a, v.apart);
      }

      x2 : Xcp
      x2 = linked_behind b a eb x1

      next_a : next_daq x2.daq_lists a ≡ b
      next_a = ground (
        arith,
        linked_behind-links a b ea x a single,
        linked_behind-links b a eb x1 a single1,
        v.apart,
      )

      next_b : next_daq x2.daq_lists b ≡ a
      next_b = ground (arith, linked_behind-links b a eb x1 b single1)

  -- Let XCP be activated, with at most 16 events, no ODT allocated, and the events `ea` and `eb`
  -- beginning with different DAQ lists. Another ALLOC_DAQ of fewer than 256 lists that covers both is
  -- accepted. Binding each of the two lists to the event that begins with the other one is accepted
  -- then too, and links them in a cycle: the walk over the lists of the event `ea` takes more steps
  -- than any number.
  pub alloc_daq-Cycles :
      (n a b ea eb : ℕ) (x : Xcp)
      → is_activated x ≡ true
      → x.daq_lists.odt_count ≡ 0
      → x.daq_lists.odt_entry_count ≡ 0
      → n < 256
      → x.event_count ≤ 16
      → a < n
      → b < n
      → ea < x.event_count
      → eb < x.event_count
      → a ≢ b
      → (x.events ea).daq_first ≡ a
      → (x.events eb).daq_first ≡ b
      → let (r, x0) = alloc_daq n x in (r ≡ crc_cmd_ok) × Cycles a b ea eb x0
  unfolding is_activated
  alloc_daq-Cycles n a b ea eb x act no_odts no_entries small few a_in b_in ea_in eb_in ne first_a
        first_b =
      let (x', e, count, events, event_count, status, fresh) =
        alloc_daq-links n x no_odts no_entries (omega arith) small in
      rw e (
        refl,
        stale-Cycles a b ea eb x' (record {
          activated = rw status act;
          few_lists = omega (arith, count);
          few_events = omega (arith, event_count);
          a_in = omega (arith, count);
          b_in = omega (arith, count);
          ea_in = omega (arith, event_count);
          eb_in = omega (arith, event_count);
          apart = ne;
          first_a = ap (λ es. (es ea).daq_first) events ∙ first_a;
          first_b = ap (λ es. (es eb).daq_first) events ∙ first_b;
          last_a = (fresh a a_in).0;
          last_b = (fresh b b_in).0;
          unbound_a = (fresh a a_in).1;
          unbound_b = (fresh b b_in).1;
        }),
      )
