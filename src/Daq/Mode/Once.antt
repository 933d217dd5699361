-- ===== src/Daq/Mode/Once.antt =====
-- SET_DAQ_LIST_MODE behind a single list of the event, src/xcplite.c, in any state.
use xcplite.Prelude.{
  ℕ, ◌≤◌, ◌<◌, ◌≡◌, refl, ◌≢◌, ◌∙◌, ap, contains, arith, true, false, some, [], ◌∷◌, ◌==◌,
  if◌then◌else◌,
}
use xcplite.Config.{crc_cmd_ok, xcp_undefined_event_id, xcp_undefined_daq_list}
use xcplite.State.{DaqLists, Xcp, is_activated}
use xcplite.Daq.Tables.{event_channel, next_daq, set_next_daq}
use xcplite.Daq.Mode.{
  linked, first_of, next_of, append_at, walk, walk_fuel, end_walk, store_slot, assign_mode,
  set_daq_list_mode, get_event,
}
use xcplite.Daq.Mode.Chain.{
  walk-IsChain, next_daq-assign_mode, event_channel-assign_mode, next_daq-set_next_daq,
  event_channel-set_next_daq,
}

-- The list `c` is the only one that the links of the event reach, and `d` is bound to no event.
pub record IsSingle (c d event : ℕ) (x : Xcp) : Type 0 where
  pub activated : is_activated x ≡ true
  pub few_lists : x.daq_lists.daq_count ≤ 256
  pub few_events : x.event_count ≤ 16
  pub c_in : c < x.daq_lists.daq_count
  pub d_in : d < x.daq_lists.daq_count
  pub event_in : event < x.event_count
  pub apart : c ≢ d
  pub first : (x.events event).daq_first ≡ c
  pub last : next_daq x.daq_lists c ≡ xcp_undefined_daq_list
  pub unbound : event_channel x.daq_lists d ≡ xcp_undefined_event_id

-- the tables behind the assignments, with `d` linked behind `c`
abbrev pub linked_behind : ℕ → ℕ → ℕ → Xcp → Xcp
linked_behind c d event x = record x {
  daq_lists = set_next_daq (assign_mode d event 16 0 x.daq_lists) c d;
}

pub set_daq_list_mode-IsSingle :
    (c d event : ℕ) (x : Xcp)
    → IsSingle c d event x
    → set_daq_list_mode d event 16 1 0 x ≡ some (crc_cmd_ok, linked_behind c d event x)
unfolding set_daq_list_mode get_event end_walk store_slot assign_mode
set_daq_list_mode-IsSingle c d event x v =
    ground (arith, v.activated, v.d_in, v.event_in, v.first, v.unbound, walked)
  where
    l' : DaqLists
    l' = assign_mode d event 16 0 x.daq_lists

    other : contains d (c ∷ []) ≡ false
    other = ground (arith, v.apart)

    walked : walk walk_fuel l' d (first_of event) c ≡ append_at (next_of c)
    walked =
        walk-IsChain walk_fuel l' d (first_of event) c (c ∷ []) v.few_lists
          (refl, v.c_in, next_daq-assign_mode d event 16 0 x.daq_lists c ∙ v.last) (omega arith)
        ∙ ap (λ t. if t then linked else append_at (next_of c)) other

-- What is linked then.
pub linked_behind-links :
    (c d event : ℕ) (x : Xcp) (k : ℕ)
    → IsSingle c d event x
    → let l = (linked_behind c d event x).daq_lists in
      (next_daq l k ≡ (if k == c then d else next_daq x.daq_lists k))
      × (event_channel l k ≡ (if k == d then event else event_channel x.daq_lists k))
linked_behind-links c d event x k v = ground (
  arith,
  next_daq-set_next_daq (assign_mode d event 16 0 x.daq_lists) c d k,
  event_channel-set_next_daq (assign_mode d event 16 0 x.daq_lists) c d k,
  next_daq-assign_mode d event 16 0 x.daq_lists k,
  event_channel-assign_mode d event 16 0 x.daq_lists k,
  v.few_lists,
  v.few_events,
  v.d_in,
  v.event_in,
)

pub linked_behind-count :
    (c d event : ℕ) (x : Xcp)
    → (linked_behind c d event x).daq_lists.daq_count ≡ x.daq_lists.daq_count
unfolding assign_mode
linked_behind-count c d event x = refl
