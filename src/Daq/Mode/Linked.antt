-- ===== src/Daq/Mode/Linked.antt =====
-- SET_DAQ_LIST_MODE as an operation on the association of events with sequences of DAQ lists.
use xcplite.Prelude.{
  ℕ, ◌≤◌, ◌<◌, ◌≡◌, refl, ◌∙◌, ◌⊎◌, arith, true, false, List, [], ◌∷◌, ◌++◌, ◌==◌, if◌then◌else◌,
  All, contains, Distinct, some, All-contains, All-imp,
}
use xcplite.State.{Xcp}
use xcplite.Config.{
  xcp_undefined_daq_list, xcp_undefined_event_id, crc_daq_config, crc_out_of_range,
}
use xcplite.Daq.Tables.{next_daq, event_channel}
use xcplite.Daq.Mode.{
  first_of, walk, walk_fuel, end_walk, assign_mode, set_daq_list_mode, get_event,
}
use xcplite.Daq.Mode.Chain.{IsChain, IsChain-frame, next_daq-assign_mode, event_channel-assign_mode}

-- The lists of each event, in the order in which they are triggered.
abbrev pub Assoc : Type 0
Assoc = ℕ → List ℕ

abbrev pub insert : ℕ → List ℕ → List ℕ
insert daq ds = if contains daq ds then ds else ds ++ daq ∷ []

abbrev pub assoc_with : Assoc → ℕ → ℕ → Assoc
assoc_with assoc event daq e = if e == event then insert daq (assoc event) else assoc e

-- The links in the tables and the events spell out `assoc`.
pub record IsLinked (assoc : Assoc) (x : Xcp) : Type 0 where
  pub few_events : x.event_count ≤ 16
  pub few_lists : x.daq_lists.daq_count ≤ 256
  pub chain : (e : ℕ) → e < x.event_count → IsChain x.daq_lists (x.events e).daq_first (assoc e)
  pub members : (e : ℕ) → e < x.event_count → All (λ d. event_channel x.daq_lists d ≡ e) (assoc e)
  pub inside : (e : ℕ) → e < x.event_count → All (λ d. d < x.daq_lists.daq_count) (assoc e)
  pub distinct : (e : ℕ) → e < x.event_count → Distinct (assoc e)
  pub unlinked :
      (d : ℕ)
      → d < x.daq_lists.daq_count
      → ((e : ℕ) → e < x.event_count → contains d (assoc e) ≡ false)
      → next_daq x.daq_lists d ≡ xcp_undefined_daq_list

-- The state behind the assignments, and what the walk then leaves.
abbrev pub assigned : ℕ → ℕ → ℕ → ℕ → Xcp → Xcp
assigned daq event mode prio x = record x {
  daq_lists = assign_mode daq event mode prio x.daq_lists;
}

pub guards-set_daq_list_mode :
    (daq event mode prescaler prio : ℕ) (x : Xcp)
    → (set_daq_list_mode daq event mode prescaler prio x ≡ some (crc_daq_config, x))
      ⊎ (set_daq_list_mode daq event mode prescaler prio x ≡ some (crc_out_of_range, x))
      ⊎ ((daq < x.daq_lists.daq_count)
          × (event < x.event_count)
          × ((event_channel x.daq_lists daq ≡ xcp_undefined_event_id)
              ⊎ (event_channel x.daq_lists daq ≡ event))
          × (set_daq_list_mode daq event mode prescaler prio x
              ≡ end_walk
                  (walk walk_fuel
                    (assign_mode daq event mode prio x.daq_lists)
                    daq
                    (first_of event)
                    (x.events event).daq_first)
                  daq
                  (assigned daq event mode prio x)))
unfolding set_daq_list_mode get_event
guards-set_daq_list_mode daq event mode prescaler prio x = ground arith

-- The assignments change no link, and no event channel of a list that is linked elsewhere.
module _ (assoc : Assoc) (daq event mode prio : ℕ) (x : Xcp) (v : IsLinked assoc x)
    (event_in : event < x.event_count)
    (free : (event_channel x.daq_lists daq ≡ xcp_undefined_event_id)
      ⊎ (event_channel x.daq_lists daq ≡ event)) where
  abbrev pub x1 : Xcp
  x1 = assigned daq event mode prio x

  count-x1 : x1.daq_lists.daq_count ≡ x.daq_lists.daq_count
  unfolding assign_mode
  count-x1 = refl

  pub assigned-IsLinked : IsLinked assoc x1
  assigned-IsLinked = record {
    few_events = v.few_events;
    few_lists = rw count-x1 v.few_lists;
    chain = λ e h.
        IsChain-frame x.daq_lists x1.daq_lists (x.events e).daq_first (assoc e) count-x1
          (All-imp (λ d. d < x.daq_lists.daq_count) _ (assoc e)
            (λ d _. next_daq-assign_mode daq event mode prio x.daq_lists d) (v.inside e h))
          (v.chain e h);
    members = λ e h.
        All-imp (λ d. event_channel x.daq_lists d ≡ e) _ (assoc e)
          (λ d p. ground (
            arith,
            event_channel-assign_mode daq event mode prio x.daq_lists d,
            v.few_events,
            h,
            p,
          ))
          (v.members e h);
    inside = λ e h. rw count-x1 (v.inside e h);
    distinct = v.distinct;
    unlinked = λ d h no.
        next_daq-assign_mode daq event mode prio x.daq_lists d ∙ v.unlinked d (rw count-x1 at h) no;
  }

  -- Only the list of `event` can hold `daq`.
  pub elsewhere : (e : ℕ) → e < x.event_count → contains daq (assoc e) ≡ true → e ≡ event
  elsewhere e h c = omega (
    arith,
    free,
    v.few_events,
    All-contains (λ d. event_channel x.daq_lists d ≡ e) daq (assoc e) (v.members e h) c,
  )
