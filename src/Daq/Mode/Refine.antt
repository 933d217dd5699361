-- ===== src/Daq/Mode/Refine.antt =====
-- SET_DAQ_LIST_MODE, `XcpSetDaqListMode` of src/xcplite.c, against the association of events with
-- sequences of DAQ lists.
use mathlib.Core.Path.{fun_ext}
use native.Mathlib.Decide.{ℕ_discrete}
use xcplite.Prelude.{
  ℕ, ◌<◌, ◌≡◌, refl, sym, subst, ◌∙◌, ◌⊎◌, inl, inr, arith, true, false, if◌then◌else◌, contains,
  some, Option, Bool-cases, length-Distinct-le,
}
use xcplite.State.{Xcp}
use xcplite.Config.{xcp_undefined_event_id, crc_cmd_ok, crc_daq_config, crc_out_of_range}
use xcplite.Daq.Tables.{event_channel}
use xcplite.Daq.Mode.{
  Slot, next_of, first_of, linked, append_at, walk, walk_fuel, end_walk, store_slot, assign_mode,
  set_daq_list_mode,
}
use xcplite.Daq.Mode.Chain.{
  walk-IsChain, end_slot, event_channel-assign_mode, event_channel-set_next_daq,
}
use xcplite.Daq.Mode.Linked.{
  Assoc, assoc_with, IsLinked, guards-set_daq_list_mode, assigned, assigned-IsLinked, elsewhere,
}
use xcplite.Daq.Mode.Append.{append-IsLinked}

assoc_with_linked :
    (assoc : Assoc) (event daq : ℕ)
    → contains daq (assoc event) ≡ true
    → assoc ≡ assoc_with assoc event daq
assoc_with_linked assoc event daq h = fun_ext λ e. elim (ℕ_discrete e event) [
  | yes eq ↦ subst (λ k. assoc k ≡ assoc_with assoc event daq k) (sym eq) (ground arith)
  | no ne ↦ ground arith
]

event_channel-store_slot :
    (slot : Slot) (daq d : ℕ) (x : Xcp)
    → event_channel (store_slot slot daq x).daq_lists d ≡ event_channel x.daq_lists d
unfolding store_slot
event_channel-store_slot (first_of event) daq d x = refl
event_channel-store_slot (next_of prev) daq d x = event_channel-set_next_daq x.daq_lists prev daq d

-- The list ends up in the sequence of the event.
abbrev pub Accepts : Assoc → ℕ → ℕ → Xcp → Option (ℕ × Xcp) → Type 0
Accepts assoc daq event x out =
    (x' : Xcp) × (out ≡ some (crc_cmd_ok, x'))
    × (daq < x.daq_lists.daq_count)
    × (event < x.event_count)
    × IsLinked (assoc_with assoc event daq) x'
    × (event_channel x'.daq_lists daq ≡ event)

module _ (assoc : Assoc) (daq event mode prio : ℕ) (x : Xcp) (v : IsLinked assoc x)
    (daq_in : daq < x.daq_lists.daq_count) (event_in : event < x.event_count)
    (free : (event_channel x.daq_lists daq ≡ xcp_undefined_event_id)
      ⊎ (event_channel x.daq_lists daq ≡ event)) where
  abbrev y : Xcp
  y = assigned daq event mode prio x

  y-IsLinked : IsLinked assoc y
  y-IsLinked = assigned-IsLinked assoc daq event mode prio x v event_in free

  count-y : daq < y.daq_lists.daq_count
  unfolding assign_mode
  count-y = daq_in

  channel-y : event_channel y.daq_lists daq ≡ event
  channel-y =
      ground (
        arith,
        event_channel-assign_mode daq event mode prio x.daq_lists daq,
        v.few_events,
        event_in,
      )

  walk-y : walk walk_fuel y.daq_lists daq (first_of event) (x.events event).daq_first ≡ (
      if contains daq (assoc event)
      then linked
      else append_at (end_slot (first_of event) (assoc event)))
  walk-y =
      walk-IsChain walk_fuel y.daq_lists daq (first_of event) (x.events event).daq_first
        (assoc event) y-IsLinked.few_lists (y-IsLinked.chain event event_in)
        (omega (
          arith,
          length-Distinct-le y.daq_lists.daq_count (assoc event) (y-IsLinked.inside event event_in)
              (v.distinct event event_in),
          y-IsLinked.few_lists,
        ))

  absent :
      contains daq (assoc event) ≡ false
      → (e : ℕ) → e < x.event_count
      → contains daq (assoc e) ≡ false
  absent h e p = elim (Bool-cases (contains daq (assoc e))) [
    | inl c ↦
        subst (λ k. contains daq (assoc k) ≡ false)
          (sym (elsewhere assoc daq event mode prio x v event_in free e p c)) h
    | inr c ↦ c
  ]

  end_walk-Accepts :
      Accepts assoc daq event x (
        end_walk (walk walk_fuel y.daq_lists daq (first_of event) (x.events event).daq_first) daq y)
  unfolding end_walk
  end_walk-Accepts = elim (Bool-cases (contains daq (assoc event))) [
    | inl old ↦
        rw (walk-y, old, end_walk)
          (
            y,
            refl,
            daq_in,
            event_in,
            subst (λ a. IsLinked a y) (assoc_with_linked assoc event daq old) y-IsLinked,
            channel-y,
          )
    | inr fresh ↦
        rw (walk-y, fresh, end_walk)
          (
            store_slot (end_slot (first_of event) (assoc event)) daq y,
            refl,
            daq_in,
            event_in,
            append-IsLinked assoc daq event y y-IsLinked event_in count-y channel-y (absent fresh)
                (assoc event) refl,
            event_channel-store_slot (end_slot (first_of event) (assoc event)) daq daq y
                ∙ channel-y,
          )
  ]

-- SET_DAQ_LIST_MODE always returns: its walk along the links of the event ends. It is refused and
-- changes nothing, or it binds the list to the event and appends it to the sequence of lists that
-- the event triggers, once, leaving the sequences of the other events as they are.
pub set_daq_list_mode_refines :
    (assoc : Assoc) (daq event mode prescaler prio : ℕ) (x : Xcp)
    → IsLinked assoc x
    → let out = set_daq_list_mode daq event mode prescaler prio x in
      (out ≡ some (crc_daq_config, x))
      ⊎ (out ≡ some (crc_out_of_range, x))
      ⊎ Accepts assoc daq event x out
set_daq_list_mode_refines assoc daq event mode prescaler prio x v =
    elim (guards-set_daq_list_mode daq event mode prescaler prio x) [
      | inl e ↦ inl e
      | inr (inl e) ↦ inr (inl e)
      | inr (inr (daq_in, event_in, free, e)) ↦
          inr (inr (rw e (end_walk-Accepts assoc daq event mode prio x v daq_in event_in free)))
    ]
