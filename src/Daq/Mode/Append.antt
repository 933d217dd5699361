-- ===== src/Daq/Mode/Append.antt =====
-- Storing a list in the last slot of an event appends it to the sequence of that event alone.
use mathlib.Core.Bool.{false≢true}
use native.Mathlib.Decide.{ℕ_discrete}
use xcplite.Prelude.{
  ℕ, ◌<◌, ◌≡◌, refl, sym, subst, ap, ◌∙◌, ◌≢◌, arith, true, false, List, [], ◌∷◌, ◌++◌, All,
  contains, Distinct, Distinct-append_one, All-append_one, contains-append_one, All-contains,
  All-imp,
}
use xcplite.State.{Xcp, daq_first-set_event}
use xcplite.Config.{xcp_undefined_daq_list}
use xcplite.Daq.Tables.{next_daq, set_next_daq, event_channel}
use xcplite.Daq.Mode.{next_of, first_of, store_slot}
use xcplite.Daq.Mode.Chain.{
  IsChain, IsChain-frame, IsChain-append, end_slot, end_slot-last_of, last_of, contains-last_of,
  next_daq-set_next_daq, event_channel-set_next_daq,
}
use xcplite.Daq.Mode.Linked.{Assoc, assoc_with, IsLinked}

module _ (assoc : Assoc) (daq event : ℕ) (y : Xcp) (v : IsLinked assoc y)
    (event_in : event < y.event_count) (daq_in : daq < y.daq_lists.daq_count)
    (channel : event_channel y.daq_lists daq ≡ event)
    (unused : (e : ℕ) → e < y.event_count → contains daq (assoc e) ≡ false) where
  free : next_daq y.daq_lists daq ≡ xcp_undefined_daq_list
  free = v.unlinked daq daq_in unused

  abbrev extended : List ℕ
  extended = assoc event ++ daq ∷ []

  assoc_with-event : assoc_with assoc event daq event ≡ assoc event ++ daq ∷ []
  assoc_with-event = ground (arith, unused event event_in)

  assoc_with-other : (e : ℕ) → e ≢ event → assoc_with assoc event daq e ≡ assoc e
  assoc_with-other e ne = ground arith

  -- A property of the sequences carries over, if it does so at `event`.
  carry {κ} :
      (P : ℕ → List ℕ → Type κ)
      → P event (assoc event ++ daq ∷ [])
      → ((e : ℕ) → e ≢ event → e < y.event_count → P e (assoc e))
      → (e : ℕ) → e < y.event_count
      → P e (assoc_with assoc event daq e)
  carry P here there e h = elim (ℕ_discrete e event) [
    | yes eq ↦
        subst (λ k. P k (assoc_with assoc event daq k)) (sym eq)
          (subst (P event) (sym assoc_with-event) here)
    | no ne ↦ subst (P e) (sym (assoc_with-other e ne)) (there e ne h)
  ]

  Distinct-with : (e : ℕ) → e < y.event_count → Distinct (assoc_with assoc event daq e)
  Distinct-with =
      carry (λ _ ds. Distinct ds)
        (Distinct-append_one daq (assoc event) (v.distinct event event_in) (unused event event_in))
        (λ e ne h. v.distinct e h)

  inside_with :
      (e : ℕ)
      → e < y.event_count
      → All (λ d. d < y.daq_lists.daq_count) (assoc_with assoc event daq e)
  inside_with =
      carry (λ _ ds. All (λ d. d < y.daq_lists.daq_count) ds)
        (All-append_one _ daq (assoc event) (v.inside event event_in) daq_in)
        (λ e ne h. v.inside e h)

  members_with :
      (e : ℕ)
      → e < y.event_count
      → All (λ d. event_channel y.daq_lists d ≡ e) (assoc_with assoc event daq e)
  members_with =
      carry (λ e ds. All (λ d. event_channel y.daq_lists d ≡ e) ds)
        (All-append_one _ daq (assoc event) (v.members event event_in) channel)
        (λ e ne h. v.members e h)

  -- What no sequence holds afterwards was held by none before, and is not `daq`.
  unused_before :
      (d : ℕ)
      → ((e : ℕ) → e < y.event_count → contains d (assoc_with assoc event daq e) ≡ false)
      → (e : ℕ) → e < y.event_count
      → (contains d (assoc e) ≡ false) × (d ≢ daq)
  unused_before d absent e h = (
    elim (ℕ_discrete e event) [
      | yes eq ↦ subst (λ k. contains d (assoc k) ≡ false) (sym eq) here.0
      | no ne ↦ subst (λ ds. contains d ds ≡ false) (assoc_with-other e ne) (absent e h)
    ],
    here.1,
  )
    where
      here : (contains d (assoc event) ≡ false) × (d ≢ daq)
      here = ground (
        arith,
        subst (λ ds. contains d ds ≡ false) assoc_with-event (absent event event_in),
        contains-append_one d daq (assoc event),
      )

  -- The list is the first of its event.
  first-IsLinked :
      assoc event ≡ [] → IsLinked (assoc_with assoc event daq) (store_slot (first_of event) daq y)
  unfolding store_slot
  first-IsLinked empty = record {
    few_events = v.few_events;
    few_lists = v.few_lists;
    chain =
        carry
          (λ e ds. IsChain y.daq_lists ((store_slot (first_of event) daq y).events e).daq_first ds)
          (rw empty (ground (arith, daq_in, free, daq_first-set_event y.events event _ event)))
          (λ e ne h.
            subst (λ k. IsChain y.daq_lists k (assoc e)) (sym (first_other e ne)) (v.chain e h));
    members = members_with;
    inside = inside_with;
    distinct = Distinct-with;
    unlinked = λ d h absent. v.unlinked d h (λ e p. (unused_before d absent e p).0);
  }
    where
      first_other :
          (e : ℕ)
          → e ≢ event
          → ((store_slot (first_of event) daq y).events e).daq_first ≡ (y.events e).daq_first
      first_other e ne = ground (arith, ne, daq_first-set_event y.events event _ e)

  -- The list goes behind the last one of its event.
  module _ (a : ℕ) (cs : List ℕ) (some_lists : assoc event ≡ a ∷ cs) where
    last_in : contains (last_of a cs) (assoc event) ≡ true
    last_in = rw some_lists (contains-last_of a cs)

    last_channel : event_channel y.daq_lists (last_of a cs) ≡ event
    last_channel =
        All-contains (λ d. event_channel y.daq_lists d ≡ event) (last_of a cs) (assoc event)
          (v.members event event_in) last_in

    next_other :
        (d : ℕ)
        → d ≢ last_of a cs
        → next_daq (set_next_daq y.daq_lists (last_of a cs) daq) d ≡ next_daq y.daq_lists d
    next_other d ne =
        ground (arith, next_daq-set_next_daq y.daq_lists (last_of a cs) daq d, daq_in, v.few_lists)

    IsChain-here :
        IsChain (set_next_daq y.daq_lists (last_of a cs) daq) (y.events event).daq_first extended
    IsChain-here = rw some_lists (
        IsChain-append y.daq_lists daq (y.events event).daq_first a cs daq_in v.few_lists free
          (subst (IsChain y.daq_lists (y.events event).daq_first) some_lists
            (v.chain event event_in))
          (subst Distinct some_lists (v.distinct event event_in))
          (subst (λ ds. contains daq ds ≡ false) some_lists (unused event event_in)))

    next-IsLinked :
        IsLinked (assoc_with assoc event daq) (store_slot (next_of (last_of a cs)) daq y)
    unfolding store_slot
    next-IsLinked = record {
      few_events = v.few_events;
      few_lists = v.few_lists;
      chain =
          carry
            (λ e ds.
              IsChain (set_next_daq y.daq_lists (last_of a cs) daq) (y.events e).daq_first ds)
            IsChain-here
            (λ e ne h.
              IsChain-frame y.daq_lists (set_next_daq y.daq_lists (last_of a cs) daq)
                (y.events e).daq_first (assoc e) refl
                (All-imp (λ d. event_channel y.daq_lists d ≡ e) _ (assoc e)
                  (λ d p.
                    next_other d
                      (λ q. ne (sym p ∙ ap (λ k. event_channel y.daq_lists k) q ∙ last_channel)))
                  (v.members e h))
                (v.chain e h));
      members = λ e h.
          All-imp (λ d. event_channel y.daq_lists d ≡ e) _ (assoc_with assoc event daq e)
            (λ d p. event_channel-set_next_daq y.daq_lists (last_of a cs) daq d ∙ p)
            (members_with e h);
      inside = inside_with;
      distinct = Distinct-with;
      unlinked = λ d h absent.
          next_other d (λ q. false≢true (
            sym (unused_before d absent event event_in).0
            ∙ subst (λ k. contains k (assoc event) ≡ true) (sym q) last_in))
          ∙ v.unlinked d h (λ e p. (unused_before d absent e p).0);
    }

  -- Whichever slot ends the sequence of the event.
  pub append-IsLinked :
      (ds : List ℕ)
      → assoc event ≡ ds
      → IsLinked (assoc_with assoc event daq) (store_slot (end_slot (first_of event) ds) daq y)
  append-IsLinked [] e = first-IsLinked e
  append-IsLinked (a ∷ cs) e = rw (end_slot-last_of a cs) (next-IsLinked a cs e)
