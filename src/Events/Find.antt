-- ===== src/Events/Find.antt =====
-- Created events are found by their names, src/xcplite.c.
use xcplite.Prelude.{
  ℕ, zero, suc, ◌+◌, ◌≤◌, ◌<◌, ◌≡◌, refl, subst, ◌≢◌, ◌⊎◌, inl, inr, ◌∙◌, if◌then◌else◌, ap, arith,
  true, false, ◌||◌, ◌==◌, ltb, leb, List, [], ◌∷◌, length, some, Bool-cases,
}
use xcplite.Config.{xcp_undefined_event_id, xcp_max_event_name, xcp_max_event_count}
use xcplite.State.{Event, Xcp, is_activated, set_event}
use xcplite.Events.{
  same_name, find_below, find_event_instances, find_event, new_event, create_indexed_event,
  create_event,
}

same_name_refl : (name : List ℕ) → same_name name name ≡ true
same_name_refl [] = refl
same_name_refl (a ∷ rest) = ground (arith, same_name_refl rest)

find_below-set_event :
    (n e : ℕ) (name : List ℕ) (events : ℕ → Event) (v : Event)
    → n ≤ e
    → find_below n name (set_event events e v) ≡ find_below n name events
unfolding find_below set_event
find_below-set_event zero e name events v h = refl
find_below-set_event (suc n) e name events v h =
    ground (arith, find_below-set_event n e name events v)

-- nothing is found exactly where no instance is counted
find_below_count :
    (n : ℕ) (name : List ℕ) (events : ℕ → Event)
    → n < 65535
    → let (id, count) = find_below n name events in
      (count ≤ n)
      × (id ≡ xcp_undefined_event_id → count ≡ 0)
      × (id ≢ xcp_undefined_event_id → 0 < count)
unfolding find_below
find_below_count zero name events h = ground arith
find_below_count (suc n) name events h =
    let (few, never, found) = find_below_count n name events (omega (arith, h)) in
    ground (arith, few, never, found)

-- Why a name is refused: XCP is not activated, or no event has the name, and it is too long or the
-- event list is full.
abbrev pub IsRefused : List ℕ → Xcp → Type 0
IsRefused name x =
    (is_activated x ≡ false)
    ⊎ ((find_event name x ≡ xcp_undefined_event_id)
        × ((xcp_max_event_name < length name) ⊎ (xcp_max_event_count ≤ x.event_count)))

-- one more event, behind the others
abbrev pub with_event : List ℕ → ℕ → ℕ → Xcp → Xcp
with_event name cycle priority x = record x {
  events = set_event x.events x.event_count (new_event name 0 cycle priority);
  event_count = x.event_count + 1;
}

-- The event `id` was found and nothing changed, or it is the next one and new.
abbrev pub IsCreated : List ℕ → ℕ → ℕ → Xcp → ℕ → Xcp → Type 0
IsCreated name cycle priority x id x' =
    ((find_event name x ≡ id) × (x' ≡ x))
    ⊎ ((find_event name x ≡ xcp_undefined_event_id)
        × (id ≡ x.event_count)
        × (x' ≡ with_event name cycle priority x))

-- a name that is not in the list is found once behind it
find_below-with_event :
    (name : List ℕ) (cycle priority : ℕ) (x : Xcp)
    → let x' = with_event name cycle priority x in
      (find_below x.event_count name x.events).0 ≡ xcp_undefined_event_id
      → (find_below x.event_count name x.events).1 ≡ 0
      → find_below x'.event_count name x'.events ≡ (x.event_count, 1)
unfolding find_below set_event
find_below-with_event name cycle priority x none_found never = ground (
  arith,
  none_found,
  never,
  same_name_refl name,
  find_below-set_event x.event_count x.event_count name x.events (new_event name 0 cycle priority)
      (omega arith),
)

once_more :
    (name : List ℕ) (cycle priority : ℕ) (x : Xcp) (id : ℕ)
    → is_activated x ≡ true
    → find_below x.event_count name x.events ≡ (id, 1)
    → id ≢ xcp_undefined_event_id
    → create_event name cycle priority x ≡ some (id, x)
unfolding create_event is_activated
once_more name cycle priority x id on there some_id = rw on (rw there (ground (arith, some_id)))

find_event-find_below :
    (name : List ℕ) (x : Xcp)
    → is_activated x ≡ true
    → find_event name x ≡ (find_below x.event_count name x.events).0
unfolding find_event find_event_instances is_activated
find_event-find_below name x on = rw (on, find_event) refl

create_event-create_indexed_event :
    (name : List ℕ) (cycle priority : ℕ) (x : Xcp)
    → is_activated x ≡ true
    → (find_below x.event_count name x.events).0 ≡ xcp_undefined_event_id
    → create_event name cycle priority x
      ≡ some (
          if ltb xcp_max_event_name (length name) || leb xcp_max_event_count x.event_count
          then (xcp_undefined_event_id, x)
          else (x.event_count, with_event name cycle priority x))
unfolding create_event create_indexed_event is_activated
create_event-create_indexed_event name cycle priority x on none_found =
    rw on (rw none_found (ground arith))

create_event-inactive :
    (name : List ℕ) (cycle priority : ℕ) (x : Xcp)
    → is_activated x ≡ false
    → create_event name cycle priority x ≡ some (xcp_undefined_event_id, x)
unfolding create_event is_activated
create_event-inactive name cycle priority x off = rw off refl

-- one instance at most, and one at least
find_below_once :
    (name : List ℕ) (x : Xcp)
    → is_activated x ≡ true
    → (find_event_instances name x).1 ≤ 1
    → 0 < (find_below x.event_count name x.events).1
    → find_below x.event_count name x.events ≡ ((find_below x.event_count name x.events).0, 1)
unfolding find_event_instances is_activated
find_below_once name x on one some_event =
    let at_most : (find_below x.event_count name x.events).1 ≤ 1 =
      subst
        (λ b.
          (if b then find_below x.event_count name x.events else (xcp_undefined_event_id, 0)).1 ≤ 1)
        on one in
    ap (λ c. ((find_below x.event_count name x.events).0, c)) (omega (arith, some_event, at_most))

-- Where at most one event has the name, and at most XCP_MAX_EVENT_COUNT events exist: XcpCreateEvent
-- refuses the name and changes nothing, which happens only where XCP is not activated, or no event
-- has the name, and it is too long or the event list is full. Or it returns the id of the event with
-- that name and changes nothing, or, where there is none, adds the event with the next id; XcpFindEvent
-- then finds the name under the id, and created once more the event is the same and nothing
-- changes.
pub create_event-find :
    (name : List ℕ) (cycle priority : ℕ) (x : Xcp)
    → (find_event_instances name x).1 ≤ 1
    → x.event_count ≤ xcp_max_event_count
    → ((create_event name cycle priority x ≡ some (xcp_undefined_event_id, x)) × IsRefused name x)
      ⊎ ((id : ℕ) × (x' : Xcp) × (create_event name cycle priority x ≡ some (id, x'))
          × IsCreated name cycle priority x id x'
          × (find_event name x' ≡ id)
          × (id ≢ xcp_undefined_event_id)
          × ((cycle' priority' : ℕ) → create_event name cycle' priority' x' ≡ some (id, x')))
unfolding is_activated
create_event-find name cycle priority x one few = elim (Bool-cases (is_activated x)) [
  | inr off ↦ inl (create_event-inactive name cycle priority x off, inl off)
  | inl on ↦
      let (_, never, found) = find_below_count x.event_count name x.events (omega (arith, few)) in
      let id = (find_below x.event_count name x.events).0 in
      let same = find_event-find_below name x on in
      elim (Bool-cases (id == xcp_undefined_event_id)) [
        | inr some_id ↦
            let ne : id ≢ xcp_undefined_event_id = ground (arith, some_id) in
            let there = find_below_once name x on one (found ne) in
            inr (
              id,
              x,
              once_more name cycle priority x id on there ne,
              inl (same, refl),
              same,
              ne,
              λ c p. once_more name c p x id on there ne,
            )
        | inl none_found ↦
            let unknown : id ≡ xcp_undefined_event_id = ground (arith, none_found) in
            let done = create_event-create_indexed_event name cycle priority x on unknown in
            elim (Bool-cases
              (ltb xcp_max_event_name (length name) || leb xcp_max_event_count x.event_count)) [
                | inl bad ↦ inl (
                  subst
                      (λ b.
                        create_event name cycle priority x
                        ≡ some (
                            if b
                            then (xcp_undefined_event_id, x)
                            else (x.event_count, with_event name cycle priority x)))
                      bad done,
                  inr (same ∙ unknown, ground (arith, bad)),
                )
                | inr good ↦
                    let x' = with_event name cycle priority x in
                    let there =
                      find_below-with_event name cycle priority x unknown (never unknown) in
                    inr (
                      x.event_count,
                      x',
                      subst
                          (λ b.
                            create_event name cycle priority x
                            ≡ some (
                                if b
                                then (xcp_undefined_event_id, x)
                                else (x.event_count, with_event name cycle priority x)))
                          good done,
                      inr (same ∙ unknown, refl, refl),
                      find_event-find_below name x' on ∙ ap (λ (r : ℕ × ℕ). r.0) there,
                      omega (arith, few),
                      λ c p. once_more name c p x' x.event_count on there (omega (arith, few)),
                    )
              ]
      ]
]
