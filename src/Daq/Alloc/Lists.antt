-- ===== src/Daq/Alloc/Lists.antt =====
-- New DAQ lists, the loop of `XcpAllocDaq`, keep the DAQ memory well-formed.
use xcplite.Prelude.{ℕ, zero, suc, ◌+◌, ◌*◌, ◌≤◌, ◌<◌, ◌≡◌, refl, ◌∙◌, ap, ◌⊎◌, inl, inr, arith}
use xcplite.Memory.{get16, put8, put16}
use xcplite.State.{DaqLists, Event, Xcp, set_event}
use xcplite.Daq.Tables.{first_odt, last_odt, next_daq, event_channel}
use xcplite.Daq.Alloc.{reset_daq_first, clear_daq, init_daq_lists, check_memory, alloc_daq}
use xcplite.Daq.Layout.{IsWf, fresh_odts}

-- The loop of `XcpAllocDaq` keeps the counts.
counts-init_daq_lists :
    (n : ℕ) (l : DaqLists)
    → ((init_daq_lists n l).daq_count ≡ l.daq_count)
      × ((init_daq_lists n l).odt_count ≡ l.odt_count)
      × ((init_daq_lists n l).odt_entry_count ≡ l.odt_entry_count)
unfolding init_daq_lists
counts-init_daq_lists zero l = (refl, refl, refl)
counts-init_daq_lists (suc n) l = counts-init_daq_lists n l

-- It writes nothing behind the last DAQ list.
mem-init_daq_lists :
    (n : ℕ) (l : DaqLists) (i : ℕ) → 12 * n ≤ i → (init_daq_lists n l).mem i ≡ l.mem i
unfolding init_daq_lists put16 put8
mem-init_daq_lists zero l i h = refl
mem-init_daq_lists (suc n) l i h = ground (arith, mem-init_daq_lists n l i)

-- It leaves the ODT range of every list alone: the first four bytes.
head-init_daq_lists :
    (n : ℕ) (l : DaqLists) (daq k : ℕ)
    → k < 4
    → (init_daq_lists n l).mem (12 * daq + k) ≡ l.mem (12 * daq + k)
unfolding init_daq_lists put16 put8
head-init_daq_lists zero l daq k h = refl
head-init_daq_lists (suc n) l daq k h = ground (arith, head-init_daq_lists n l daq k)

odt_range-init_daq_lists :
    (n : ℕ) (l : DaqLists) (daq : ℕ)
    → (first_odt (init_daq_lists n l) daq ≡ first_odt l daq)
      × (last_odt (init_daq_lists n l) daq ≡ last_odt l daq)
unfolding get16
odt_range-init_daq_lists n l daq = ground (
  arith,
  head-init_daq_lists n l daq 0,
  head-init_daq_lists n l daq 1,
  head-init_daq_lists n l daq 2,
  head-init_daq_lists n l daq 3,
)

pub init_daq_lists-IsWf :
    (n : ℕ) (l : DaqLists)
    → IsWf l
    → l.daq_count ≤ n
    → l.odt_count ≡ 0
    → l.odt_entry_count ≡ 0
    → 12 * n < 3072
    → IsWf (init_daq_lists n (record l { daq_count = n }))
init_daq_lists-IsWf n l v h none no_entries fits = record {
  fits = omega (arith, c.0, c.1, c.2);
  has_lists = λ p. absurd (omega (arith, c.1));
  has_odts = λ p. absurd (omega (arith, c.2));
  lists = λ daq p. ground (
    arith,
    c.0,
    odt_range-init_daq_lists n l' daq,
    v.lists daq,
    fresh_odts l v daq none no_entries,
  );
  odts = λ odt p. absurd (omega (arith, c.1));
  fresh = λ e i p.
      mem-init_daq_lists n l' i (omega (arith, c.0)) ∙ v.fresh no_entries i (omega (arith, c.0));
}
  where
    l' : DaqLists
    l' = record l { daq_count = n }

    c :
        ((init_daq_lists n l').daq_count ≡ n)
        × ((init_daq_lists n l').odt_count ≡ l.odt_count)
        × ((init_daq_lists n l').odt_entry_count ≡ l.odt_entry_count)
    c = counts-init_daq_lists n l'

-- The new lists are linked to nothing and bound to no event.
links-init_daq_lists :
    (n : ℕ) (l : DaqLists) (d : ℕ)
    → d < n
    → (next_daq (init_daq_lists n l) d ≡ 0xffff) × (event_channel (init_daq_lists n l) d ≡ 0xffff)
unfolding init_daq_lists get16 put16 put8
links-init_daq_lists zero l d h = absurd (omega arith)
links-init_daq_lists (suc n) l d h = ground (arith, links-init_daq_lists n l d)

-- ALLOC_DAQ before any ODT is allocated, where the count fits the memory.
pub alloc_daq-links :
    (n : ℕ) (x : Xcp)
    → x.daq_lists.odt_count ≡ 0
    → x.daq_lists.odt_entry_count ≡ 0
    → 0 < n
    → n < 256
    → (x' : Xcp) × (alloc_daq n x ≡ (0, x'))
      × (x'.daq_lists.daq_count ≡ n)
      × (x'.events ≡ x.events)
      × (x'.event_count ≡ x.event_count)
      × (x'.session_status ≡ x.session_status)
      × ((d : ℕ)
          → d < n
          → (next_daq x'.daq_lists d ≡ 0xffff) × (event_channel x'.daq_lists d ≡ 0xffff))
unfolding alloc_daq check_memory
alloc_daq-links n x none no_entries p h = (
  record x { daq_lists = init_daq_lists n (record x.daq_lists { daq_count = n }) },
  ground arith,
  (counts-init_daq_lists n (record x.daq_lists { daq_count = n })).0,
  refl,
  refl,
  refl,
  links-init_daq_lists n (record x.daq_lists { daq_count = n }),
)

-- The loop of `XcpClearDaq` leaves the events without lists.
pub first-reset_daq_first :
    (n : ℕ) (events : ℕ → Event) (e : ℕ) → e < n → (reset_daq_first n events e).daq_first ≡ 0xffff
unfolding reset_daq_first set_event
first-reset_daq_first zero events e h = absurd (omega arith)
first-reset_daq_first (suc n) events e h = ground (arith, first-reset_daq_first n events e)

split-alloc_daq :
    (n : ℕ) (x : Xcp)
    → ((alloc_daq n x).1 ≡ x)
      ⊎ ((alloc_daq n x).1
          ≡ clear_daq (record x { daq_lists = record x.daq_lists { daq_count = n } }))
      ⊎ ((x.daq_lists.odt_count ≡ 0) × (x.daq_lists.odt_entry_count ≡ 0) × (0 < n) × (n < 256))
unfolding alloc_daq check_memory
split-alloc_daq n x = ground arith

-- The whole state behind ALLOC_DAQ: as before, freed, or with new lists.
pub cases-alloc_daq :
    (n : ℕ) (x : Xcp)
    → ((alloc_daq n x).1 ≡ x)
      ⊎ ((alloc_daq n x).1
          ≡ clear_daq (record x { daq_lists = record x.daq_lists { daq_count = n } }))
      ⊎ ((x' : Xcp) × ((alloc_daq n x).1 ≡ x')
          × (n < 256)
          × (x'.daq_lists.daq_count ≡ n)
          × (x'.events ≡ x.events)
          × (x'.event_count ≡ x.event_count)
          × ((d : ℕ)
              → d < n
              → (next_daq x'.daq_lists d ≡ 0xffff) × (event_channel x'.daq_lists d ≡ 0xffff)))
cases-alloc_daq n x = elim (split-alloc_daq n x) [
  | inl same ↦ inl same
  | inr (inl freed) ↦ inr (inl freed)
  | inr (inr (none_left, no_entries, p, h)) ↦
      let (x', e, count, events, event_count, status, fresh) =
        alloc_daq-links n x none_left no_entries p h in
      inr (inr (x', ap (λ r. r.1) e, h, count, events, event_count, fresh))
]
