-- ===== src/Daq/Mode/Frame.antt =====
-- The other operations on the DAQ configuration keep the links of the events sound, src/xcplite.c.
use xcplite.Prelude.{ℕ, ◌+◌, ◌≤◌, ◌<◌, ◌≡◌, refl, ◌⊎◌, inl, inr, ◌∙◌, ap, arith, List, [], ◌∷◌, All}
use xcplite.Config.{xcp_undefined_event_id}
use xcplite.Memory.{get16, put16}
use xcplite.State.{DaqLists, Xcp}
use xcplite.Daq.Tables.{first_odt, next_daq, event_channel}
use xcplite.Daq.Alloc.{clear_daq, take_odts, alloc_odt, take_entries, alloc_odt_entry, alloc_daq}
use xcplite.Daq.Alloc.Lists.{first-reset_daq_first, cases-alloc_daq}
use xcplite.Daq.Alloc.Outcome.{cases-alloc_odt, cases-alloc_odt_entry}
use xcplite.Daq.Mode.Chain.{IsChain}
use xcplite.Daq.Mode.Linked.{Assoc, IsLinked}

abbrev pub unbound : Assoc
unbound e = []

-- The links of `x'` are those of `x`.
pub record SameLinks (x x' : Xcp) : Type 0 where
  pub lists : x'.daq_lists.daq_count ≡ x.daq_lists.daq_count
  pub event_count : x'.event_count ≡ x.event_count
  pub firsts : (e : ℕ) → (x'.events e).daq_first ≡ (x.events e).daq_first
  pub nexts : (d : ℕ) → d < x.daq_lists.daq_count → next_daq x'.daq_lists d ≡ next_daq x.daq_lists d
  pub channels :
      (d : ℕ)
      → d < x.daq_lists.daq_count
      → (event_channel x'.daq_lists d ≡ event_channel x.daq_lists d)
        ⊎ (xcp_undefined_event_id ≤ event_channel x.daq_lists d)

IsChain-same :
    (l l' : DaqLists) (daq0 daq1 : ℕ) (ds : List ℕ)
    → l'.daq_count ≡ l.daq_count
    → ((d : ℕ) → d < l.daq_count → next_daq l' d ≡ next_daq l d)
    → daq1 ≡ daq0
    → IsChain l daq0 ds
    → IsChain l' daq1 ds
IsChain-same l l' daq0 daq1 [] e f same c = same ∙ c
IsChain-same l l' daq0 daq1 (a ∷ cs) e f same c = (
  same ∙ c.0,
  omega (arith, c.1, e),
  IsChain-same l l' (next_daq l a) (next_daq l' a) cs e f (f a c.1) c.2,
)

members-same :
    (l l' : DaqLists) (e : ℕ) (ds : List ℕ)
    → e < 16
    → ((d : ℕ)
        → d < l.daq_count
        → (event_channel l' d ≡ event_channel l d) ⊎ (xcp_undefined_event_id ≤ event_channel l d))
    → All (λ d. d < l.daq_count) ds
    → All (λ d. event_channel l d ≡ e) ds
    → All (λ d. event_channel l' d ≡ e) ds
members-same l l' e [] h f a b = tt
members-same l l' e (d ∷ ds) h f a b =
    (ground (arith, f d a.0, b.0), members-same l l' e ds h f a.1 b.1)

inside-same :
    (l l' : DaqLists) (ds : List ℕ)
    → l'.daq_count ≡ l.daq_count
    → All (λ d. d < l.daq_count) ds
    → All (λ d. d < l'.daq_count) ds
inside-same l l' [] e a = tt
inside-same l l' (d ∷ ds) e a = (omega (arith, a.0, e), inside-same l l' ds e a.1)

pub SameLinks-IsLinked :
    (assoc : Assoc) (x x' : Xcp) → SameLinks x x' → IsLinked assoc x → IsLinked assoc x'
SameLinks-IsLinked assoc x x' s v = record {
  few_events = omega (arith, s.event_count, v.few_events);
  few_lists = omega (arith, s.lists, v.few_lists);
  chain = λ e h.
      IsChain-same x.daq_lists x'.daq_lists _ _ (assoc e) s.lists s.nexts (s.firsts e)
        (v.chain e (back e h));
  members = λ e h.
      members-same x.daq_lists x'.daq_lists e (assoc e) (omega (arith, back e h, v.few_events))
        s.channels (v.inside e (back e h)) (v.members e (back e h));
  inside = λ e h. inside-same x.daq_lists x'.daq_lists (assoc e) s.lists (v.inside e (back e h));
  distinct = λ e h. v.distinct e (back e h);
  unlinked = λ d h free.
      s.nexts d (omega (arith, h, s.lists))
      ∙ v.unlinked d (omega (arith, h, s.lists)) (λ e p. free e (omega (arith, p, s.event_count)));
}
  where
    back : (e : ℕ) → e < x'.event_count → e < x.event_count
    back e h = omega (arith, s.event_count)

-- The links of the events spell out some association.
abbrev pub Linked : Xcp → Type 0
Linked x = (assoc : Assoc) × IsLinked assoc x

-- FREE_DAQ
pub clear_daq-IsLinked : (x : Xcp) → x.event_count ≤ 16 → IsLinked unbound (clear_daq x)
unfolding clear_daq
clear_daq-IsLinked x few = record {
  few_events = few;
  few_lists = omega arith;
  chain = λ e h. first-reset_daq_first x.event_count x.events e h;
  members = λ e h. tt;
  inside = λ e h. tt;
  distinct = λ e h. tt;
  unlinked = λ d h free. absurd (omega arith);
}

-- ALLOC_DAQ while no event has a list
pub alloc_daq-IsLinked : (n : ℕ) (x : Xcp) → IsLinked unbound x → IsLinked unbound (alloc_daq n x).1
alloc_daq-IsLinked n x v = elim (cases-alloc_daq n x) [
  | inl same ↦ rw same v
  | inr (inl e) ↦ rw e (
      clear_daq-IsLinked (record x { daq_lists = record x.daq_lists { daq_count = n } })
        v.few_events)
  | inr (inr (x', e, small, count, events, event_count, fresh)) ↦ rw e (record {
    few_events = omega (arith, v.few_events, event_count);
    few_lists = omega (arith, count);
    chain = λ e h. ap (λ es. (es e).daq_first) events ∙ v.chain e (omega (arith, h, event_count));
    members = λ e h. tt;
    inside = λ e h. tt;
    distinct = λ e h. tt;
    unlinked = λ d h free. (fresh d (omega (arith, h, count))).0;
  })
]

take_odts-SameLinks :
    (daq count : ℕ) (x : Xcp)
    → daq < x.daq_lists.daq_count
    → SameLinks x (record x { daq_lists = take_odts daq count x.daq_lists })
unfolding take_odts get16 put16
take_odts-SameLinks daq count x h = record {
  lists = refl;
  event_count = refl;
  firsts = λ e. refl;
  nexts = λ d p. ground arith;
  channels = λ d p. inl (ground arith);
}

-- ALLOC_ODT
pub alloc_odt-Linked : (daq count : ℕ) (x : Xcp) → Linked x → Linked (alloc_odt daq count x).1
alloc_odt-Linked daq count x (assoc, v) = elim (cases-alloc_odt daq count x) [
  | inl same ↦ rw same (assoc, v)
  | inr (inl e) ↦ rw e (unbound, clear_daq-IsLinked _ v.few_events)
  | inr (inr (e, h)) ↦
      rw e (assoc, SameLinks-IsLinked assoc x _ (take_odts-SameLinks daq count x h) v)
]

take_entries-SameLinks :
    (odt count : ℕ) (x : Xcp)
    → SameLinks x (record x { daq_lists = take_entries odt count x.daq_lists })
unfolding take_entries get16 put16
take_entries-SameLinks odt count x = record {
  lists = refl;
  event_count = refl;
  firsts = λ e. refl;
  nexts = λ d p. ground arith;
  channels = λ d p. inl (ground arith);
}

-- ALLOC_ODT_ENTRY
pub alloc_odt_entry-Linked :
    (daq odt count : ℕ) (x : Xcp) → Linked x → Linked (alloc_odt_entry daq odt count x).1
alloc_odt_entry-Linked daq odt count x (assoc, v) = elim (cases-alloc_odt_entry daq odt count x) [
  | inl same ↦ rw same (assoc, v)
  | inr (inl e) ↦ rw e (unbound, clear_daq-IsLinked x v.few_events)
  | inr (inr (inl e)) ↦ rw e (unbound, clear_daq-IsLinked _ v.few_events)
  | inr (inr (inr e)) ↦ rw e (
    assoc,
    SameLinks-IsLinked assoc x _ (take_entries-SameLinks (first_odt x.daq_lists daq + odt) count x)
        v,
  )
]
