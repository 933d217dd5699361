-- ===== src/Daq/Mode/Chain.antt =====
-- The linked list of an event as a sequence of DAQ lists, and the walk along it.
use xcplite.Prelude.{
  ℕ, zero, suc, ◌≤◌, ◌<◌, ◌≡◌, refl, ◌∙◌, ◌≢◌, arith, true, false, List, [], ◌∷◌, ◌++◌, ◌==◌,
  if◌then◌else◌, length, All, contains, Distinct,
}
use mathlib.Core.Bool.{false≢true}
use mathlib.Core.Path.{sym, subst}
use xcplite.Memory.{get16, put8, put16}
use xcplite.State.{DaqLists}
use xcplite.Config.{xcp_undefined_daq_list}
use xcplite.Daq.Tables.{next_daq, set_next_daq, event_channel}
use xcplite.Daq.Mode.{Slot, next_of, linked, append_at, walk, assign_mode}

-- From `daq0` the links go through `ds` and end.
abbrev pub IsChain : DaqLists → ℕ → List ℕ → Type 0
IsChain l daq0 [] = daq0 ≡ xcp_undefined_daq_list
IsChain l daq0 (a ∷ cs) = (daq0 ≡ a) × (a < l.daq_count) × IsChain l (next_daq l a) cs

-- the slot that holds the end of the list
abbrev pub end_slot : Slot → List ℕ → Slot
end_slot slot [] = slot
end_slot slot (a ∷ cs) = end_slot (next_of a) cs

-- With more fuel than the list has members the walk ends: at the list itself, or at its end.
pub walk-IsChain :
    (fuel : ℕ) (l : DaqLists) (daq : ℕ) (slot : Slot) (daq0 : ℕ) (ds : List ℕ)
    → l.daq_count ≤ 256
    → IsChain l daq0 ds
    → length ds < fuel
    → walk fuel l daq slot daq0 ≡ (if contains daq ds then linked else append_at (end_slot slot ds))
unfolding walk
walk-IsChain zero l daq slot daq0 ds small c h = absurd (omega arith)
walk-IsChain (suc fuel) l daq slot daq0 [] small c h = ground arith
walk-IsChain (suc fuel) l daq slot daq0 (a ∷ cs) small c h =
    ground (arith, walk-IsChain fuel l daq (next_of daq0) (next_daq l daq0) cs small)

pub next_daq-set_next_daq :
    (l : DaqLists) (p v a : ℕ)
    → v < 65536
    → next_daq (set_next_daq l p v) a ≡ (if a == p then v else next_daq l a)
unfolding get16 put16
next_daq-set_next_daq l p v a h = ground arith

pub event_channel-set_next_daq :
    (l : DaqLists) (p v a : ℕ) → event_channel (set_next_daq l p v) a ≡ event_channel l a
unfolding get16 put16
event_channel-set_next_daq l p v a = ground arith

-- The assignments of SET_DAQ_LIST_MODE leave every link alone, and set one event channel.
pub next_daq-assign_mode :
    (daq event mode prio : ℕ) (l : DaqLists) (a : ℕ)
    → next_daq (assign_mode daq event mode prio l) a ≡ next_daq l a
unfolding assign_mode get16 put16 put8
next_daq-assign_mode daq event mode prio l a = ground arith

pub event_channel-assign_mode :
    (daq event mode prio : ℕ) (l : DaqLists) (a : ℕ)
    → event < 65536
    → event_channel (assign_mode daq event mode prio l) a
      ≡ (if a == daq then event else event_channel l a)
unfolding assign_mode get16 put16 put8
event_channel-assign_mode daq event mode prio l a h = ground arith

-- A chain is read through the links of its members only.
pub IsChain-frame :
    (l l' : DaqLists) (daq0 : ℕ) (ds : List ℕ)
    → l'.daq_count ≡ l.daq_count
    → All (λ a. next_daq l' a ≡ next_daq l a) ds
    → IsChain l daq0 ds
    → IsChain l' daq0 ds
IsChain-frame l l' daq0 [] e f c = c
IsChain-frame l l' daq0 (a ∷ cs) e f c =
    (c.0, omega arith, rw f.0 (IsChain-frame l l' (next_daq l a) cs e f.1 c.2))

-- the last member of a list that begins with `a`
abbrev pub last_of : ℕ → List ℕ → ℕ
last_of a [] = a
last_of a (b ∷ bs) = last_of b bs

pub contains-last_of : (a : ℕ) (cs : List ℕ) → contains (last_of a cs) (a ∷ cs) ≡ true
contains-last_of a [] = ground arith
contains-last_of a (b ∷ bs) = ground (arith, contains-last_of b bs)

pub end_slot-last_of :
    (a : ℕ) (cs : List ℕ) (s : Slot) → end_slot s (a ∷ cs) ≡ next_of (last_of a cs)
end_slot-last_of a [] s = refl
end_slot-last_of a (b ∷ bs) s = end_slot-last_of b bs (next_of a)

-- Storing a list behind the last member appends it to the chain.
pub IsChain-append :
    (l : DaqLists) (daq daq0 a : ℕ) (cs : List ℕ)
    → daq < l.daq_count
    → l.daq_count ≤ 256
    → next_daq l daq ≡ xcp_undefined_daq_list
    → IsChain l daq0 (a ∷ cs)
    → Distinct (a ∷ cs)
    → contains daq (a ∷ cs) ≡ false
    → IsChain (set_next_daq l (last_of a cs) daq) daq0 ((a ∷ cs) ++ daq ∷ [])
IsChain-append l daq daq0 a [] hd small free c d h =
    ground (arith, next_daq-set_next_daq l a daq a, next_daq-set_next_daq l a daq daq)
IsChain-append l daq daq0 a (b ∷ bs) hd small free c d h = (
  c.0,
  c.1,
  rw same (IsChain-append l daq (next_daq l a) b bs hd small free c.2 d.1 (ground arith)),
)
  where
    apart : a ≢ last_of b bs
    apart e =
        false≢true
          (sym d.0 ∙ subst (λ k. contains k (b ∷ bs) ≡ true) (sym e) (contains-last_of b bs))

    same : next_daq (set_next_daq l (last_of b bs) daq) a ≡ next_daq l a
    same = ground (arith, next_daq-set_next_daq l (last_of b bs) daq a, apart)
