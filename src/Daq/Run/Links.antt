-- ===== src/Daq/Run/Links.antt =====
-- Starting and stopping leave the links of the events alone, src/xcplite.c.
use xcplite.Prelude.{ℕ, zero, suc, ◌≡◌, refl, ◌∙◌, ap, inl, arith, if_cases, bit_and}
use xcplite.Memory.{get16, put8}
use xcplite.State.{DaqLists, Xcp, is_daq_running}
use xcplite.Daq.Tables.{next_daq, event_channel, daq_state, set_daq_state}
use xcplite.Daq.Mode.Frame.{SameLinks}
use xcplite.Daq.Run.{
  is_selected, start_daq, reset_states, stop_daq, start_daq_list, start_if_selected, start_selected,
  start_selected_daq_lists, any_running, stop_daq_list, stop_selected, stop_selected_daq_lists,
}

-- The links in the tables, with the counts.
abbrev SameTables : DaqLists → DaqLists → Type 0
SameTables l l' =
    (l'.daq_count ≡ l.daq_count)
    × ((d : ℕ) → (next_daq l' d ≡ next_daq l d) × (event_channel l' d ≡ event_channel l d))

set_daq_state-SameTables : (l : DaqLists) (daq v : ℕ) → SameTables l (set_daq_state l daq v)
unfolding get16 put8
set_daq_state-SameTables l daq v = (refl, λ d. ground arith)

SameTables-trans : (l m n : DaqLists) → SameTables l m → SameTables m n → SameTables l n
SameTables-trans l m n a b = (b.0 ∙ a.0, λ d. ((b.1 d).0 ∙ (a.1 d).0, (b.1 d).1 ∙ (a.1 d).1))

reset_states-SameTables : (n : ℕ) (l : DaqLists) → SameTables l (reset_states n l)
unfolding reset_states
reset_states-SameTables zero l = (refl, λ d. (refl, refl))
reset_states-SameTables (suc n) l =
    SameTables-trans l (reset_states n l) (set_daq_state (reset_states n l) n 0)
      (reset_states-SameTables n l) (set_daq_state-SameTables (reset_states n l) n 0)

start_if_selected-SameTables : (n : ℕ) (l : DaqLists) → SameTables l (start_if_selected n l)
unfolding start_if_selected start_daq_list
start_if_selected-SameTables n l =
    let m = set_daq_state l n (bit_and (daq_state l n) 0xfe) in
    if_cases (SameTables l) (is_selected l n)
      (λ _.
        SameTables-trans l m (start_daq_list n m) (set_daq_state-SameTables l n _)
          (set_daq_state-SameTables m n _))
      (λ _. (refl, λ d. (refl, refl)))

start_selected-SameTables : (n : ℕ) (l : DaqLists) → SameTables l (start_selected n l)
unfolding start_selected
start_selected-SameTables zero l = (refl, λ d. (refl, refl))
start_selected-SameTables (suc n) l =
    SameTables-trans l (start_selected n l) (start_if_selected n (start_selected n l))
      (start_selected-SameTables n l) (start_if_selected-SameTables n (start_selected n l))

-- the events are those of `x`
abbrev SameEvents : Xcp → Xcp → Type 0
SameEvents x x' =
    (x'.event_count ≡ x.event_count) × (x'.events ≡ x.events) × SameTables x.daq_lists x'.daq_lists

SameEvents-SameLinks : (x x' : Xcp) → SameEvents x x' → SameLinks x x'
SameEvents-SameLinks x x' s = record {
  lists = s.2.0;
  event_count = s.0;
  firsts = λ e. ap (λ es. (es e).daq_first) s.1;
  nexts = λ d p. (s.2.1 d).0;
  channels = λ d p. inl ((s.2.1 d).1);
}

SameEvents-trans : (x y z : Xcp) → SameEvents x y → SameEvents y z → SameEvents x z
SameEvents-trans x y z a b =
    (b.0 ∙ a.0, b.1 ∙ a.1, SameTables-trans x.daq_lists y.daq_lists z.daq_lists a.2 b.2)

stop_daq-SameEvents : (x : Xcp) → SameEvents x (stop_daq x)
unfolding stop_daq
stop_daq-SameEvents x = (refl, refl, reset_states-SameTables x.daq_lists.daq_count x.daq_lists)

pub stop_daq_list-SameEvents : (daq : ℕ) (x : Xcp) → SameEvents x (stop_daq_list daq x)
unfolding stop_daq_list
stop_daq_list-SameEvents daq x =
    let l = set_daq_state x.daq_lists daq (bit_and (daq_state x.daq_lists daq) 0xf9) in
    let y = record x { daq_lists = l } in
    let same =
      set_daq_state-SameTables x.daq_lists daq (bit_and (daq_state x.daq_lists daq) 0xf9) in
    if_cases (SameEvents x) (any_running x.daq_lists.daq_count l) (λ _. (refl, refl, same))
      (λ _. SameEvents-trans x y (stop_daq y) (refl, refl, same) (stop_daq-SameEvents y))

pub stop_selected-SameEvents : (n : ℕ) (x : Xcp) → SameEvents x (stop_selected n x)
unfolding stop_selected
stop_selected-SameEvents zero x = (refl, refl, (refl, λ d. (refl, refl)))
stop_selected-SameEvents (suc n) x =
    let y = stop_selected n x in
    let z = stop_daq_list n y in
    if_cases (SameEvents x) (is_selected y.daq_lists n)
      (λ _.
        SameEvents-trans x z (record z { daq_lists = set_daq_state z.daq_lists n 0 })
          (SameEvents-trans x y z (stop_selected-SameEvents n x) (stop_daq_list-SameEvents n y))
          (refl, refl, set_daq_state-SameTables z.daq_lists n 0))
      (λ _. stop_selected-SameEvents n x)

start_daq-SameEvents :
    (now : ℕ) (x : Xcp) → SameEvents x (start_daq now (start_selected_daq_lists x))
unfolding start_daq start_selected_daq_lists
start_daq-SameEvents now x =
    let same = start_selected-SameTables x.daq_lists.daq_count x.daq_lists in
    if_cases (SameEvents x) (is_daq_running (start_selected_daq_lists x)) (λ _. (refl, refl, same))
      (λ _. (refl, refl, same))

pub start_daq-SameLinks :
    (now : ℕ) (x : Xcp) → SameLinks x (start_daq now (start_selected_daq_lists x))
start_daq-SameLinks now x = SameEvents-SameLinks x _ (start_daq-SameEvents now x)

pub start_list-SameLinks :
    (now daq : ℕ) (x : Xcp)
    → SameLinks x (start_daq now (record x { daq_lists = start_daq_list daq x.daq_lists }))
unfolding start_daq start_daq_list
start_list-SameLinks now daq x =
    let same = set_daq_state-SameTables x.daq_lists daq _ in
    if_cases (SameLinks x)
      (is_daq_running (record x { daq_lists = start_daq_list daq x.daq_lists }))
      (λ _. SameEvents-SameLinks x _ (refl, refl, same))
      (λ _. SameEvents-SameLinks x _ (refl, refl, same))

pub stop_daq-SameLinks : (x : Xcp) → SameLinks x (stop_daq x)
stop_daq-SameLinks x = SameEvents-SameLinks x _ (stop_daq-SameEvents x)

pub stop_daq_list-SameLinks : (daq : ℕ) (x : Xcp) → SameLinks x (stop_daq_list daq x)
stop_daq_list-SameLinks daq x = SameEvents-SameLinks x _ (stop_daq_list-SameEvents daq x)

pub stop_selected-SameLinks : (x : Xcp) → SameLinks x (stop_selected_daq_lists x)
unfolding stop_selected_daq_lists
stop_selected-SameLinks x =
    SameEvents-SameLinks x _ (stop_selected-SameEvents x.daq_lists.daq_count x)

pub set_daq_state-SameLinks :
    (daq v : ℕ) (x : Xcp) → SameLinks x (record x { daq_lists = set_daq_state x.daq_lists daq v })
set_daq_state-SameLinks daq v x =
    SameEvents-SameLinks x _ (refl, refl, set_daq_state-SameTables x.daq_lists daq v)
