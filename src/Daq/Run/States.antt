-- ===== src/Daq/Run/States.antt =====
-- The states of the DAQ lists behind the loops of start and stop.
use xcplite.Prelude.{
  ℕ, zero, suc, ◌+◌, ◌*◌, ◌%◌, ◌<◌, ◌≡◌, refl, ◌≢◌, inl, inr, arith, true, false, ◌||◌, ◌&&◌, ◌==◌,
  ltb, if◌then◌else◌, bit_and, bit_or, passes_below, passes_below-at, Bool-cases,
}
use mathlib.Core.Bool.{false≢true}
use xcplite.Memory.{get8, put8}
use xcplite.State.{DaqLists, Xcp, is_daq_running}
use xcplite.Daq.Tables.{daq_state, set_daq_state}
use xcplite.Daq.Run.{
  is_running, is_selected, reset_states, start_daq_list, start_if_selected, start_selected,
  any_running, start_daq, start_selected_daq_lists,
}

-- A byte of the tables.
abbrev pub IsByte : ℕ → Type 0
IsByte v = v < 256

pub daq_state-set_daq_state :
    (l : DaqLists) (daq v d : ℕ)
    → daq_state (set_daq_state l daq v) d ≡ (if d == daq then v % 256 else daq_state l d)
unfolding get8 put8
daq_state-set_daq_state l daq v d = ground arith

-- What the loop of the start makes of a state: SELECTED off and RUNNING on.
abbrev pub started : ℕ → ℕ
started s = bit_or (bit_and s 0xfe) 2

-- XcpStopDaq: the first `n` lists are stopped and unselected, the others keep their state.
pub daq_state-reset_states :
    (n : ℕ) (l : DaqLists) (d : ℕ)
    → daq_state (reset_states n l) d ≡ (if ltb d n then 0 else daq_state l d)
unfolding reset_states
daq_state-reset_states zero l d = ground arith
daq_state-reset_states (suc n) l d =
    ground (arith, daq_state-set_daq_state (reset_states n l) n 0 d, daq_state-reset_states n l d)

-- The tables of ODTs and entries, the links and the event channels are not touched.
pub mem-reset_states :
    (n : ℕ) (l : DaqLists) (i : ℕ)
    → ((d : ℕ) → d < n → i ≢ 12 * d + 9)
    → (reset_states n l).mem i ≡ l.mem i
unfolding reset_states put8
mem-reset_states zero l i h = refl
mem-reset_states (suc n) l i h =
    ground (arith, h n, mem-reset_states n l i (λ d p. h d (omega arith)))

started_table : passes_below (λ s. ltb (started s) 256) 256 ≡ true
unfolding passes_below
started_table = refl

started_running_table : passes_below (λ s. bit_and (started s) 2 == 2) 256 ≡ true
unfolding passes_below
started_running_table = refl

started_unselected_table : passes_below (λ s. bit_and (started s) 1 == 0) 256 ≡ true
unfolding passes_below
started_unselected_table = refl

-- A started list is running and no longer selected.
pub started_lem :
    (s : ℕ)
    → s < 256
    → (started s < 256) × (bit_and (started s) 2 ≡ 2) × (bit_and (started s) 1 ≡ 0)
started_lem s h = ground (
  arith,
  passes_below-at (λ s. ltb (started s) 256) 256 s started_table h,
  passes_below-at (λ s. bit_and (started s) 2 == 2) 256 s started_running_table h,
  passes_below-at (λ s. bit_and (started s) 1 == 0) 256 s started_unselected_table h,
)

cleared_table : passes_below (λ s. ltb (bit_and s 0xfe) 256) 256 ≡ true
unfolding passes_below
cleared_table = refl

daq_state-start_if_selected :
    (n : ℕ) (l : DaqLists) (d : ℕ)
    → daq_state l n < 256
    → daq_state (start_if_selected n l) d
      ≡ (if d == n && is_selected l n then started (daq_state l n) else daq_state l d)
unfolding start_if_selected start_daq_list
daq_state-start_if_selected n l d h = ground (
  arith,
  daq_state-set_daq_state l n (bit_and (daq_state l n) 0xfe) n,
  daq_state-set_daq_state l n (bit_and (daq_state l n) 0xfe) d,
  daq_state-set_daq_state (set_daq_state l n (bit_and (daq_state l n) 0xfe)) n
      (bit_or (daq_state (set_daq_state l n (bit_and (daq_state l n) 0xfe)) n) 2) d,
  passes_below-at (λ s. ltb (bit_and s 0xfe) 256) 256 (daq_state l n) cleared_table h,
  started_lem (daq_state l n) h,
)

-- XcpStartSelectedDaqLists: among the first `n` lists the selected ones are started, all others
-- keep their state.
pub daq_state-start_selected :
    (n : ℕ) (l : DaqLists) (d : ℕ)
    → ((k : ℕ) → daq_state l k < 256)
    → daq_state (start_selected n l) d
      ≡ (if ltb d n && is_selected l d then started (daq_state l d) else daq_state l d)
unfolding start_selected
daq_state-start_selected zero l d h = ground arith
daq_state-start_selected (suc n) l d h = ground (
  arith,
  h n,
  daq_state-start_selected n l n h,
  daq_state-start_selected n l d h,
  daq_state-start_if_selected n (start_selected n l) d,
)

-- The test at the end of XcpStopDaqList.
pub any_running-false :
    (n : ℕ) (l : DaqLists) (d : ℕ) → any_running n l ≡ false → d < n → is_running l d ≡ false
unfolding any_running
any_running-false zero l d h p = absurd (omega arith)
any_running-false (suc n) l d h p = ground (arith, any_running-false n l d)

pub any_running_witness :
    (n : ℕ) (l : DaqLists) (d : ℕ) → d < n → is_running l d ≡ true → any_running n l ≡ true
unfolding any_running
any_running_witness zero l d p h = absurd (omega arith)
any_running_witness (suc n) l d p h = ground (arith, any_running_witness n l d)

pub any_running_found :
    (n : ℕ) (l : DaqLists) → any_running n l ≡ true → (d : ℕ) × (d < n) × (is_running l d ≡ true)
unfolding any_running
any_running_found zero l h = absurd (false≢true h)
any_running_found (suc n) l h = elim (Bool-cases (is_running l n)) [
  | inl r ↦ (n, omega arith, r)
  | inr q ↦ let (d, p, r) = any_running_found n l (ground arith) in (d, omega arith, r)
]

-- XcpStartSelectedDaqLists, then XcpStartDaq while no event is processed.
pub start_daq-start_selected :
    (now : ℕ) (x : Xcp)
    → is_daq_running x ≡ false
    → ((k : ℕ) → daq_state x.daq_lists k < 256)
    → let x' = start_daq now (start_selected_daq_lists x) in
      (x'.daq_running ≡ true)
      × ((d : ℕ)
          → d < x.daq_lists.daq_count
          → daq_state x'.daq_lists d ≡ (
              if is_selected x.daq_lists d
              then started (daq_state x.daq_lists d)
              else daq_state x.daq_lists d))
unfolding start_daq start_selected_daq_lists is_daq_running
start_daq-start_selected now x h bytes = (
  rw stopped refl,
  λ d p.
      rw stopped
        (ground (arith, daq_state-start_selected x.daq_lists.daq_count x.daq_lists d bytes)),
)
  where
    stopped : is_daq_running (start_selected_daq_lists x) ≡ false
    stopped = h

selected_table : passes_below (λ s. bit_and s 1 == 0 || bit_and s 1 == 1) 256 ≡ true
unfolding passes_below
selected_table = refl

pub is_selected_bit :
    (l : DaqLists) (d : ℕ)
    → daq_state l d < 256
    → is_selected l d ≡ true
    → bit_and (daq_state l d) 1 ≡ 1
is_selected_bit l d h p = ground (
  arith,
  passes_below-at (λ s. bit_and s 1 == 0 || bit_and s 1 == 1) 256 (daq_state l d) selected_table h,
)
