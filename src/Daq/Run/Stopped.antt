-- ===== src/Daq/Run/Stopped.antt =====
-- Stopping DAQ lists, src/xcplite.c: `XcpStopDaqList`, `XcpStopSelectedDaqLists`.
use xcplite.Prelude.{
  ℕ, zero, suc, ◌%◌, ◌<◌, ◌≡◌, refl, ◌≢◌, ◌⊎◌, inl, inr, arith, true, false, not, ◌&&◌, ◌==◌,
  bit_and, passes_below, passes_below-at, Bool-cases,
}
use xcplite.State.{DaqLists, Xcp}
use xcplite.Daq.Tables.{daq_state, set_daq_state}
use xcplite.Daq.Run.{is_running, reset_states, any_running, stop_daq, stop_daq_list}
use xcplite.Daq.Run.States.{
  daq_state-set_daq_state, daq_state-reset_states, any_running-false, any_running_found,
}

stopped_table : passes_below (λ s. bit_and (bit_and s 0xf9 % 256) 2 == 0) 256 ≡ true
unfolding passes_below
stopped_table = refl

-- the tables with the RUNNING and OVERRUN bits of one list taken off
abbrev pub halted : ℕ → DaqLists → DaqLists
halted daq l = set_daq_state l daq (bit_and (daq_state l daq) 0xf9)

is_running-halted :
    (daq : ℕ) (l : DaqLists) (d : ℕ)
    → daq_state l daq < 256
    → is_running (halted daq l) d ≡ (not (d == daq) && is_running l d)
is_running-halted daq l d h = ground (
  arith,
  daq_state-set_daq_state l daq (bit_and (daq_state l daq) 0xf9) d,
  passes_below-at (λ s. bit_and (bit_and s 0xf9 % 256) 2 == 0) 256 (daq_state l daq) stopped_table
      h,
)

-- The states of all lists are 0, and so is the flag that XcpEvent tests.
pub record IsStopped (x : Xcp) : Type 0 where
  pub flag : x.daq_running ≡ false
  pub states : (d : ℕ) → d < x.daq_lists.daq_count → daq_state x.daq_lists d ≡ 0

pub count-reset_states : (n : ℕ) (l : DaqLists) → (reset_states n l).daq_count ≡ l.daq_count
unfolding reset_states
count-reset_states zero l = refl
count-reset_states (suc n) l = count-reset_states n l

pub stop_daq-IsStopped : (x : Xcp) → IsStopped (stop_daq x)
unfolding stop_daq
stop_daq-IsStopped x = record {
  flag = refl;
  states = λ d h. ground (
    arith,
    count-reset_states x.daq_lists.daq_count x.daq_lists,
    daq_state-reset_states x.daq_lists.daq_count x.daq_lists d,
  );
}

-- What the stop of the list `daq` makes of `x`.
abbrev pub StopsOne : ℕ → Xcp → Type 0
StopsOne daq x =
    let x' = stop_daq_list daq x in
    (((d : ℕ) × (d < x.daq_lists.daq_count)
        × (d ≢ daq)
        × (is_running x.daq_lists d ≡ true)
        × (is_running x'.daq_lists d ≡ true))
      × (x'.daq_running ≡ x.daq_running)
      × (x'.daq_lists ≡ halted daq x.daq_lists)
      × (is_running x'.daq_lists daq ≡ false))
    ⊎ (((d : ℕ) → d < x.daq_lists.daq_count → d ≢ daq → is_running x.daq_lists d ≡ false)
        × IsStopped x')

-- Stopping one list, whose state is a byte, takes it out of the running ones and leaves the states
-- of the others, with event processing going on, as long as one of them is still running. When
-- none is, event processing stops too and every list is unselected.
pub stop_daq_list_lem : (daq : ℕ) (x : Xcp) → daq_state x.daq_lists daq < 256 → StopsOne daq x
unfolding stop_daq_list
stop_daq_list_lem daq x h =
    elim (Bool-cases (any_running x.daq_lists.daq_count (halted daq x.daq_lists))) [
      | inl more ↦
          let (d, p, r) = any_running_found x.daq_lists.daq_count (halted daq x.daq_lists) more in
          rw more (
            inl (
              (
                d,
                p,
                ground (arith, r, is_running-halted daq x.daq_lists d h),
                ground (arith, r, is_running-halted daq x.daq_lists d h),
                r,
              ),
              refl,
              refl,
              ground (arith, is_running-halted daq x.daq_lists daq h),
            ))
      | inr none_left ↦ rw none_left (
          inr (
            λ d p ne. ground (
              arith,
              ne,
              is_running-halted daq x.daq_lists d h,
              any_running-false x.daq_lists.daq_count (halted daq x.daq_lists) d none_left p,
            ),
            stop_daq-IsStopped (record x { daq_lists = halted daq x.daq_lists }),
          ))
    ]
