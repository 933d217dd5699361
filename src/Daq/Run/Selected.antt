-- ===== src/Daq/Run/Selected.antt =====
-- STOP of the selected DAQ lists, `XcpStopSelectedDaqLists` of src/xcplite.c.
use xcplite.Prelude.{
  ℕ, zero, suc, ◌≤◌, ◌<◌, ◌≡◌, refl, ◌⊎◌, inl, inr, ◌∙◌, arith, true, false, ◌&&◌, ltb,
  if◌then◌else◌, Bool-cases, bit_and,
}
use xcplite.State.{Xcp}
use xcplite.Daq.Tables.{daq_state, set_daq_state}
use xcplite.Daq.Run.{is_running, is_selected, stop_daq_list, stop_selected, stop_selected_daq_lists}
use xcplite.Daq.Run.States.{daq_state-set_daq_state}
use xcplite.Daq.Run.Stopped.{IsStopped, halted, stop_daq_list_lem}
use xcplite.Daq.Run.Links.{stop_selected-SameEvents, stop_daq_list-SameEvents}

-- Exactly the selected lists below `n` are stopped, and events are still processed: nothing was
-- selected, or a list that is not among them runs.
pub record GoesOn (n : ℕ) (x x' : Xcp) : Type 0 where
  pub flag : x'.daq_running ≡ x.daq_running
  pub states :
      (d : ℕ)
      → daq_state x'.daq_lists d
        ≡ (if ltb d n && is_selected x.daq_lists d then 0 else daq_state x.daq_lists d)
  pub left :
      ((d : ℕ) → d < n → is_selected x.daq_lists d ≡ false)
      ⊎ ((d : ℕ) × (d < x.daq_lists.daq_count)
          × (is_running x.daq_lists d ≡ true)
          × ((ltb d n && is_selected x.daq_lists d) ≡ false))

-- All lists are stopped, and none but selected ones were running.
pub record EndsAll (x x' : Xcp) : Type 0 where
  pub stopped : IsStopped x'
  pub others :
      (d : ℕ)
      → d < x.daq_lists.daq_count
      → is_selected x.daq_lists d ≡ false
      → is_running x.daq_lists d ≡ false

count-stop_selected :
    (n : ℕ) (x : Xcp) → (stop_selected n x).daq_lists.daq_count ≡ x.daq_lists.daq_count
count-stop_selected n x = (stop_selected-SameEvents n x).2.0

count-stop_daq_list :
    (n : ℕ) (x : Xcp) → (stop_daq_list n x).daq_lists.daq_count ≡ x.daq_lists.daq_count
count-stop_daq_list n x = (stop_daq_list-SameEvents n x).2.0

-- the list `n` after its stop
unselect : ℕ → Xcp → Xcp
unselect n y = record y { daq_lists = set_daq_state y.daq_lists n 0 }

unselect-IsStopped : (n : ℕ) (y : Xcp) → IsStopped y → IsStopped (unselect n y)
unfolding unselect
unselect-IsStopped n y s = record {
  flag = s.flag;
  states = λ d p. ground (arith, s.states d p, daq_state-set_daq_state y.daq_lists n 0 d);
}

stop_one :
    (n : ℕ) (x y : Xcp)
    → n < x.daq_lists.daq_count
    → y.daq_lists.daq_count ≡ x.daq_lists.daq_count
    → ((k : ℕ) → daq_state x.daq_lists k < 256)
    → is_selected x.daq_lists n ≡ true
    → GoesOn n x y
    → GoesOn (suc n) x (unselect n (stop_daq_list n y)) ⊎ EndsAll x (unselect n (stop_daq_list n y))
unfolding unselect
stop_one n x y n_in same bytes sel g =
    elim (stop_daq_list_lem n y (ground (arith, g.states n, bytes n))) [
      | inl ((d, p, ne, r, r'), flag, lists, off) ↦ inl (record {
        flag = flag ∙ g.flag;
        states = λ k. rw lists (
            ground (
              arith,
              sel,
              g.states k,
              daq_state-set_daq_state y.daq_lists n (bit_and (daq_state y.daq_lists n) 0xf9) k,
              daq_state-set_daq_state (halted n y.daq_lists) n 0 k,
            ));
        left = inr (
          d,
          omega (arith, p, same),
          ground (arith, r, g.states d),
          ground (arith, r, ne, g.states d),
        );
      })
      | inr (rest, s) ↦ inr (record {
        stopped = unselect-IsStopped n (stop_daq_list n y) s;
        others = λ d p free. ground (arith, free, sel, g.states d, rest d);
      })
    ]

keep_one :
    (n : ℕ) (x y : Xcp) → is_selected x.daq_lists n ≡ false → GoesOn n x y → GoesOn (suc n) x y
keep_one n x y free g = record {
  flag = g.flag;
  states = λ k. ground (arith, free, g.states k);
  left = elim g.left [
    | inl none_below ↦ inl (λ d p. ground (arith, free, none_below d))
    | inr (d, p, r, q) ↦ inr (d, p, r, ground (arith, free, q))
  ];
}

stop_next :
    (n : ℕ) (x y : Xcp)
    → n < x.daq_lists.daq_count
    → y.daq_lists.daq_count ≡ x.daq_lists.daq_count
    → ((k : ℕ) → daq_state x.daq_lists k < 256)
    → GoesOn n x y ⊎ EndsAll x y
    → let z = if is_selected y.daq_lists n then unselect n (stop_daq_list n y) else y in
      GoesOn (suc n) x z ⊎ EndsAll x z
stop_next n x y n_in same bytes (inl g) = elim (Bool-cases (is_selected x.daq_lists n)) [
  | inl sel ↦ rw (the_same, sel) (stop_one n x y n_in same bytes sel g)
  | inr free ↦ rw (the_same, free) (inl (keep_one n x y free g))
]
  where
    the_same : is_selected y.daq_lists n ≡ is_selected x.daq_lists n
    the_same = ground (arith, g.states n)
stop_next n x y n_in same bytes (inr s) = rw off (inr s)
  where
    off : is_selected y.daq_lists n ≡ false
    off = ground (arith, s.stopped.states n (omega (arith, n_in, same)))

loop-stops :
    (n : ℕ) (x : Xcp)
    → n ≤ x.daq_lists.daq_count
    → ((k : ℕ) → daq_state x.daq_lists k < 256)
    → GoesOn n x (stop_selected n x) ⊎ EndsAll x (stop_selected n x)
unfolding stop_selected unselect
loop-stops zero x h bytes =
    inl
      (record { flag = refl; states = λ d. ground arith; left = inl (λ d p. absurd (omega arith)) })
loop-stops (suc n) x h bytes =
    stop_next n x (stop_selected n x) (omega (arith, h)) (count-stop_selected n x) bytes
      (loop-stops n x (omega (arith, h)) bytes)

-- Stopping the selected lists, where the states of the lists are bytes: either exactly the selected
-- lists are stopped and unselected, every other list keeps its state, and event processing stays as
-- it is, which happens only when no list was selected or one that was not is running; or all lists
-- are stopped and unselected and event processing ends, which happens only when no list but
-- selected ones was running.
pub stop_selected_daq_lists_lem :
    (x : Xcp)
    → ((k : ℕ) → daq_state x.daq_lists k < 256)
    → let x' = stop_selected_daq_lists x in GoesOn x.daq_lists.daq_count x x' ⊎ EndsAll x x'
unfolding stop_selected_daq_lists
stop_selected_daq_lists_lem x bytes = loop-stops x.daq_lists.daq_count x (omega arith) bytes
