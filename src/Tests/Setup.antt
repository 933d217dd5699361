-- ===== src/Tests/Setup.antt =====
-- A configuration with two DAQ lists of one ODT each and three entries: the first list is bound to
-- the event 0, complete and selected, and the second is still to be configured.
use xcplite.Prelude.{ℕ, zero, suc, ◌<◌, refl, inl, inr, arith, false, [], ◌∷◌, ◌==◌, if◌then◌else◌}
use mathlib.Core.Bool.{true≢false}
use xcplite.Memory.{Bytes, cleared, get8, get16, put8, put16}
use xcplite.State.{DaqLists, Event, Xcp}
use xcplite.Daq.Tables.{daq_state}
use xcplite.Daq.Layout.{IsWf}
use xcplite.Daq.Entry.Cursor.{IsReady}
use xcplite.Daq.Mode.Linked.{Assoc, IsLinked}

abbrev lists_mem : Bytes
lists_mem =
    put16
      (put16 (put16 (put16 (put8 (put8 (put16 cleared 6 0xffff) 8 16) 9 1) 12 1) 14 1) 16 0xffff) 18
      0xffff

abbrev odts_mem : Bytes
odts_mem = put16 (put16 (put16 (put16 lists_mem 26 1) 28 12) 32 2) 34 2

abbrev entries_mem : Bytes
entries_mem = put8 (put8 (put8 (put8 (put16 (put16 odts_mem 40 100) 44 200) 52 4) 53 8) 55 1) 56 1

abbrev pub two_lists : DaqLists
two_lists = record {
  odt_entry_count = 3;
  odt_count = 2;
  daq_count = 2;
  res = 0xbeac;
  mem = entries_mem;
}

abbrev pub one_event : ℕ → Event
one_event i = record {
  cycle_time_ns = 1000000;
  index = 0;
  daq_first = if i == 0 then 0 else 0xffff;
  flags = 0;
  name = 109 ∷ [];
}

-- connected, and the cursor on the entry of the second list
abbrev pub configured : Xcp
configured = record {
  session_status = 0x7000;
  daq_running = false;
  daq_lists = two_lists;
  daq_overflow_count = 0;
  event_count = 1;
  events = one_event;
  write_daq_odt_entry = 2;
  write_daq_odt = 1;
  write_daq_daq = 1;
  daq_start_clock = 0;
  app_calls = [];
}

abbrev pub first_bound : Assoc
first_bound e = if e == 0 then 0 ∷ [] else []

pub below_one : (P : ℕ → Type 0) → P 0 → (d : ℕ) → d < 1 → P d
below_one P p zero h = p
below_one P p (suc d) h = absurd (omega arith)

pub below_two : (P : ℕ → Type 0) → P 0 → P 1 → (d : ℕ) → d < 2 → P d
below_two P p q zero h = p
below_two P p q (suc zero) h = q
below_two P p q (suc (suc d)) h = absurd (omega arith)

pub two_lists-IsWf : IsWf two_lists
unfolding get16 put16 put8 cleared
two_lists-IsWf = record {
  fits = omega arith;
  has_lists = λ h. omega arith;
  has_odts = λ h. omega arith;
  lists = below_two _ (omega arith, inl refl) (omega arith, inr (omega arith));
  odts = below_two _ (omega arith, inr (omega arith)) (omega arith, inr (omega arith));
  fresh = λ none. absurd (omega arith);
}

-- a property of two numbers below two
below_two_twice :
    (P : ℕ → ℕ → Type 0) → P 0 0 → P 0 1 → P 1 0 → P 1 1 → (i j : ℕ) → i < 2 → j < 2 → P i j
below_two_twice P a b c d i j h k =
    below_two (λ i. P i j) (below_two (P 0) a b j k) (below_two (P 1) c d j k) i h

pub configured-IsReady : IsReady configured
unfolding get8 get16 put16 put8 cleared
configured-IsReady = record {
  wf = two_lists-IsWf;
  disjoint =
      below_two_twice _ (λ ne. absurd (ne refl)) (λ ne. inl (omega arith)) (λ ne. inr (omega arith))
        (λ ne. absurd (ne refl));
  sized = below_two _ (refl, omega arith) (refl, omega arith);
  nested =
      below_two_twice _ (λ p q. refl) (λ p q. absurd (omega (arith, q)))
        (λ p q. absurd (omega (arith, p))) (λ p q. refl);
  short = below_two _ (omega arith) (omega arith);
  cursor = (omega arith, omega arith, omega arith, omega arith);
}

pub configured-IsLinked : IsLinked first_bound configured
unfolding get16 put16 put8 cleared
configured-IsLinked = record {
  few_events = omega arith;
  few_lists = omega arith;
  chain = below_one _ (refl, omega arith, refl);
  members = below_one _ (refl, tt);
  inside = below_one _ (omega arith, tt);
  distinct = below_one _ (refl, tt);
  unlinked = below_two _ (λ absent. absurd (true≢false (absent 0 (omega arith)))) (λ absent. refl);
}

pub daq_state-byte : (k : ℕ) → daq_state two_lists k < 256
unfolding get8 put16 put8 cleared
daq_state-byte k = ground arith
