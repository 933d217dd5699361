-- ===== src/Cal/Threads/Runs.antt =====
-- The functions of src/cal.c on the pages of a segment are runs of the steps of one thread.
use xcplite.Prelude.{
  ℕ, ◌+◌, ◌%◌, ◌≡◌, inl, inr, refl, Bool, true, ◌||◌, ◌==◌, if◌then◌else◌, if_cases, Bool-cases,
  arith,
}
use xcplite.Cal.{CalSeg, xcp_calseg_no_page, xcp_calpage_working_page}
use xcplite.Cal.Rcu.{take_over, active_page, rcu_lock, rcu_unlock, rcu_try_publish}
use xcplite.Cal.Threads.{
  Reader, idle, first, ready, reading, reading_default, Writer, rest, loaded, ReaderStep,
  WriterStep, lock_first, lock_more, load_next, load_ecu, no_update, set_hazard, store_ecu,
  store_free, choose_default, choose_working, get_page, unlock, unlock_default, load_free, give_up,
  load_hazard, take_free, copy_rest, publish,
}

-- steps of one thread, and of the server, with no other step between them
pub data ReaderRun (c : CalSeg) (r : Reader) : CalSeg → Reader → Type 0 where
  stay : ReaderRun c r c r
  go_on :
      {c' c'' : CalSeg} {r' r'' : Reader}
      → ReaderRun c r c' r'
      → ReaderStep c' r' c'' r''
      → ReaderRun c r c'' r''

pub data WriterRun (c : CalSeg) (w : Writer) : CalSeg → Writer → Type 0 where
  stay : WriterRun c w c w
  go_on :
      {c' c'' : CalSeg} {w' w'' : Writer}
      → WriterRun c w c' w'
      → WriterStep c' w' c'' w''
      → WriterRun c w c'' w''

-- where a thread stands behind a lock
abbrev pub inside : CalSeg → Reader
inside c = if c.ecu_access == xcp_calpage_working_page then reading c.ecu_page else reading_default

choose-inside : (c c' : CalSeg) (r : Reader) → ReaderRun c r c' ready → ReaderRun c r c' (inside c')
choose-inside c c' r run =
    if_cases (ReaderRun c r c') (c'.ecu_access == xcp_calpage_working_page)
      (λ h. ReaderRun.go_on (ReaderRun.go_on run (choose_working (ground arith))) get_page)
      (λ h. ReaderRun.go_on run (choose_default (ground arith)))

take_over-Run : (c0 c : CalSeg) → ReaderRun c0 idle c first → ReaderRun c0 idle (take_over c) ready
unfolding take_over
take_over-Run c0 c run =
    let both = ReaderRun.go_on (ReaderRun.go_on run load_next) load_ecu in
    if_cases (λ c'. ReaderRun c0 idle c' ready) (c.ecu_page == c.ecu_page_next)
      (λ h. ReaderRun.go_on both (no_update (ground arith)))
      (λ h.
        ReaderRun.go_on
          (ReaderRun.go_on (ReaderRun.go_on both (set_hazard (ground arith))) store_ecu) store_free)

-- the lock, up to the choice of the page
lock_ready : (c : CalSeg) → ReaderRun c idle (rcu_lock c).1 ready
unfolding rcu_lock
lock_ready c =
    let c1 = record c { lock_count = (c.lock_count + 1) % 65536 } in
    if_cases (λ c'. ReaderRun c idle c' ready) (c.lock_count == 0)
      (λ h. take_over-Run c c1 (ReaderRun.go_on ReaderRun.stay (lock_first (ground arith))))
      (λ h. ReaderRun.go_on ReaderRun.stay (lock_more (ground arith)))

-- the server gives up without a step, or behind the load of the hazard
refused-Run :
    (c : CalSeg)
    → (c.free_page == xcp_calseg_no_page || c.free_page_hazard) ≡ true
    → WriterRun c rest c rest
refused-Run c h = elim (Bool-cases (c.free_page == xcp_calseg_no_page)) [
  | inl no_page ↦ WriterRun.stay
  | inr page ↦
      WriterRun.go_on (WriterRun.go_on WriterRun.stay (load_free (ground arith)))
        (give_up (ground arith))
]

publish-Run : (c : CalSeg) → WriterRun c rest (rcu_try_publish c).1 rest
unfolding rcu_try_publish
publish-Run c =
    if_cases (λ (o : Bool × CalSeg). WriterRun c rest o.1 rest)
      (c.free_page == xcp_calseg_no_page || c.free_page_hazard) (refused-Run c)
      (λ h.
        let at : WriterRun c rest c (loaded c.free_page) =
          WriterRun.go_on WriterRun.stay (load_free (ground arith)) in
        WriterRun.go_on
          (WriterRun.go_on
            (WriterRun.go_on (WriterRun.go_on at (load_hazard (ground arith))) take_free) copy_rest)
          publish)

-- CalSegRcuLock and CalSegRcuTryPublish, each without an interruption, are runs of the steps that
-- interleave: the lock ends inside with the page that it returns, and CalSegRcuUnlock takes the
-- thread back outside.
pub rcu-Runs :
    (c : CalSeg) (p : ℕ)
    → let c' = (rcu_lock c).1 in
      ReaderRun c idle c' (inside c')
      × ((rcu_lock c).0 ≡ active_page c')
      × ReaderRun c (reading p) (rcu_unlock c) idle
      × ReaderRun c reading_default (rcu_unlock c) idle
      × WriterRun c rest (rcu_try_publish c).1 rest
unfolding rcu_unlock rcu_lock
rcu-Runs c p = (
  choose-inside c (rcu_lock c).1 idle (lock_ready c),
  refl,
  ReaderRun.go_on ReaderRun.stay unlock,
  ReaderRun.go_on ReaderRun.stay unlock_default,
  publish-Run c,
)
