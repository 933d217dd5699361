-- ===== src/Cal/Refcount/Runs.antt =====
-- The functions of the variant with reference counts, src/cal.c, are runs of the steps of one thread.
use xcplite.Prelude.{
  ℕ, zero, suc, ◌+◌, ◌-◌, ◌≤◌, ◌<◌, ◌≡◌, inl, inr, refl, sym, subst, ◌==◌, if◌then◌else◌, if_cases,
  Bool-cases, arith, Option,
}
use native.Mathlib.Nat.{mul-le-mul_right}
use xcplite.Cal.{xcp_calpage_working_page, default_page_offset}
use xcplite.Cal.Refcount.{
  RefSeg, aligned_size, rcu_page, unpin, next_page, find_page, find_target, publish_in,
  refcount_lock, refcount_unlock, refcount_try_publish,
}
use xcplite.Cal.Refcount.Steps.{
  unlock_default, Reader, idle, loaded, reading, reading_default, Writer, rest, searching,
  ReaderStep, WriterStep, choose_default, choose_working, load, pin_page, still_published, unlock,
  begin_search, skip, in_use, take_free, give_up, copy_rest, announce,
}

-- steps of one thread, and of the server, with no other step between them
pub data ReaderRun (c : RefSeg) (r : Reader) : RefSeg → Reader → Type 0 where
  stay : ReaderRun c r c r
  go_on :
      {c' c'' : RefSeg} {r' r'' : Reader}
      → ReaderRun c r c' r'
      → ReaderStep c' r' c'' r''
      → ReaderRun c r c'' r''

pub data WriterRun (pages : ℕ) (c : RefSeg) (w : Writer) : RefSeg → Writer → Type 0 where
  stay : WriterRun pages c w c w
  go_on :
      {c' c'' : RefSeg} {w' w'' : Writer}
      → WriterRun pages c w c' w'
      → WriterStep pages c' w' c'' w''
      → WriterRun pages c w c'' w''

-- where a thread stands behind a lock
abbrev pub inside : RefSeg → Reader
inside c =
    if c.ecu_access == xcp_calpage_working_page then reading c.published_page else reading_default

lock-Run : (pages : ℕ) (c : RefSeg) → ReaderRun c idle (refcount_lock pages c).1 (inside c)
unfolding refcount_lock
lock-Run pages c = elim (Bool-cases (c.ecu_access == xcp_calpage_working_page)) [
  | inl working ↦ rw working (
      let looked : ReaderRun c idle c (loaded c.published_page) =
        ReaderRun.go_on (ReaderRun.go_on ReaderRun.stay (choose_working (ground (arith, working))))
          load in
      ReaderRun.go_on (ReaderRun.go_on looked pin_page) (still_published refl))
  | inr default ↦
      rw default (ReaderRun.go_on ReaderRun.stay (choose_default (ground (arith, default))))
]

-- Pages have different addresses.
rcu_page-apart : (c : RefSeg) (i j : ℕ) → 0 < c.size → i < j → rcu_page c i < rcu_page c j
rcu_page-apart c i j h lt =
    let le : i + 1 ≤ j = omega (arith, lt) in
    let fits : c.size ≤ aligned_size c.size = omega arith in
    omega (arith, h, fits, mul-le-mul_right (aligned_size c.size) le)

-- The loop of CalSegRcuUnlock finds the page that the lock gave out.
find_page-rcu_page :
    (pages n idx p : ℕ) (c : RefSeg)
    → 0 < c.size
    → idx ≤ p
    → p < idx + n
    → find_page pages n idx (rcu_page c p) c ≡ p
unfolding find_page
find_page-rcu_page pages zero idx p c h le lt = absurd (omega (arith, le, lt))
find_page-rcu_page pages (suc n) idx p c h le lt = elim (Bool-cases (p == idx)) [
  | inl same ↦ let e : p ≡ idx = ground (arith, same) in ground (arith, e)
  | inr other ↦
      let below : idx < p = ground (arith, other, le) in
      let later =
        find_page-rcu_page pages n (idx + 1) p c h (omega (arith, below)) (omega (arith, lt)) in
      let apart = rcu_page-apart c idx p h below in ground (arith, later, apart)
]

unlock-unpin :
    (pages p : ℕ) (c : RefSeg)
    → 0 < c.size
    → 1 ≤ p
    → p < pages
    → refcount_unlock pages (rcu_page c p) c ≡ unpin p c
unfolding refcount_unlock
unlock-unpin pages p c h pos lt =
    let found = find_page-rcu_page pages (pages - 1) 1 p c h pos (omega (arith, pos, lt)) in
    let there = rcu_page-apart c 0 p h (omega (arith, pos)) in ground (arith, found, there, lt)

search-Run :
    (pages n p idx : ℕ) (c : RefSeg)
    → WriterRun pages c rest c (searching n p idx)
    → WriterRun pages c rest (publish_in pages (find_target pages n p idx c.page_refs) c).1 rest
unfolding find_target publish_in
search-Run pages zero p idx c run = WriterRun.go_on run give_up
search-Run pages (suc n) p idx c run =
    let next = next_page pages idx in
    if_cases P (next == p)
      (λ e. search-Run pages n p next c (WriterRun.go_on run (skip (ground (arith, e)))))
      (λ e.
        if_cases P (c.page_refs next == 0)
          (λ k.
            WriterRun.go_on
              (WriterRun.go_on
                (WriterRun.go_on run (take_free (ground (arith, e)) (ground (arith, k)))) copy_rest)
              announce)
          (λ k.
            search-Run pages n p next c
              (WriterRun.go_on run (in_use (ground (arith, e)) (ground (arith, k))))))
  where
    P : Option ℕ → Type 0
    P o = WriterRun pages c rest (publish_in pages o c).1 rest

-- CalSegRcuLock, CalSegRcuUnlock and CalSegRcuTryPublish with reference counts, each without an
-- interruption, are runs of the steps that interleave: the lock ends inside, and gives out the address
-- of the page that the thread reads, or of the default page; and of a segment that is not empty,
-- the unlock of that address takes the thread outside.
pub refcount-Runs :
    (pages : ℕ) (c : RefSeg) (p : ℕ)
    → 0 < c.size
    → 1 ≤ p
    → p < pages
    → let (page, c') = refcount_lock pages c in
      ReaderRun c idle c' (inside c)
      × (page ≡ (
          if c.ecu_access == xcp_calpage_working_page
          then rcu_page c c.published_page
          else default_page_offset))
      × ReaderRun c (reading p) (refcount_unlock pages (rcu_page c p) c) idle
      × ReaderRun c reading_default (refcount_unlock pages default_page_offset c) idle
      × WriterRun pages c rest (refcount_try_publish pages c).1 rest
unfolding refcount_try_publish refcount_lock refcount_unlock
refcount-Runs pages c p h pos lt = (
  lock-Run pages c,
  ground arith,
  subst (λ c'. ReaderRun c (reading p) c' idle) (sym (unlock-unpin pages p c h pos lt))
      (ReaderRun.go_on ReaderRun.stay unlock),
  ReaderRun.go_on ReaderRun.stay unlock_default,
  search-Run pages (pages - 1) c.published_page c.published_page c
      (WriterRun.go_on WriterRun.stay begin_search),
)
