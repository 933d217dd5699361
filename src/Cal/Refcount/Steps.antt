-- ===== src/Cal/Refcount/Steps.antt =====
-- The threads at one calibration segment with reference counts, src/cal.c: threads that lock and
-- unlock it, and the server that writes and publishes. Each sequentially consistent access of
-- `CalSegRcuLock`, `CalSegRcuUnlock` and `CalSegRcuTryPublish` is one step, and the steps interleave in
-- any order.
use xcplite.Prelude.{ℕ, suc, ◌-◌, ◌<◌, ◌≡◌, ◌≢◌, ◌==◌, if◌then◌else◌}
use xcplite.Memory.{Bytes}
use xcplite.Cal.{xcp_calpage_working_page, copy_within}
use xcplite.Cal.Threads.{WritesOnly}
use xcplite.Cal.Refcount.{RefSeg, rcu_page, pin, unpin, next_page}

-- Where a thread stands in lock and unlock. A page is its index; what the thread gets is the address
-- `rcu_page` of it.
pub data Reader : Type 0 where
  idle : Reader  -- no lock
  retry : Reader  -- before the load of `published_page`
  loaded : (page : ℕ) → Reader  -- before the pin
  pinned : (page : ℕ) → Reader  -- before the second load
  stale : (page : ℕ) → Reader  -- before it gives up the pin
  reading : (page : ℕ) → Reader  -- inside of the lock
  reading_default : Reader  -- inside of the lock, with the default page

-- Where the server stands in the publication.
pub data Writer : Type 0 where
  rest : Writer  -- outside, it may write to its page
  searching : (left published idx : ℕ) → Writer  -- `left` rounds left, behind the candidate `idx`
  filling : (target : ℕ) → Writer  -- while it copies its page
  filled : (target : ℕ) → Writer  -- before the announcement

-- One step of one thread in `CalSegRcuLock` or `CalSegRcuUnlock`.
pub data ReaderStep (c : RefSeg) : Reader → RefSeg → Reader → Type 0 where
  choose_default : c.ecu_access ≢ xcp_calpage_working_page → ReaderStep c idle c reading_default
  choose_working : c.ecu_access ≡ xcp_calpage_working_page → ReaderStep c idle c retry
  load : ReaderStep c retry c (loaded c.published_page)
  pin_page : {p : ℕ} → ReaderStep c (loaded p) (pin p c) (pinned p)
  still_published : {p : ℕ} → c.published_page ≡ p → ReaderStep c (pinned p) c (reading p)
  no_longer : {p : ℕ} → c.published_page ≢ p → ReaderStep c (pinned p) c (stale p)
  give_back : {p : ℕ} → ReaderStep c (stale p) (unpin p c) retry
  unlock : {p : ℕ} → ReaderStep c (reading p) (unpin p c) idle
  unlock_default : ReaderStep c reading_default c idle

-- One step of the server in `XcpCalSegWriteMemory` (any bytes of its page) or `CalSegRcuTryPublish`;
-- while it copies, some of the bytes are stored.
pub data WriterStep (pages : ℕ) (c : RefSeg) : Writer → RefSeg → Writer → Type 0 where
  write :
      (b' : Bytes)
      → WritesOnly c.xcp_page c.size c.b b'
      → WriterStep pages c rest (record c { b = b' }) rest
  begin_search : WriterStep pages c rest c (searching (pages - 1) c.published_page c.published_page)
  skip :
      {n p idx : ℕ}
      → next_page pages idx ≡ p
      → WriterStep pages c (searching (suc n) p idx) c (searching n p (next_page pages idx))
  in_use :
      {n p idx : ℕ}
      → next_page pages idx ≢ p
      → c.page_refs (next_page pages idx) ≢ 0
      → WriterStep pages c (searching (suc n) p idx) c (searching n p (next_page pages idx))
  take_free :
      {n p idx : ℕ}
      → next_page pages idx ≢ p
      → c.page_refs (next_page pages idx) ≡ 0
      → WriterStep pages c (searching (suc n) p idx) c (filling (next_page pages idx))
  give_up : {p idx : ℕ} → WriterStep pages c (searching 0 p idx) c rest
  copy_some :
      {t : ℕ} (b' : Bytes)
      → WritesOnly (rcu_page c t) c.size c.b b'
      → WriterStep pages c (filling t) (record c { b = b' }) (filling t)
  copy_rest :
      {t : ℕ}
      → WriterStep pages c
          (filling t)
          (record c { b = copy_within (rcu_page c t) c.xcp_page c.size c.b })
          (filled t)
  announce : {t : ℕ} → WriterStep pages c (filled t) (record c { published_page = t }) rest

pub record System : Type 0 where
  pub seg : RefSeg
  pub readers : ℕ → Reader
  pub writer : Writer

abbrev pub set_reader : ℕ → Reader → (ℕ → Reader) → ℕ → Reader
set_reader i r rs j = if j == i then r else rs j

-- A step of one of `n` threads, of the server, or of SET_CAL_PAGE.
pub data Step (pages n : ℕ) (s : System) : System → Type 0 where
  reader_step :
      (i : ℕ) {c : RefSeg} {r : Reader}
      → i < n
      → ReaderStep s.seg (s.readers i) c r
      → Step pages n s (record { seg = c; readers = set_reader i r s.readers; writer = s.writer })
  writer_step :
      {c : RefSeg} {w : Writer}
      → WriterStep pages s.seg s.writer c w
      → Step pages n s (record { seg = c; readers = s.readers; writer = w })
  access_step : (page : ℕ) → Step pages n s (record s { seg = record s.seg { ecu_access = page } })

-- all threads outside, and the server at rest
abbrev pub start : RefSeg → System
start c = record { seg = c; readers = λ i. idle; writer = rest }

-- The states that `n` threads and the server reach from the segment `c`.
pub data Reach (pages n : ℕ) (c : RefSeg) : System → Type 0 where
  here : Reach pages n c (start c)
  then_step : {s t : System} → Reach pages n c s → Step pages n s t → Reach pages n c t
