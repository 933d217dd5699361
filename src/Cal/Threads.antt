-- ===== src/Cal/Threads.antt =====
-- The threads at one calibration segment, src/cal.c: `n` threads that lock and unlock it, and the
-- server that writes and publishes. Each access to a shared field of `CalSegRcuLock`,
-- `CalSegRcuUnlock` and `CalSegRcuTryPublish` is one step, and the steps interleave in any order
-- (sequential consistency).
pub mod Count
pub mod Inv
pub mod Moves
pub mod Kept
pub mod Safety
pub mod Runs
use xcplite.Prelude.{ℕ, ◌+◌, ◌%◌, ◌≤◌, ◌<◌, ◌≡◌, ◌≢◌, ◌⊎◌, true, false, ◌==◌, if◌then◌else◌}
use xcplite.Memory.{Bytes}
use xcplite.Cal.{CalSeg, xcp_calseg_no_page, xcp_calpage_working_page, copy_within}

-- Where a thread stands in lock and unlock, with the local variables that are live there.
pub data Reader : Type 0 where
  idle : Reader  -- no lock
  first : Reader  -- the lock count was 0
  next_loaded : (ecu_page_next : ℕ) → Reader
  both_loaded : (ecu_page_next ecu_page : ℕ) → Reader
  hazard_set : (ecu_page_next ecu_page : ℕ) → Reader  -- before the store of `ecu_page`
  swapped : (ecu_page : ℕ) → Reader  -- before the store of `free_page`
  ready : Reader  -- before the load of `ecu_access`
  chosen : Reader  -- the working page is active, before the load of `ecu_page`
  reading : (page : ℕ) → Reader  -- inside of the lock, with a working page
  reading_default : Reader  -- inside of the lock, with the default page

-- Where the server stands in the publication.
pub data Writer : Type 0 where
  rest : Writer  -- outside, it may write to its page
  loaded : (free_page : ℕ) → Writer  -- before the load of `free_page_hazard`
  cleared : (free_page : ℕ) → Writer  -- no hazard, before the store of `free_page`
  taken : (free_page : ℕ) → Writer  -- while it copies its page
  copied : (free_page : ℕ) → Writer  -- before the store of `ecu_page_next`

-- One step of one thread in `CalSegRcuLock` or `CalSegRcuUnlock`.
pub data ReaderStep (c : CalSeg) : Reader → CalSeg → Reader → Type 0 where
  lock_first :
      c.lock_count ≡ 0
      → ReaderStep c idle (record c { lock_count = (c.lock_count + 1) % 65536 }) first
  lock_more :
      c.lock_count ≢ 0
      → ReaderStep c idle (record c { lock_count = (c.lock_count + 1) % 65536 }) ready
  load_next : ReaderStep c first c (next_loaded c.ecu_page_next)
  load_ecu : {n : ℕ} → ReaderStep c (next_loaded n) c (both_loaded n c.ecu_page)
  no_update :
      {n e : ℕ}
      → e ≡ n
      → ReaderStep c (both_loaded n e) (record c { free_page_hazard = false }) ready
  set_hazard :
      {n e : ℕ}
      → e ≢ n
      → ReaderStep c (both_loaded n e) (record c { free_page_hazard = true }) (hazard_set n e)
  store_ecu : {n e : ℕ} → ReaderStep c (hazard_set n e) (record c { ecu_page = n }) (swapped e)
  store_free : {e : ℕ} → ReaderStep c (swapped e) (record c { free_page = e }) ready
  choose_default : c.ecu_access ≢ xcp_calpage_working_page → ReaderStep c ready c reading_default
  choose_working : c.ecu_access ≡ xcp_calpage_working_page → ReaderStep c ready c chosen
  get_page : ReaderStep c chosen c (reading c.ecu_page)
  unlock :
      {p : ℕ}
      → ReaderStep c (reading p) (record c { lock_count = (c.lock_count + 65535) % 65536 }) idle
  unlock_default :
      ReaderStep c reading_default (record c { lock_count = (c.lock_count + 65535) % 65536 }) idle

-- `b'` differs from `b` at most in the `size` bytes at `page`.
abbrev pub WritesOnly : ℕ → ℕ → Bytes → Bytes → Type 0
WritesOnly page size b b' = (i : ℕ) → (i < page) ⊎ (page + size ≤ i) → b' i ≡ b i

-- One step of the server in `XcpCalSegWriteMemory` (any bytes of its page) or `CalSegRcuTryPublish`;
-- while it copies, some of the bytes are stored.
pub data WriterStep (c : CalSeg) : Writer → CalSeg → Writer → Type 0 where
  write :
      (b' : Bytes)
      → WritesOnly c.xcp_page c.size c.b b'
      → WriterStep c rest (record c { b = b' }) rest
  load_free : c.free_page ≢ xcp_calseg_no_page → WriterStep c rest c (loaded c.free_page)
  give_up : {f : ℕ} → c.free_page_hazard ≡ true → WriterStep c (loaded f) c rest
  load_hazard : {f : ℕ} → c.free_page_hazard ≡ false → WriterStep c (loaded f) c (cleared f)
  take_free :
      {f : ℕ} → WriterStep c (cleared f) (record c { free_page = xcp_calseg_no_page }) (taken f)
  copy_some :
      {f : ℕ} (b' : Bytes)
      → WritesOnly f c.size c.b b'
      → WriterStep c (taken f) (record c { b = b' }) (taken f)
  copy_rest :
      {f : ℕ}
      → WriterStep c (taken f) (record c { b = copy_within f c.xcp_page c.size c.b }) (copied f)
  publish :
      {f : ℕ} → WriterStep c (copied f) (record c { xcp_page = f; ecu_page_next = c.xcp_page }) rest

-- The segment, and where the threads and the server stand. A thread from `n` on is never picked.
pub record System : Type 0 where
  pub seg : CalSeg
  pub readers : ℕ → Reader
  pub writer : Writer

abbrev pub set_reader : ℕ → Reader → (ℕ → Reader) → ℕ → Reader
set_reader i r rs j = if j == i then r else rs j

-- A step of a thread, of the server, or of SET_CAL_PAGE.
pub data Step (n : ℕ) (s : System) : System → Type 0 where
  reader_step :
      (i : ℕ) {c : CalSeg} {r : Reader}
      → i < n
      → ReaderStep s.seg (s.readers i) c r
      → Step n s (record { seg = c; readers = set_reader i r s.readers; writer = s.writer })
  writer_step :
      {c : CalSeg} {w : Writer}
      → WriterStep s.seg s.writer c w
      → Step n s (record { seg = c; readers = s.readers; writer = w })
  access_step : (page : ℕ) → Step n s (record s { seg = record s.seg { ecu_access = page } })

-- all threads outside, and the server at rest
abbrev pub start : CalSeg → System
start c = record { seg = c; readers = λ i. idle; writer = rest }

-- The states that `n` threads and the server reach from the segment `c`.
pub data Reach (n : ℕ) (c : CalSeg) : System → Type 0 where
  here : Reach n c (start c)
  then_step : {s t : System} → Reach n c s → Step n s t → Reach n c t
