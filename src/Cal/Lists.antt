-- ===== src/Cal/Lists.antt =====
-- The list of calibration segments, src/cal.c: the segments lie apart in the pool, each with its pages
-- in order, whatever operations are called.
pub mod Made
pub mod Created
pub mod Kept
use xcplite.Prelude.{ℕ, ◌+◌, ◌≤◌, ◌<◌, ◌≡◌, true, Option, none, some}
use xcplite.Cal.{CalSeg, CalSegList, aligned_page_size}
use xcplite.Cal.Create.{calseg_bytes}
use xcplite.Cal.Layout.{IsPaged}

pub record IsWf (l : CalSegList) : Type 0 where
  pub active : l.activated ≡ true
  pub few : l.count ≤ 7
  pub numbered : l.memory_segment_count ≤ 255
  pub used : l.cal_mem_used ≤ 5120
  pub placed : (i : ℕ) → i < l.count → l.offset i + calseg_bytes (l.calsegs i).size ≤ l.cal_mem_used
  pub apart :
      (i j : ℕ) → i < j → j < l.count → l.offset i + calseg_bytes (l.calsegs i).size ≤ l.offset j
  pub paged : (i : ℕ) → i < l.count → IsPaged (aligned_page_size (l.calsegs i).size) (l.calsegs i)

-- What holds of the list that an operation returns, if it returns.
abbrev pub Returns : (CalSegList → Type 0) → Option (ℕ × CalSegList) → Type 0
Returns P none = Unit
Returns P (some (i, l)) = P l
