-- ===== src/Cal/Refcount.antt =====
-- The pages of a calibration segment, src/cal.h and src/cal.c, the variant with a reference count per
-- page (OPTION_CAL_RCU_REFCOUNT): `CalSegRcuReset` to `CalSegRcuIsUnlocked`, each as one step.
-- `pages` is XCP_CALSEG_RCU_PAGES, from 3 to 6.
pub mod Steps
pub mod Sum
pub mod Inv
pub mod Kept
pub mod Safety
pub mod Publish
pub mod Runs
use xcplite.Prelude.{
  ℕ, zero, suc, ◌+◌, ◌*◌, ◌/◌, ◌%◌, ◌-◌, ◌&&◌, Bool, true, false, Option, none, some, ltb, leb,
  ◌==◌, if◌then◌else◌,
}
use xcplite.Memory.{Bytes}
use xcplite.Cal.{xcp_calseg_no_page, xcp_calpage_working_page, default_page_offset, copy_within}

-- The fields of `tXcpCalSegHeader` that the variant uses, and the pages `b`.
pub record RefSeg : Type 0 where
  pub published_page : ℕ
  pub xcp_page : ℕ
  pub page_refs : ℕ → ℕ
  pub size : ℕ
  pub ecu_access : ℕ
  pub b : Bytes

-- CALSEG_RCU_PAGE_OFFSET, behind the default page
abbrev pub rcu_page_offset : ℕ → ℕ → ℕ
rcu_page_offset aligned idx = aligned + idx * aligned

-- CalSegAlignedPageSize and the offset of CalSegRcuPage
abbrev pub aligned_size : ℕ → ℕ
aligned_size size = (size + 7) / 8 * 8

abbrev pub rcu_page : RefSeg → ℕ → ℕ
rcu_page c idx = rcu_page_offset (aligned_size c.size) idx

-- the count `page_refs[p]` replaced
abbrev pub set_refs : ℕ → ℕ → RefSeg → RefSeg
set_refs p n c = record c { page_refs = λ q. if q == p then n else c.page_refs q }

-- atomic_fetch_add and atomic_fetch_sub of 1 on page_refs[p]
abbrev pub pin : ℕ → RefSeg → RefSeg
pin p c = set_refs p ((c.page_refs p + 1) % 65536) c

abbrev pub unpin : ℕ → RefSeg → RefSeg
unpin p c = set_refs p ((c.page_refs p + 65535) % 65536) c

module _ (pages : ℕ) where
  -- the loop that clears the counts
  abbrev clear_refs : (ℕ → ℕ) → ℕ → ℕ
  clear_refs refs q = if ltb q pages then 0 else refs q

  -- `CalSegRcuReset`
  unfoldable pub refcount_reset : RefSeg → RefSeg
  refcount_reset c = record c {
    xcp_page = xcp_calseg_no_page;
    published_page = xcp_calseg_no_page;
    page_refs = clear_refs c.page_refs;
  }

  -- `CalSegRcuInit`
  unfoldable pub refcount_init : ℕ → RefSeg → RefSeg
  unfolding copy_within
  refcount_init aligned c =
      let xcp = rcu_page_offset aligned 0 in
      let b1 = copy_within xcp default_page_offset c.size c.b in
      record c {
        xcp_page = xcp;
        b = copy_within (rcu_page c 1) default_page_offset c.size b1;
        page_refs = clear_refs c.page_refs;
        published_page = 1;
      }

  -- `CalSegRcuLock`: the offset of the page that the reader gets. With no other step between, the
  -- first round succeeds.
  unfoldable pub refcount_lock : RefSeg → ℕ × RefSeg
  refcount_lock c =
      if c.ecu_access == xcp_calpage_working_page
      then (rcu_page c c.published_page, pin c.published_page c)
      else (default_page_offset, c)

  -- The loop of `CalSegRcuUnlock` that finds the index of a page, `n` indices left from `idx` on.
  unfoldable pub find_page : ℕ → ℕ → ℕ → RefSeg → ℕ
  find_page zero idx page c = idx
  find_page (suc n) idx page c =
      let rest = find_page n (idx + 1) page c in if page == rcu_page c idx then idx else rest

  -- `CalSegRcuUnlock`
  unfoldable pub refcount_unlock : ℕ → RefSeg → RefSeg
  unfolding find_page
  refcount_unlock page c =
      let idx = find_page (pages - 1) 1 page c in
      if page == default_page_offset then c else if leb pages idx then c else unpin idx c

  -- the next candidate, round robin
  abbrev pub next_page : ℕ → ℕ
  next_page idx = if ltb (idx + 1) pages then idx + 1 else 1

  -- The loop of `CalSegRcuTryPublish` that finds a target, `n` rounds left.
  unfoldable pub find_target : ℕ → ℕ → ℕ → (ℕ → ℕ) → Option ℕ
  find_target zero published idx refs = none
  find_target (suc n) published idx refs =
      let next = next_page idx in
      let rest = find_target n published next refs in
      if next == published then rest else if refs next == 0 then some next else rest

  -- the copy and the announcement
  unfoldable pub publish_in : Option ℕ → RefSeg → Bool × RefSeg
  unfolding copy_within
  publish_in none c = (false, c)
  publish_in (some target) c = (
    true,
    record c { b = copy_within (rcu_page c target) c.xcp_page c.size c.b; published_page = target },
  )

  -- `CalSegRcuTryPublish`
  unfoldable pub refcount_try_publish : RefSeg → Bool × RefSeg
  unfolding find_target publish_in
  refcount_try_publish c =
      publish_in (find_target (pages - 1) c.published_page c.published_page c.page_refs) c

  -- The loop of `CalSegRcuIsUnlocked`, `n` indices left from `i` on.
  unfoldable pub all_unpinned : ℕ → ℕ → (ℕ → ℕ) → Bool
  all_unpinned zero i refs = true
  all_unpinned (suc n) i refs = refs i == 0 && all_unpinned n (i + 1) refs

  -- `CalSegRcuIsUnlocked`
  unfoldable pub refcount_is_unlocked : RefSeg → Bool
  unfolding all_unpinned
  refcount_is_unlocked c = all_unpinned pages 0 c.page_refs
