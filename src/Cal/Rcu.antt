-- ===== src/Cal/Rcu.antt =====
-- The pages of a calibration segment, src/cal.c, the variant with a lock count and page hand-over:
-- `CalSegRcuReset` to `CalSegRcuIsUnlocked`, each as one step.
use xcplite.Prelude.{ℕ, ◌+◌, ◌%◌, ◌||◌, Bool, true, false, ◌==◌, if◌then◌else◌}
use xcplite.Cal.{
  CalSeg, xcp_calseg_no_page, xcp_calpage_working_page, default_page_offset, xcp_page_offset,
  ecu_page_offset, free_page_offset, copy_within,
}

-- `CalSegRcuReset`
unfoldable pub rcu_reset : CalSeg → CalSeg
rcu_reset c = record c {
  xcp_page = xcp_calseg_no_page;
  ecu_page = xcp_calseg_no_page;
  free_page = xcp_calseg_no_page;
  free_page_hazard = false;
  ecu_page_next = xcp_calseg_no_page;
  lock_count = 0;
}

-- `CalSegRcuInit`
unfoldable pub rcu_init : ℕ → CalSeg → CalSeg
unfolding copy_within
rcu_init aligned c =
    let ecu = ecu_page_offset aligned in
    let xcp = xcp_page_offset aligned in
    let b1 = copy_within ecu default_page_offset c.size c.b in
    record c {
      ecu_page = ecu;
      xcp_page = xcp;
      b = copy_within xcp default_page_offset c.size b1;
      free_page = free_page_offset aligned;
      free_page_hazard = false;
      ecu_page_next = ecu;
      lock_count = 0;
    }

-- The first lock takes a published page over and hands the old one back.
unfoldable pub take_over : CalSeg → CalSeg
take_over c =
    if c.ecu_page == c.ecu_page_next
    then record c { free_page_hazard = false }
    else record c { free_page_hazard = true; ecu_page = c.ecu_page_next; free_page = c.ecu_page }

-- the active page: the default page or the ECU page
abbrev pub active_page : CalSeg → ℕ
active_page c = if c.ecu_access == xcp_calpage_working_page then c.ecu_page else default_page_offset

-- `CalSegRcuLock`: the offset of the page that the reader gets
unfoldable pub rcu_lock : CalSeg → ℕ × CalSeg
unfolding take_over
rcu_lock c0 =
    let c1 = record c0 { lock_count = (c0.lock_count + 1) % 65536 } in
    let c = if c0.lock_count == 0 then take_over c1 else c1 in (active_page c, c)

-- `CalSegRcuUnlock`
unfoldable pub rcu_unlock : CalSeg → CalSeg
rcu_unlock c = record c { lock_count = (c.lock_count + 65535) % 65536 }

-- `CalSegRcuTryPublish`
unfoldable pub rcu_try_publish : CalSeg → Bool × CalSeg
unfolding copy_within
rcu_try_publish c =
    if c.free_page == xcp_calseg_no_page || c.free_page_hazard then (false, c) else (
      true,
      record c {
        free_page = xcp_calseg_no_page;
        b = copy_within c.free_page c.xcp_page c.size c.b;
        xcp_page = c.free_page;
        ecu_page_next = c.xcp_page;
      },
    )

-- `CalSegRcuIsUnlocked`
unfoldable pub rcu_is_unlocked : CalSeg → Bool
rcu_is_unlocked c = c.lock_count == 0
