-- ===== src/Cal/Visible.antt =====
-- When a change of the server becomes visible to the threads, src/cal.c: the cycles of a thread that
-- locks and unlocks a segment, each followed by the publication of pending changes, as
-- `XcpBackgroundTasks` makes it.
use xcplite.Prelude.{
  ℕ, ◌+◌, ◌*◌, ◌≤◌, ◌<◌, ◌≡◌, ◌≢◌, inl, inr, refl, sym, ◌∙◌, subst, true, false, if◌then◌else◌,
  arith,
}
use xcplite.Cal.{CalSeg, xcp_calseg_no_page, xcp_calpage_working_page, copy_within}
use xcplite.Cal.Rcu.{take_over, rcu_lock, rcu_unlock, rcu_try_publish}
use xcplite.Cal.Layout.{IsPaged}
use xcplite.Cal.Access.{cal_seg_publish, end_publish}
use xcplite.Memory.{Bytes}
use xcplite.Cal.Threads.Inv.{IsPage}
use xcplite.Cal.Threads.Safety.{pages_apart}

module _ (readers : ℕ → CalSeg → CalSeg) where
  -- a lock and its unlock, and the publication if changes are pending
  unfoldable pub cycle : CalSeg → CalSeg
  unfolding rcu_lock rcu_unlock cal_seg_publish
  cycle c0 =
      let c = rcu_unlock (rcu_lock c0).1 in
      if c.write_pending then (cal_seg_publish readers false c).1 else c

  -- what a cycle makes of a segment with a free page and pending changes
  abbrev published : CalSeg → CalSeg
  published c = record c {
    lock_count = 0;
    free_page_hazard = false;
    free_page = xcp_calseg_no_page;
    b = copy_within c.free_page c.xcp_page c.size c.b;
    xcp_page = c.free_page;
    ecu_page_next = c.xcp_page;
    write_pending = false;
  }

  -- what a cycle makes of a segment with a published page
  abbrev handed_over : CalSeg → CalSeg
  handed_over c = record c {
    lock_count = 0;
    free_page_hazard = true;
    ecu_page = c.ecu_page_next;
    free_page = c.ecu_page;
  }

  cycle-published :
      (c : CalSeg)
      → c.lock_count ≡ 0
      → c.ecu_page_next ≡ c.ecu_page
      → c.free_page ≢ xcp_calseg_no_page
      → c.write_pending ≡ true
      → cycle c ≡ published c
  unfolding cycle rcu_lock rcu_unlock take_over cal_seg_publish rcu_try_publish end_publish
  cycle-published c no_lock same free pending = ground arith

  cycle-handed_over :
      (c : CalSeg)
      → c.lock_count ≡ 0
      → c.ecu_page_next ≢ c.ecu_page
      → c.ecu_page ≢ xcp_calseg_no_page
      → cycle c ≡ handed_over c
  unfolding cycle rcu_lock rcu_unlock take_over cal_seg_publish rcu_try_publish end_publish
  cycle-handed_over c no_lock other page = ground arith

  -- a lock gets the page that is to be active next
  lock-next :
      (c : CalSeg)
      → c.lock_count ≡ 0
      → c.ecu_access ≡ xcp_calpage_working_page
      → ((rcu_lock c).0 ≡ c.ecu_page_next)
        × ((rcu_lock c).1.b ≡ c.b)
        × ((rcu_lock c).1.xcp_page ≡ c.xcp_page)
  unfolding rcu_lock take_over
  lock-next c no_lock working = (ground arith, ground arith, ground arith)

  copied-still :
      (a to from k size : ℕ) (b : Bytes)
      → IsPage a to
      → IsPage a from
      → from ≢ to
      → size ≤ a
      → k < size
      → (copy_within to from size b (from + k) ≡ b (from + k))
        × (copy_within to from size b (to + k) ≡ b (from + k))
  unfolding copy_within
  copied-still a to from k size b in_to in_from ne fits h =
      (ground (arith, pages_apart a from to k size in_from in_to ne fits h), ground arith)

  -- What the two cycles and the lock leave, by what they leave before the lock.
  abbrev Shows : CalSeg → CalSeg → Type 0
  Shows c c' =
      let (p, c'') = rcu_lock c' in
      (c'.write_pending ≡ false)
      × ((k : ℕ)
          → k < c.size
          → (c''.b (p + k) ≡ c.b (c.xcp_page + k))
            × (c''.b (c''.xcp_page + k) ≡ c.b (c.xcp_page + k)))

  shows :
      (a to : ℕ) (c c' : CalSeg)
      → IsPage a to
      → IsPage a c.xcp_page
      → c.xcp_page ≢ to
      → c.size ≤ a
      → c'.write_pending ≡ false
      → c'.lock_count ≡ 0
      → c'.ecu_access ≡ xcp_calpage_working_page
      → c'.ecu_page_next ≡ c.xcp_page
      → c'.xcp_page ≡ to
      → c'.b ≡ copy_within to c.xcp_page c.size c.b
      → Shows c c'
  shows a to c c' in_to in_xcp ne fits done no_lock working next xcp b =
      let l = lock-next c' no_lock working in
      (
        done,
        λ k h.
            let s = copied-still a to c.xcp_page k c.size c.b in_to in_xcp ne fits h in
            (rw (l.0, l.1, next, b) s.0, rw (l.1, l.2, xcp, b) s.1),
      )

  -- Changes that are pending on an unlocked segment whose working page is active are published after
  -- two cycles of lock, unlock and publication; the next lock then gets a page with the bytes that
  -- the server's page had, and the server's page still holds them.
  pub cycle-cycle-lock :
      (a : ℕ) (c : CalSeg)
      → IsPaged a c
      → c.lock_count ≡ 0
      → c.ecu_access ≡ xcp_calpage_working_page
      → c.write_pending ≡ true
      → let c' = cycle (cycle c) in
        let (p, c'') = rcu_lock c' in
        (c'.write_pending ≡ false)
        × ((k : ℕ)
            → k < c.size
            → (c''.b (p + k) ≡ c.b (c.xcp_page + k))
              × (c''.b (c''.xcp_page + k) ≡ c.b (c.xcp_page + k)))
  cycle-cycle-lock a c v no_lock working pending = elim v.role [
    | inl (free, same) ↦
        let free_page : c.free_page ≢ xcp_calseg_no_page =
          λ e. is_page a v.third v.small v.third_in (sym free ∙ e) in
        let first = cycle-published c no_lock same free_page pending in
        let second =
          cycle-handed_over (published c) refl (λ e. v.xcp_ne_ecu e)
            (λ e. is_page a c.ecu_page v.small v.ecu_in e) in
        rw (first, second)
          (shows a c.free_page c (handed_over (published c))
            (subst (IsPage a) (sym free) v.third_in) v.xcp_in (λ e. v.xcp_ne_third (e ∙ free))
            v.fits refl refl working refl refl refl)
    | inr (none_free, next) ↦
        let first =
          cycle-handed_over c no_lock (λ e. v.ecu_ne_third (sym e ∙ next))
            (λ e. is_page a c.ecu_page v.small v.ecu_in e) in
        let second =
          cycle-published (handed_over c) refl refl (λ e. is_page a c.ecu_page v.small v.ecu_in e)
            pending in
        rw (first, second)
          (shows a c.ecu_page c (published (handed_over c)) v.ecu_in v.xcp_in v.xcp_ne_ecu v.fits
            refl refl working refl refl refl)
  ]
    where
      is_page : (a p : ℕ) → 3 * a < xcp_calseg_no_page → IsPage a p → p ≢ xcp_calseg_no_page
      is_page a p small in_p e = absurd (ground (arith, small, in_p, e))
