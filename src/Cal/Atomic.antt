-- ===== src/Cal/Atomic.antt =====
-- Atomic calibration, src/cal.c: the writes between `XcpCalSegBeginAtomicTransaction` and
-- `XcpCalSegEndAtomicTransaction`, and what the threads that lock the segments get.
pub mod Hidden
pub mod Publish
use xcplite.Prelude.{
  ℕ, zero, suc, ◌+◌, ◌-◌, ◌≤◌, ◌<◌, ◌≡◌, ◌≢◌, ◌⊎◌, inl, inr, refl, sym, ◌∙◌, ap, subst, Bool, true,
  false, not, ◌==◌, ltb, leb, if◌then◌else◌, if_cases, Bool-cases, arith, List, [], ◌∷◌, length,
}
use xcplite.Memory.{Bytes}
use xcplite.Config.{crc_cmd_ok}
use xcplite.Daq.Address.{decode_seg_number, decode_seg_offset}
use xcplite.Mta.{write_bytes}
use xcplite.Cal.{
  CalSeg, CalSegList, xcp_calseg_no_page, xcp_calpage_working_page, aligned_page_size, copy_within,
  set_calseg, get_cal_seg_count,
}
use xcplite.Cal.Rcu.{take_over, rcu_lock, rcu_try_publish}
use xcplite.Cal.Access.{
  publish_within, cal_seg_publish, end_publish, publish_from, cal_seg_publish_all,
  begin_atomic_transaction, end_atomic_transaction, write_page, cal_seg_write_memory,
}
use xcplite.Cal.Threads.{WritesOnly}
use xcplite.Cal.Threads.Inv.{IsPage}
use xcplite.Cal.Threads.Safety.{pages_apart}
use xcplite.Cal.Layout.{IsPaged}
use xcplite.Cal.Lists.{IsWf}
use xcplite.Cal.Atomic.Hidden.{Drafts, shown, shown-Drafts, write_all, write_all-Drafts}
use xcplite.Cal.Atomic.Publish.{shown-publish, publish_from-at}

module _ (readers : ℕ → CalSeg → CalSeg) where
  Drafts-IsPaged : (a : ℕ) {c c' : CalSeg} → Drafts c c' → IsPaged a c → IsPaged a c'
  Drafts-IsPaged a d v = subst (IsPaged a) (sym d.same) v

  -- Between the begin and the end of a transaction on well-formed segments no write, whatever is written
  -- and in whatever order, changes a byte that a thread gets from a lock of a segment, be it locked or
  -- not, on the working page or on the default page.
  pub write_all-shown :
      (writes : List (ℕ × List ℕ)) (l : CalSegList) (j k : ℕ)
      → IsWf l
      → j < l.count
      → k < (l.calsegs j).size
      → shown k ((write_all readers writes (begin_atomic_transaction readers l)).calsegs j)
        ≡ shown k (l.calsegs j)
  unfolding begin_atomic_transaction
  write_all-shown writes l j k v lt h =
      shown-Drafts (aligned_page_size (l.calsegs j).size) k (v.paged j lt) h
        ((write_all-Drafts readers writes (begin_atomic_transaction readers l) refl).each j)

  -- The end of a transaction publishes each segment but the EPK segment 0 that is changed and
  -- unlocked, has its working page active and a free page without a hazard: the next lock then gets
  -- the bytes that the server's page held.
  pub transaction-shown :
      (writes : List (ℕ × List ℕ)) (l : CalSegList) (i k : ℕ)
      → IsWf l
      → 0 < i
      → i < l.count
      → k < (l.calsegs i).size
      → (l.calsegs i).lock_count ≡ 0
      → (l.calsegs i).ecu_access ≡ xcp_calpage_working_page
      → (l.calsegs i).free_page ≢ xcp_calseg_no_page
      → (l.calsegs i).free_page_hazard ≡ false
      → let l' = write_all readers writes (begin_atomic_transaction readers l) in
        (l'.calsegs i).write_pending ≡ true
        → shown k ((end_atomic_transaction readers l').1.calsegs i)
          ≡ (l'.calsegs i).b ((l'.calsegs i).xcp_page + k)
  unfolding begin_atomic_transaction end_atomic_transaction cal_seg_publish_all
  transaction-shown writes l i k v pos lt h no_lock working free safe pending =
      let l' = write_all readers writes (begin_atomic_transaction readers l) in
      let d = write_all-Drafts readers writes (begin_atomic_transaction readers l) refl in
      let c = l.calsegs i in
      let same = (d.each i).same in
      ap (shown k) (
        publish_from-at readers true (get_cal_seg_count l' - 1) 1 crc_cmd_ok i _
          (omega (arith, pos)) (ground (arith, d.same_count, v.active, lt, pos)) pending)
      ∙ shown-publish readers (aligned_page_size c.size) true (l'.calsegs i) k
          (Drafts-IsPaged (aligned_page_size c.size) (d.each i) (v.paged i lt))
          (ap (λ (x : CalSeg). x.lock_count) same ∙ no_lock)
          (ap (λ (x : CalSeg). x.ecu_access) same ∙ working)
          (λ e. free (sym (ap (λ (x : CalSeg). x.free_page) same) ∙ e))
          (ap (λ (x : CalSeg). x.free_page_hazard) same ∙ safe)
          (subst (λ n. k < n) (sym (ap (λ (x : CalSeg). x.size) same)) h)
