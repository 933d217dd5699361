-- ===== src/Cal/Atomic/Publish.antt =====
-- What `XcpCalSegPublishAll` publishes, src/cal.c.
use xcplite.Prelude.{
  ℕ, zero, suc, ◌+◌, ◌≤◌, ◌<◌, ◌≡◌, ◌≢◌, inl, inr, refl, sym, ◌∙◌, ap, subst, Bool, true, false,
  not, ◌==◌, if◌then◌else◌, if_cases, Bool-cases, arith,
}
use xcplite.Cal.{
  CalSeg, CalSegList, xcp_calseg_no_page, xcp_calpage_working_page, copy_within, set_calseg,
}
use xcplite.Cal.Rcu.{take_over, rcu_lock, rcu_try_publish}
use xcplite.Cal.Access.{publish_within, cal_seg_publish, end_publish, publish_from}
use xcplite.Cal.Threads.Inv.{IsPage}
use xcplite.Cal.Threads.Safety.{pages_apart}
use xcplite.Cal.Layout.{IsPaged}
use xcplite.Cal.Atomic.Hidden.{shown}

module _ (readers : ℕ → CalSeg → CalSeg) where
  -- what a publication makes of a segment with a free page
  abbrev published : CalSeg → CalSeg
  published c = record c {
    free_page = xcp_calseg_no_page;
    b = copy_within c.free_page c.xcp_page c.size c.b;
    xcp_page = c.free_page;
    ecu_page_next = c.xcp_page;
  }

  try_publish-free :
      (c : CalSeg)
      → c.free_page ≢ xcp_calseg_no_page
      → c.free_page_hazard ≡ false
      → rcu_try_publish c ≡ (true, published c)
  unfolding rcu_try_publish
  try_publish-free c free safe = ground arith

  publish-free :
      (wait : Bool) (c : CalSeg)
      → c.free_page ≢ xcp_calseg_no_page
      → c.free_page_hazard ≡ false
      → (cal_seg_publish readers wait c).1 ≡ record (published c) { write_pending = false }
  unfolding cal_seg_publish end_publish
  publish-free wait c free safe =
      ap
        (λ (o : Bool × CalSeg).
          (if not o.0
            then if wait
              then end_publish readers wait (publish_within readers 500 o.1)
              else end_publish readers wait (false, o.1)
            else end_publish readers wait (true, o.1)).1)
        (try_publish-free c free safe)

  pub shown-publish :
      (a : ℕ) (wait : Bool) (c : CalSeg) (k : ℕ)
      → IsPaged a c
      → c.lock_count ≡ 0
      → c.ecu_access ≡ xcp_calpage_working_page
      → c.free_page ≢ xcp_calseg_no_page
      → c.free_page_hazard ≡ false
      → k < c.size
      → shown k (cal_seg_publish readers wait c).1 ≡ c.b (c.xcp_page + k)
  unfolding rcu_lock take_over copy_within
  shown-publish a wait c k v no_lock working free safe h = elim v.role [
    | inl (third, next) ↦
        let apart =
          pages_apart a c.xcp_page c.free_page k c.size v.xcp_in
            (subst (IsPage a) (sym third) v.third_in) (λ e. v.xcp_ne_third (e ∙ third)) v.fits h in
        ap (shown k) (publish-free wait c free safe) ∙ ground (arith, apart)
    | inr (none_free, next) ↦ absurd (free none_free)
  ]

  -- one round of the loop of XcpCalSegPublishAll
  abbrev round : Bool → ℕ → CalSegList → CalSegList
  round wait j l =
      if (l.calsegs j).write_pending
      then set_calseg j (cal_seg_publish readers wait (l.calsegs j)).1 l
      else l

  round-other :
      (wait : Bool) (i j : ℕ) (l : CalSegList) → i ≢ j → (round wait j l).calsegs i ≡ l.calsegs i
  unfolding set_calseg
  round-other wait i j l ne =
      if_cases (λ (l' : CalSegList). l'.calsegs i ≡ l.calsegs i) (l.calsegs j).write_pending
        (λ h.
          if_cases (λ (c : CalSeg). c ≡ l.calsegs i) (i == j) (λ e. absurd (ne (ground (arith, e))))
            (λ e. refl))
        (λ h. refl)

  round-same :
      (wait : Bool) (j : ℕ) (l : CalSegList)
      → (l.calsegs j).write_pending ≡ true
      → (round wait j l).calsegs j ≡ (cal_seg_publish readers wait (l.calsegs j)).1
  unfolding set_calseg
  round-same wait j l pending =
      if_cases (λ (l' : CalSegList). l'.calsegs j ≡ (cal_seg_publish readers wait (l.calsegs j)).1)
        (l.calsegs j).write_pending
        (λ h.
          if_cases (λ (c : CalSeg). c ≡ (cal_seg_publish readers wait (l.calsegs j)).1) (j == j)
            (λ e. refl) (λ e. absurd (ground (arith, e))))
        (λ h. absurd (ground (arith, pending, h)))

  -- the loop leaves the segments before it
  publish_from-before :
      (wait : Bool) (n j res i : ℕ) (l : CalSegList)
      → i < j
      → (publish_from readers wait n j res l).1.calsegs i ≡ l.calsegs i
  unfolding publish_from
  publish_from-before wait zero j res i l h = refl
  publish_from-before wait (suc n) j res i l h =
      publish_from-before wait n (j + 1) _ i (round wait j l) (omega (arith, h))
      ∙ round-other wait i j l (λ e. absurd (omega (arith, h, e)))

  -- and publishes each pending one in its range
  pub publish_from-at :
      (wait : Bool) (n j res i : ℕ) (l : CalSegList)
      → j ≤ i
      → i < j + n
      → (l.calsegs i).write_pending ≡ true
      → (publish_from readers wait n j res l).1.calsegs i
        ≡ (cal_seg_publish readers wait (l.calsegs i)).1
  unfolding publish_from
  publish_from-at wait zero j res i l h k pending = absurd (omega (arith, h, k))
  publish_from-at wait (suc n) j res i l h k pending = elim (Bool-cases (i == j)) [
    | inl same ↦
        let e : i ≡ j = ground (arith, same) in
        publish_from-before wait n (j + 1) _ i (round wait j l) (omega (arith, e))
        ∙ subst (λ m. (round wait m l).calsegs i ≡ (cal_seg_publish readers wait (l.calsegs i)).1) e
            (round-same wait i l pending)
    | inr other ↦
        let at = round-other wait i j l (λ e. absurd (ground (arith, e, other))) in
        publish_from-at wait n (j + 1) _ i (round wait j l) (ground (arith, h, other))
          (omega (arith, k)) (ap (λ (c : CalSeg). c.write_pending) at ∙ pending)
        ∙ ap (λ (c : CalSeg). (cal_seg_publish readers wait c).1) at
  ]
