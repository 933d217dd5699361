-- ===== src/Cal/Layout.antt =====
-- Well-formed calibration segments, src/cal.c: the pages of each, and their places in the pool.
use xcplite.Prelude.{
  ℕ, zero, suc, ◌+◌, ◌*◌, ◌%◌, ◌≤◌, ◌<◌, ◌≡◌, ◌≢◌, ◌⊎◌, inl, inr, refl, sym, ◌∙◌, subst, Bool, true,
  false, not, ◌==◌, ◌||◌, if_cases, arith, List,
}
use xcplite.Cal.{CalSeg, xcp_calseg_no_page}
use xcplite.Cal.Rcu.{take_over, rcu_lock, rcu_try_publish}
use xcplite.Cal.Access.{publish_within, cal_seg_publish, end_publish, write_page}
use xcplite.Cal.Threads.Inv.{IsPage}

-- The pages of a segment while no thread is in the middle of a lock: the third page is free, or it is
-- published.
pub record PagedAt (a size xcp ecu next free : ℕ) : Type 0 where
  pub third : ℕ
  pub fits : size ≤ a
  pub some_bytes : 0 < a
  pub small : 3 * a < xcp_calseg_no_page
  pub xcp_in : IsPage a xcp
  pub ecu_in : IsPage a ecu
  pub third_in : IsPage a third
  pub xcp_ne_ecu : xcp ≢ ecu
  pub xcp_ne_third : xcp ≢ third
  pub ecu_ne_third : ecu ≢ third
  pub role : ((free ≡ third) × (next ≡ ecu)) ⊎ ((free ≡ xcp_calseg_no_page) × (next ≡ third))

abbrev pub IsPaged : ℕ → CalSeg → Type 0
IsPaged a c = PagedAt a c.size c.xcp_page c.ecu_page c.ecu_page_next c.free_page

-- A segment keeps its pages and its size.
abbrev pub Keeps : (CalSeg → CalSeg) → Type 0
Keeps f = (a : ℕ) (c : CalSeg) → IsPaged a c → IsPaged a (f c) × ((f c).size ≡ c.size)

take_over-Keeps : Keeps take_over
unfolding take_over
take_over-Keeps a c v =
    if_cases (λ (c' : CalSeg). IsPaged a c' × (c'.size ≡ c.size)) (c.ecu_page == c.ecu_page_next)
      (λ h. (v, refl))
      (λ h. elim v.role [
        | inl (free, same) ↦ absurd (ground (arith, h, same))
        | inr (none_free, next) ↦ (
          record {
            third = c.ecu_page;
            fits = v.fits;
            some_bytes = v.some_bytes;
            small = v.small;
            xcp_in = v.xcp_in;
            ecu_in = subst (IsPage a) (sym next) v.third_in;
            third_in = v.ecu_in;
            xcp_ne_ecu = λ e. v.xcp_ne_third (e ∙ next);
            xcp_ne_third = v.xcp_ne_ecu;
            ecu_ne_third = λ e. v.ecu_ne_third (sym e ∙ next);
            role = inl (refl, refl);
          },
          refl,
        )
      ])

pub rcu_lock-Keeps : Keeps (λ c. (rcu_lock c).1)
unfolding rcu_lock
rcu_lock-Keeps a c v =
    let c1 = record c { lock_count = (c.lock_count + 1) % 65536 } in
    if_cases (λ (c' : CalSeg). IsPaged a c' × (c'.size ≡ c.size)) (c.lock_count == 0)
      (λ h. take_over-Keeps a c1 v) (λ h. (v, refl))

pub rcu_try_publish-Keeps : Keeps (λ c. (rcu_try_publish c).1)
unfolding rcu_try_publish
rcu_try_publish-Keeps a c v =
    if_cases (λ (o : Bool × CalSeg). IsPaged a o.1 × (o.1.size ≡ c.size))
      (c.free_page == xcp_calseg_no_page || c.free_page_hazard) (λ h. (v, refl))
      (λ h. elim v.role [
        | inl (free, same) ↦ (
          record {
            third = c.xcp_page;
            fits = v.fits;
            some_bytes = v.some_bytes;
            small = v.small;
            xcp_in = subst (IsPage a) (sym free) v.third_in;
            ecu_in = v.ecu_in;
            third_in = v.xcp_in;
            xcp_ne_ecu = λ e. v.ecu_ne_third (sym e ∙ free);
            xcp_ne_third = λ e. v.xcp_ne_third (sym e ∙ free);
            ecu_ne_third = λ e. v.xcp_ne_ecu (sym e);
            role = inr (refl, refl);
          },
          refl,
        )
        | inr (none_free, next) ↦ absurd (ground (arith, h, none_free))
      ])

module _ (readers : ℕ → CalSeg → CalSeg) (kept : (n : ℕ) → Keeps (readers n)) where
  publish_within-Keeps : (n : ℕ) → Keeps (λ c. (publish_within readers n c).1)
  unfolding publish_within
  publish_within-Keeps zero a c v = (v, refl)
  publish_within-Keeps (suc n) a c v =
      let r = kept n a c v in
      let t = rcu_try_publish-Keeps a (readers n c) r.0 in
      let later = publish_within-Keeps n a (rcu_try_publish (readers n c)).1 t.0 in
      if_cases (λ (o : Bool × CalSeg). IsPaged a o.1 × (o.1.size ≡ c.size))
        (rcu_try_publish (readers n c)).0 (λ h. (t.0, t.1 ∙ r.1))
        (λ h. (later.0, later.1 ∙ t.1 ∙ r.1))

  end_publish-Keeps :
      (wait : Bool) (a : ℕ) (c : CalSeg) (o : Bool × CalSeg)
      → IsPaged a o.1
      → o.1.size ≡ c.size
      → IsPaged a (end_publish readers wait o).1 × ((end_publish readers wait o).1.size ≡ c.size)
  unfolding end_publish
  end_publish-Keeps wait a c (true, c') v e = (v, e)
  end_publish-Keeps wait a c (false, c') v e = (v, e)

  pub cal_seg_publish-Keeps : (wait : Bool) → Keeps (λ c. (cal_seg_publish readers wait c).1)
  unfolding cal_seg_publish
  cal_seg_publish-Keeps wait a c v =
      let t = rcu_try_publish-Keeps a c v in
      let w = publish_within-Keeps 500 a (rcu_try_publish c).1 t.0 in
      if_cases (λ (o : ℕ × CalSeg). IsPaged a o.1 × (o.1.size ≡ c.size)) (not (rcu_try_publish c).0)
        (λ h.
          if_cases (λ (o : ℕ × CalSeg). IsPaged a o.1 × (o.1.size ≡ c.size)) wait
            (λ k.
              end_publish-Keeps wait a c (publish_within readers 500 (rcu_try_publish c).1) w.0
                (w.1 ∙ t.1))
            (λ k. end_publish-Keeps wait a c (false, (rcu_try_publish c).1) t.0 t.1))
        (λ h. end_publish-Keeps wait a c (true, (rcu_try_publish c).1) t.0 t.1)

  pub write_page-Keeps :
      (delayed : Bool) (offset : ℕ) (bytes : List ℕ)
      → Keeps (write_page readers delayed offset bytes)
  unfolding write_page
  write_page-Keeps delayed offset bytes a c v =
      if_cases (λ (c' : CalSeg). IsPaged a c' × (c'.size ≡ c.size)) delayed (λ h. (v, refl))
        (λ h. cal_seg_publish-Keeps false a _ v)
