-- ===== src/Cal/Lists/Kept.antt =====
-- Every operation on the calibration segments leaves the list well-formed, src/cal.c.
use xcplite.Prelude.{
  ℕ, zero, suc, ◌+◌, ◌-◌, ◌≤◌, ◌<◌, ◌≡◌, refl, Bool, true, false, not, ◌==◌, ltb, leb, bit_and,
  bit_or, subst, if◌then◌else◌, if_cases, arith, List, length, some,
}
use xcplite.Memory.{Bytes}
use xcplite.Daq.Address.{decode_seg_number, decode_seg_offset, encode_seg_number}
use xcplite.Mta.{read_bytes}
use xcplite.Cal.{
  CalSeg, CalSegList, xcp_undefined_calseg, xcp_undefined_calseg_num, init_cal_seg_list,
  get_cal_seg_count, get_cal_seg_index,
}
use xcplite.Cal.Rcu.{rcu_lock, rcu_unlock}
use xcplite.Cal.Create.{from_file, create_cal_seg, create_cal_seg_preloaded}
use xcplite.Cal.Access.{
  lock_cal_seg, unlock_cal_seg, cal_seg_publish, publish_from, cal_seg_publish_all,
  begin_atomic_transaction, end_atomic_transaction, write_page, cal_seg_write_memory,
}
use xcplite.Cal.Pages.{
  has_mode, set_access, set_access_from, set_cal_page, copy_cal_page, set_cal_seg_mode, reset_from,
  reset_all_cal_segs,
}
use xcplite.Cal.Layout.{IsPaged, Keeps, rcu_lock-Keeps, cal_seg_publish-Keeps, write_page-Keeps}
use xcplite.Cal.Lists.{IsWf, Returns}
use xcplite.Cal.Lists.Made.{set_calseg-IsWf}
use xcplite.Cal.Lists.Created.{create_cal_seg_-IsWf, create_cal_seg-IsWf, finish_preloaded-IsWf}

set_access-Keeps : (page mode : ℕ) → Keeps (set_access page mode)
unfolding set_access
set_access-Keeps page mode a c v =
    let first = if has_mode 1 mode then record c { ecu_access = page } else c in
    let kept : IsPaged a first × (first.size ≡ c.size) =
      if_cases (λ (c' : CalSeg). IsPaged a c' × (c'.size ≡ c.size)) (has_mode 1 mode)
        (λ h. (v, refl)) (λ h. (v, refl)) in
    if_cases (λ (c' : CalSeg). IsPaged a c' × (c'.size ≡ c.size)) (has_mode 2 mode) (λ h. kept)
      (λ h. kept)

set_access_from-IsWf :
    (page mode n i : ℕ) (l : CalSegList) → IsWf l → IsWf (set_access_from page mode n i l)
unfolding set_access_from
set_access_from-IsWf page mode zero i l v = v
set_access_from-IsWf page mode (suc n) i l v =
    set_access_from-IsWf page mode n (i + 1) _
      (set_calseg-IsWf (set_access page mode) (set_access-Keeps page mode) i l v)

set_cal_page-IsWf :
    (segment page mode : ℕ) (l : CalSegList) → IsWf l → IsWf (set_cal_page segment page mode l).1
unfolding set_cal_page
set_cal_page-IsWf segment page mode l v =
    let i = get_cal_seg_index segment l in
    if_cases (λ (o : ℕ × CalSegList). IsWf o.1) (i == xcp_undefined_calseg) (λ h. v)
      (λ h.
        if_cases (λ (o : ℕ × CalSegList). IsWf o.1) (ltb 1 page) (λ k. v)
          (λ k.
            if_cases (λ (o : ℕ × CalSegList). IsWf o.1) (has_mode 0x80 mode)
              (λ m. set_access_from-IsWf page mode (get_cal_seg_count l) 0 l v)
              (λ m. set_calseg-IsWf (set_access page mode) (set_access-Keeps page mode) i l v)))

reset_from-IsWf : (n i : ℕ) (l : CalSegList) → IsWf l → IsWf (reset_from n i l)
unfolding reset_from
reset_from-IsWf zero i l v = v
reset_from-IsWf (suc n) i l v =
    reset_from-IsWf n (i + 1) _
      (set_calseg-IsWf (λ c. record c { ecu_access = 1 }) (λ a c w. (w, refl)) i l v)

set_cal_seg_mode-IsWf :
    (segment mode : ℕ) (l : CalSegList) → IsWf l → IsWf (set_cal_seg_mode segment mode l).1
unfolding set_cal_seg_mode
set_cal_seg_mode-IsWf segment mode l v =
    let i = get_cal_seg_index segment l in
    if_cases (λ (o : ℕ × CalSegList). IsWf o.1) (i == xcp_undefined_calseg) (λ h. v)
      (λ h.
        set_calseg-IsWf
          (λ c. record c {
            mode = if bit_and mode 1 == 0 then bit_and c.mode 0xfe else bit_or c.mode 1;
          })
          (λ a c w. (w, refl)) i l v)

module _ (readers : ℕ → CalSeg → CalSeg) (kept : (n : ℕ) → Keeps (readers n)) where
  publish_from-IsWf :
      (wait : Bool) (n i res : ℕ) (l : CalSegList)
      → IsWf l
      → IsWf (publish_from readers wait n i res l).1
  unfolding publish_from
  publish_from-IsWf wait zero i res l v = v
  publish_from-IsWf wait (suc n) i res l v = publish_from-IsWf wait n (i + 1) _ _ (
      if_cases IsWf (l.calsegs i).write_pending
        (λ h.
          set_calseg-IsWf (λ c. (cal_seg_publish readers wait c).1)
            (cal_seg_publish-Keeps readers kept wait) i l v)
        (λ h. v))

  cal_seg_publish_all-IsWf :
      (wait : Bool) (l : CalSegList) → IsWf l → IsWf (cal_seg_publish_all readers wait l).1
  unfolding cal_seg_publish_all
  cal_seg_publish_all-IsWf wait l v =
      if_cases (λ (o : ℕ × CalSegList). IsWf o.1) l.write_delayed (λ h. v)
        (λ h. publish_from-IsWf wait (get_cal_seg_count l - 1) 1 0 l v)

  cal_seg_write_memory-IsWf :
      (dst : ℕ) (src : List ℕ) (l : CalSegList)
      → IsWf l
      → IsWf (cal_seg_write_memory readers dst src l).1
  unfolding cal_seg_write_memory
  cal_seg_write_memory-IsWf dst src l v =
      let i = decode_seg_number dst in
      let offset = decode_seg_offset dst in
      if_cases (λ (o : ℕ × CalSegList). IsWf o.1) (leb (get_cal_seg_count l) i) (λ h. v)
        (λ h.
          if_cases (λ (o : ℕ × CalSegList). IsWf o.1) (ltb (l.calsegs i).size (offset + length src))
            (λ k. v)
            (λ k.
              if_cases (λ (o : ℕ × CalSegList). IsWf o.1) (not ((l.calsegs i).xcp_access == 0))
                (λ m. v)
                (λ m.
                  set_calseg-IsWf (write_page readers l.write_delayed offset src)
                    (write_page-Keeps readers kept l.write_delayed offset src) i l v)))

  copy_cal_page-IsWf :
      (src_seg src_page dst_seg dst_page : ℕ) (l : CalSegList)
      → IsWf l
      → IsWf (copy_cal_page readers src_seg src_page dst_seg dst_page l).1
  unfolding copy_cal_page
  copy_cal_page-IsWf src_seg src_page dst_seg dst_page l v =
      if_cases (λ (o : ℕ × CalSegList). IsWf o.1) _ (λ h. v)
        (λ h.
          let i = get_cal_seg_index dst_seg l in
          let c = l.calsegs i in
          cal_seg_write_memory-IsWf (encode_seg_number i 0) (read_bytes c.b 0 c.size) l v)

  -- An operation on the segments that returns. The uint16_t sizes above 65528 are left out, and empty
  -- segments.
  pub data Step (l : CalSegList) : CalSegList → Type 0 where
    create :
        {i : ℕ} {l' : CalSegList} (name : List ℕ) (default_page : Bytes) (page_size : ℕ)
        (memory_segment : Bool)
        → 0 < page_size
        → page_size ≤ 65528
        → create_cal_seg name default_page page_size memory_segment l ≡ some (i, l')
        → Step l l'
    preload :
        {i : ℕ} {l' : CalSegList} (name : List ℕ) (app_id page_size index number : ℕ)
        (file : List ℕ) (file_pos : ℕ)
        → 0 < page_size
        → page_size ≤ 65528
        → create_cal_seg_preloaded name app_id page_size index number file file_pos l ≡ some (i, l')
        → Step l l'
    lock : (i : ℕ) → Step l (lock_cal_seg i l).1
    unlock : (i : ℕ) → Step l (unlock_cal_seg i l)
    write_memory : (dst : ℕ) (src : List ℕ) → Step l (cal_seg_write_memory readers dst src l).1
    publish_all : (wait : Bool) → Step l (cal_seg_publish_all readers wait l).1
    begin_atomic : Step l (begin_atomic_transaction readers l)
    end_atomic : Step l (end_atomic_transaction readers l).1
    set_page : (segment page mode : ℕ) → Step l (set_cal_page segment page mode l).1
    copy_page :
        (src_seg src_page dst_seg dst_page : ℕ)
        → Step l (copy_cal_page readers src_seg src_page dst_seg dst_page l).1
    set_mode : (segment mode : ℕ) → Step l (set_cal_seg_mode segment mode l).1
    reset_all : Step l (reset_all_cal_segs l)

  delayed-IsWf : (b : Bool) (l : CalSegList) → IsWf l → IsWf (record l { write_delayed = b })
  delayed-IsWf b l v = record {
    active = v.active;
    few = v.few;
    numbered = v.numbered;
    used = v.used;
    placed = v.placed;
    apart = v.apart;
    paged = v.paged;
  }

  Step-IsWf : {l l' : CalSegList} → Step l l' → IsWf l → IsWf l'
  unfolding lock_cal_seg unlock_cal_seg rcu_unlock begin_atomic_transaction end_atomic_transaction
      reset_all_cal_segs create_cal_seg_preloaded
  Step-IsWf {l} (create name default_page page_size memory_segment pos small e) v =
      subst (Returns IsWf) e
        (create_cal_seg-IsWf name default_page page_size memory_segment l pos small v)
  Step-IsWf {l} (preload name app_id page_size index number file file_pos pos small e) v =
      subst (Returns IsWf) e (
        finish_preloaded-IsWf app_id index number file_pos _ (
          create_cal_seg_-IsWf name false (from_file file) page_size
            (not (number == xcp_undefined_calseg_num)) l pos small v))
  Step-IsWf {l} (lock i) v = set_calseg-IsWf (λ c. (rcu_lock c).1) rcu_lock-Keeps i l v
  Step-IsWf {l} (unlock i) v = set_calseg-IsWf rcu_unlock (λ a c w. (w, refl)) i l v
  Step-IsWf {l} (write_memory dst src) v = cal_seg_write_memory-IsWf dst src l v
  Step-IsWf {l} (publish_all wait) v = cal_seg_publish_all-IsWf wait l v
  Step-IsWf {l} begin_atomic v = delayed-IsWf true l v
  Step-IsWf {l} end_atomic v =
      cal_seg_publish_all-IsWf true (record l { write_delayed = false }) (delayed-IsWf false l v)
  Step-IsWf {l} (set_page segment page mode) v = set_cal_page-IsWf segment page mode l v
  Step-IsWf {l} (copy_page src_seg src_page dst_seg dst_page) v =
      copy_cal_page-IsWf src_seg src_page dst_seg dst_page l v
  Step-IsWf {l} (set_mode segment mode) v = set_cal_seg_mode-IsWf segment mode l v
  Step-IsWf {l} reset_all v = reset_from-IsWf (get_cal_seg_count l - 1) 1 l v

  pub data Steps (l : CalSegList) : CalSegList → Type 0 where
    none_yet : Steps l l
    and_then : {l' l'' : CalSegList} → Steps l l' → Step l' l'' → Steps l l''

  init_cal_seg_list-IsWf : (l : CalSegList) → l.activated ≡ true → IsWf (init_cal_seg_list l)
  unfolding init_cal_seg_list
  init_cal_seg_list-IsWf l h = record {
    active = h;
    few = omega arith;
    numbered = omega arith;
    used = omega arith;
    placed = λ i p. absurd (omega (arith, p));
    apart = λ i j p q. absurd (omega (arith, q));
    paged = λ i p. absurd (omega (arith, p));
  }

  -- From XcpInitCalSegList on an activated server, every sequence of the operations on the calibration
  -- segments, with sizes from 1 to 65528, leaves them well-formed: at most 7 segments, apart from
  -- each other in the pool and within it, each with three different working pages of its aligned size.
  -- The threads that run while the server waits are to keep the pages of a segment.
  pub init_cal_seg_list-Steps-IsWf :
      (l : CalSegList) {l' : CalSegList}
      → l.activated ≡ true
      → Steps (init_cal_seg_list l) l'
      → IsWf l'
  init_cal_seg_list-Steps-IsWf l h none_yet = init_cal_seg_list-IsWf l h
  init_cal_seg_list-Steps-IsWf l h (and_then steps step) =
      Step-IsWf step (init_cal_seg_list-Steps-IsWf l h steps)
