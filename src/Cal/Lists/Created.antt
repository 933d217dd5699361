-- ===== src/Cal/Lists/Created.antt =====
-- The creation of a segment leaves the list well-formed, src/cal.c.
use xcplite.Prelude.{
  ℕ, ◌≤◌, ◌<◌, refl, Bool, true, not, ◌==◌, bit_and, if◌then◌else◌, if_cases, List, Option, none,
  some,
}
use xcplite.Memory.{Bytes}
use xcplite.Cal.{CalSegList, xcp_undefined_calseg, find_cal_seg}
use xcplite.Cal.Create.{
  PageSource, from_memory, check_cal_seg, check_created, check_made, create_cal_seg_,
  create_cal_seg, finish_preloaded,
}
use xcplite.Cal.Lists.{IsWf, Returns}
use xcplite.Cal.Lists.Made.{set_calseg-IsWf, new_cal_seg-IsWf}

pub check_cal_seg-IsWf :
    (page_size i : ℕ) (l : CalSegList) → IsWf l → IsWf (check_cal_seg page_size i l).1
unfolding check_cal_seg
check_cal_seg-IsWf page_size i l v =
    if_cases (λ (o : ℕ × CalSegList). IsWf o.1) (not (page_size == (l.calsegs i).size)) (λ h. v)
      (λ h.
        if_cases (λ (o : ℕ × CalSegList). IsWf o.1) (not (bit_and (l.calsegs i).mode 2 == 0))
          (λ k. set_calseg-IsWf (λ c. record c { mode = 0 }) (λ a c w. (w, refl)) i l v) (λ k. v))

pub check_made-IsWf :
    (page_size : ℕ) (o : Option (ℕ × CalSegList))
    → Returns IsWf o
    → Returns IsWf (check_made page_size o)
unfolding check_made check_created
check_made-IsWf page_size none v = tt
check_made-IsWf page_size (some (i, l)) v =
    if_cases (λ (o : ℕ × CalSegList). IsWf o.1) (i == xcp_undefined_calseg) (λ h. v)
      (λ h. check_cal_seg-IsWf page_size i l v)

pub create_cal_seg_-IsWf :
    (name : List ℕ) (lookup : Bool) (source : PageSource) (page_size : ℕ) (memory_segment : Bool)
    (l : CalSegList)
    → 0 < page_size
    → page_size ≤ 65528
    → IsWf l
    → Returns IsWf (create_cal_seg_ name lookup source page_size memory_segment l)
unfolding create_cal_seg_
create_cal_seg_-IsWf name lookup source page_size memory_segment l pos small v =
    let found = if lookup then find_cal_seg name l else xcp_undefined_calseg in
    if_cases (Returns IsWf) (found == xcp_undefined_calseg)
      (λ h.
        check_made-IsWf page_size _
          (new_cal_seg-IsWf name source page_size memory_segment l pos small v))
      (λ h. check_cal_seg-IsWf page_size found l v)

pub create_cal_seg-IsWf :
    (name : List ℕ) (default_page : Bytes) (page_size : ℕ) (memory_segment : Bool) (l : CalSegList)
    → 0 < page_size
    → page_size ≤ 65528
    → IsWf l
    → Returns IsWf (create_cal_seg name default_page page_size memory_segment l)
unfolding create_cal_seg
create_cal_seg-IsWf name default_page page_size memory_segment l pos small v =
    if_cases (Returns IsWf) (not l.activated) (λ h. v)
      (λ h.
        create_cal_seg_-IsWf name true (from_memory default_page) page_size memory_segment l pos
          small v)

pub finish_preloaded-IsWf :
    (app_id index number file_pos : ℕ) (o : Option (ℕ × CalSegList))
    → Returns IsWf o
    → Returns IsWf (finish_preloaded app_id index number file_pos o)
unfolding finish_preloaded
finish_preloaded-IsWf app_id index number file_pos none v = tt
finish_preloaded-IsWf app_id index number file_pos (some (i, l)) v =
    if_cases (Returns IsWf) (not (i == index)) (λ h. v)
      (λ h.
        if_cases (Returns IsWf) (not ((l.calsegs i).calseg_number == number)) (λ k. v)
          (λ k.
            set_calseg-IsWf (λ c. record c { mode = 2; file_pos = file_pos; app_id = app_id })
              (λ a c w. (w, refl)) i l v))
