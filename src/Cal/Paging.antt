-- ===== src/Cal/Paging.antt =====
-- The active pages of the calibration segments, src/cal.c: what `XcpCalSegSetCalPage` sets and
-- `XcpCalSegGetCalPage` gets.
use xcplite.Prelude.{
  ℕ, zero, suc, ◌+◌, ◌≤◌, ◌<◌, ◌≡◌, ◌⊎◌, inl, inr, refl, sym, ◌∙◌, ap, Bool, false, ◌==◌, ◌||◌,
  ◌&&◌, ltb, leb, if◌then◌else◌, if_cases, arith,
}
use xcplite.Config.{crc_cmd_ok, crc_access_denied}
use xcplite.Cal.{
  CalSeg, CalSegList, xcp_undefined_calseg, set_calseg, first_calseg, get_cal_seg_count,
  get_cal_seg_index,
}
use xcplite.Cal.Pages.{has_mode, get_cal_page, set_access, set_access_from, set_cal_page}

-- The search gives an index in its range, or none.
first_calseg-found :
    (test : CalSeg → Bool) (n i : ℕ) (l : CalSegList)
    → (first_calseg test n i l ≡ xcp_undefined_calseg)
      ⊎ ((i ≤ first_calseg test n i l) × (first_calseg test n i l < i + n))
unfolding first_calseg
first_calseg-found test zero i l = inl refl
first_calseg-found test (suc n) i l = ground (arith, first_calseg-found test n (i + 1) l)

-- It depends on the tests only.
first_calseg-same :
    (test : CalSeg → Bool) (n i : ℕ) (l l' : CalSegList)
    → ((j : ℕ) → j < i + n → test (l'.calsegs j) ≡ test (l.calsegs j))
    → first_calseg test n i l' ≡ first_calseg test n i l
unfolding first_calseg
first_calseg-same test zero i l l' h = refl
first_calseg-same test (suc n) i l l' h = ground (
  arith,
  h i (omega arith),
  first_calseg-same test n (i + 1) l l' (λ j lt. h j (omega (arith, lt))),
)

one_more :
    (f : CalSeg → CalSeg) (c : ℕ → CalSeg) (n i j : ℕ)
    → (if leb (j + 1) i && ltb i (j + 1 + n)
        then f (if i == j then f (c j) else c i)
        else if i == j
        then f (c j)
        else c i)
      ≡ (if leb j i && ltb i (j + suc n) then f (c i) else c i)
one_more f c n i j = ground arith

-- the segments in the range of the loop, and the others
set_access_from-at :
    (page mode n j i : ℕ) (l : CalSegList)
    → (set_access_from page mode n j l).calsegs i
      ≡ (if leb j i && ltb i (j + n) then set_access page mode (l.calsegs i) else l.calsegs i)
unfolding set_access_from set_calseg
set_access_from-at page mode zero j i l = ground arith
set_access_from-at page mode (suc n) j i l =
    set_access_from-at page mode n (j + 1) i (set_calseg j (set_access page mode (l.calsegs j)) l)
    ∙ one_more (set_access page mode) l.calsegs n i j

set_access_from-count :
    (page mode n j : ℕ) (l : CalSegList)
    → get_cal_seg_count (set_access_from page mode n j l) ≡ get_cal_seg_count l
unfolding set_access_from set_calseg
set_access_from-count page mode zero j l = refl
set_access_from-count page mode (suc n) j l =
    set_access_from-count page mode n (j + 1) (set_calseg j (set_access page mode (l.calsegs j)) l)

-- What the accepted command makes of the segments: the page is set in the segment, or in all of them.
record Paged (segment page mode : ℕ) (l l' : CalSegList) : Type 0 where
  same_count : get_cal_seg_count l' ≡ get_cal_seg_count l
  each :
      (i : ℕ)
      → i < get_cal_seg_count l
      → l'.calsegs i ≡ (
          if has_mode 0x80 mode || i == get_cal_seg_index segment l
          then set_access page mode (l.calsegs i)
          else l.calsegs i)

abbrev Refused : ℕ → ℕ → CalSegList → ℕ × CalSegList → Type 0
Refused segment page l (r, l') =
    (r ≡ crc_access_denied)
    × (l' ≡ l)
    × ((get_cal_seg_index segment l ≡ xcp_undefined_calseg) ⊎ (1 < page))

set_cal_page-Paged :
    (segment page mode : ℕ) (l : CalSegList)
    → Refused segment page l (set_cal_page segment page mode l)
      ⊎ (((set_cal_page segment page mode l).0 ≡ crc_cmd_ok)
          × ((get_cal_seg_index segment l == xcp_undefined_calseg) ≡ false)
          × Paged segment page mode l (set_cal_page segment page mode l).1)
unfolding set_cal_page set_calseg
set_cal_page-Paged segment page mode l =
    if_cases P (get_cal_seg_index segment l == xcp_undefined_calseg)
      (λ h. inl (refl, refl, inl (ground (arith, h))))
      (λ found.
        if_cases P (ltb 1 page) (λ h. inl (refl, refl, inr (ground (arith, h))))
          (λ h.
            if_cases P (has_mode 0x80 mode)
              (λ all. inr (
                refl,
                found,
                record {
                  same_count = set_access_from-count page mode (get_cal_seg_count l) 0 l;
                  each = λ i lt.
                      set_access_from-at page mode (get_cal_seg_count l) 0 i l
                      ∙ ground (arith, all, lt);
                },
              ))
              (λ one.
                inr
                  (refl, found, record { same_count = refl; each = λ i lt. ground (arith, one) }))))
  where
    P : ℕ × CalSegList → Type 0
    P o =
        Refused segment page l o
        ⊎ ((o.0 ≡ crc_cmd_ok)
            × ((get_cal_seg_index segment l == xcp_undefined_calseg) ≡ false)
            × Paged segment page mode l o.1)

-- the fields of a segment behind an assignment of its page
set_access_lem :
    (page mode : ℕ) (c : CalSeg)
    → ((set_access page mode c).calseg_number ≡ c.calseg_number)
      × ((set_access page mode c).ecu_access ≡ (if has_mode 1 mode then page else c.ecu_access))
      × ((set_access page mode c).xcp_access ≡ (if has_mode 2 mode then page else c.xcp_access))
unfolding set_access
set_access_lem page mode c = ground arith

same_index :
    (segment page mode : ℕ) (l l' : CalSegList)
    → Paged segment page mode l l'
    → get_cal_seg_index segment l' ≡ get_cal_seg_index segment l
unfolding get_cal_seg_index
same_index segment page mode l l' v =
    ap (λ n. first_calseg (λ c. c.calseg_number == segment) n 0 l') v.same_count
    ∙ first_calseg-same (λ c. c.calseg_number == segment) (get_cal_seg_count l) 0 l l'
        (λ j lt.
          ap (λ n. n == segment)
            (ap (λ (c : CalSeg). c.calseg_number) (v.each j (omega (arith, lt))) ∙ number j))
  where
    number :
        (j : ℕ)
        → (if has_mode 0x80 mode || j == get_cal_seg_index segment l
            then set_access page mode (l.calsegs j)
            else l.calsegs j).calseg_number
          ≡ (l.calsegs j).calseg_number
    number j =
        if_cases (λ (c : CalSeg). c.calseg_number ≡ (l.calsegs j).calseg_number)
          (has_mode 0x80 mode || j == get_cal_seg_index segment l)
          (λ h. (set_access_lem page mode (l.calsegs j)).0) (λ h. refl)

-- the segment of the command has its page set
at_index :
    (segment page mode : ℕ) (l l' : CalSegList)
    → (get_cal_seg_index segment l == xcp_undefined_calseg) ≡ false
    → Paged segment page mode l l'
    → let i = get_cal_seg_index segment l in l'.calsegs i ≡ set_access page mode (l.calsegs i)
unfolding get_cal_seg_index
at_index segment page mode l l' found v =
    let i = get_cal_seg_index segment l in
    let lt : i < get_cal_seg_count l =
      elim (first_calseg-found (λ c. c.calseg_number == segment) (get_cal_seg_count l) 0 l) [
        | inl e ↦ absurd (ground (arith, e, found))
        | inr (le, lt) ↦ omega (arith, lt)
      ] in
    v.each i lt ∙ ground arith

-- what XcpCalSegGetCalPage gets of a known segment
get_cal_page_lem :
    (segment i : ℕ) (l : CalSegList)
    → get_cal_seg_index segment l ≡ i
    → (i == xcp_undefined_calseg) ≡ false
    → (get_cal_page segment 1 l ≡ (l.calsegs i).ecu_access)
      × (get_cal_page segment 2 l ≡ (l.calsegs i).xcp_access)
unfolding get_cal_page
get_cal_page_lem segment i l e found = rw (e, found) (refl, refl)

-- XcpCalSegSetCalPage is denied and changes nothing, which happens only for an unknown segment or a
-- page above 1; or XcpCalSegGetCalPage then gets the page for the accesses, of the ECU and of XCP, that
-- the mode names, and what it got before for the other, and the command has set its page in the segment
-- alone, or in every segment if the mode says so.
pub set_cal_page-get_cal_page :
    (segment page mode : ℕ) (l : CalSegList)
    → let (r, l') = set_cal_page segment page mode l in
      ((r ≡ crc_access_denied)
        × (l' ≡ l)
        × ((get_cal_seg_index segment l ≡ xcp_undefined_calseg) ⊎ (1 < page)))
      ⊎ ((r ≡ crc_cmd_ok)
          × (get_cal_page segment 1 l'
              ≡ (if has_mode 1 mode then page else get_cal_page segment 1 l))
          × (get_cal_page segment 2 l'
              ≡ (if has_mode 2 mode then page else get_cal_page segment 2 l))
          × ((i : ℕ)
              → i < get_cal_seg_count l
              → l'.calsegs i ≡ (
                  if has_mode 0x80 mode || i == get_cal_seg_index segment l
                  then set_access page mode (l.calsegs i)
                  else l.calsegs i)))
set_cal_page-get_cal_page segment page mode l = elim (set_cal_page-Paged segment page mode l) [
  | inl refused ↦ inl refused
  | inr (ok, found, v) ↦
      let l' = (set_cal_page segment page mode l).1 in
      let same = same_index segment page mode l l' v in
      let at = at_index segment page mode l l' found v in
      let i = get_cal_seg_index segment l in
      let fields = set_access_lem page mode (l.calsegs i) in
      let before = get_cal_page_lem segment i l refl found in
      let behind = get_cal_page_lem segment i l' same found in
      inr (
        ok,
        behind.0
            ∙ ap (λ (c : CalSeg). c.ecu_access) at
            ∙ fields.1
            ∙ ap (λ n. if has_mode 1 mode then page else n) (sym before.0),
        behind.1
            ∙ ap (λ (c : CalSeg). c.xcp_access) at
            ∙ fields.2
            ∙ ap (λ n. if has_mode 2 mode then page else n) (sym before.1),
        v.each,
      )
]
