-- ===== src/Cal/Pages.antt =====
-- The pages and modes of the calibration segments, src/cal.c: `XcpCalSegGetCalPage` to
-- `XcpCalSegCopyCalPage`, and `XcpGetCalSegMode` to `XcpResetAllCalSegs`.
use xcplite.Prelude.{
  ℕ, zero, suc, ◌+◌, ◌-◌, not, ◌||◌, Bool, ltb, ◌==◌, bit_and, bit_or, if◌then◌else◌,
}
use xcplite.Config.{crc_cmd_ok, crc_access_denied, crc_out_of_range}
use xcplite.Daq.Address.{encode_seg_number}
use xcplite.Mta.{read_bytes}
use xcplite.Cal.{
  CalSeg, CalSegList, xcp_undefined_calseg, xcp_calpage_working_page, xcp_calpage_default_page,
  xcp_calpage_invalid_page, default_page_offset, set_calseg, get_cal_seg_count, get_cal_seg_index,
}
use xcplite.Cal.Access.{cal_seg_write_memory}

-- CRC_WRITE_PROTECTED of src/xcp.h
abbrev pub crc_write_protected : ℕ
crc_write_protected = 35

-- mode & CAL_PAGE_MODE_ECU, CAL_PAGE_MODE_XCP, CAL_PAGE_MODE_ALL
abbrev pub has_mode : ℕ → ℕ → Bool
has_mode bit mode = not (bit_and mode bit == 0)

-- `XcpCalSegGetCalPage`
unfoldable pub get_cal_page : ℕ → ℕ → CalSegList → ℕ
get_cal_page segment_number mode l =
    let i = get_cal_seg_index segment_number l in
    if i == xcp_undefined_calseg
    then xcp_calpage_invalid_page
    else if mode == 1
    then (l.calsegs i).ecu_access
    else if mode == 2
    then (l.calsegs i).xcp_access
    else xcp_calpage_invalid_page

-- the assignments of `XcpCalSegSetCalPage` to one segment
unfoldable pub set_access : ℕ → ℕ → CalSeg → CalSeg
set_access page mode c =
    let c1 = if has_mode 1 mode then record c { ecu_access = page } else c in
    if has_mode 2 mode then record c1 { xcp_access = page } else c1

-- The loop of `XcpCalSegSetCalPage`, over `n` segments from `i` on.
unfoldable pub set_access_from : ℕ → ℕ → ℕ → ℕ → CalSegList → CalSegList
unfolding set_calseg
set_access_from page mode zero i l = l
set_access_from page mode (suc n) i l =
    set_access_from page mode n (i + 1) (set_calseg i (set_access page mode (l.calsegs i)) l)

-- `XcpCalSegSetCalPage`
unfoldable pub set_cal_page : ℕ → ℕ → ℕ → CalSegList → ℕ × CalSegList
unfolding set_access_from
set_cal_page segment_number page mode l =
    let i = get_cal_seg_index segment_number l in
    if i == xcp_undefined_calseg
    then (crc_access_denied, l)
    else if ltb 1 page
    then (crc_access_denied, l)
    else if has_mode 0x80 mode
    then (crc_cmd_ok, set_access_from page mode (get_cal_seg_count l) 0 l)
    else (crc_cmd_ok, set_calseg i (set_access page mode (l.calsegs i)) l)

-- `XcpCalSegCopyCalPage` without XCP_ENABLE_COPY_CAL_PAGE_WORKAROUND (OPTION_CANAPE_24 is set): the
-- default page of the one segment is written through its address. The bytes are read before they
-- are stored.
unfoldable pub copy_cal_page : (ℕ → CalSeg → CalSeg) → ℕ → ℕ → ℕ → ℕ → CalSegList → ℕ × CalSegList
copy_cal_page readers src_seg_num src_page dst_seg_num dst_page l =
    let i = get_cal_seg_index dst_seg_num l in
    let c = l.calsegs i in
    if not (src_seg_num == dst_seg_num)
      || i == xcp_undefined_calseg
      || not (dst_page == xcp_calpage_working_page)
      || not (src_page == xcp_calpage_default_page)
    then (crc_write_protected, l)
    else cal_seg_write_memory readers (encode_seg_number i 0)
        (read_bytes c.b default_page_offset c.size) l

-- `XcpGetCalSegMode` and `XcpSetCalSegMode`; ~PAG_PROPERTY_FREEZE is 0xfe.
unfoldable pub get_cal_seg_mode : ℕ → CalSegList → ℕ
get_cal_seg_mode segment_number l =
    let i = get_cal_seg_index segment_number l in
    if i == xcp_undefined_calseg then 0 else (l.calsegs i).mode

unfoldable pub set_cal_seg_mode : ℕ → ℕ → CalSegList → ℕ × CalSegList
unfolding set_calseg
set_cal_seg_mode segment_number mode l =
    let i = get_cal_seg_index segment_number l in
    let c = l.calsegs i in
    let freeze = if bit_and mode 1 == 0 then bit_and c.mode 0xfe else bit_or c.mode 1 in
    if i == xcp_undefined_calseg
    then (crc_out_of_range, l)
    else (crc_cmd_ok, set_calseg i (record c { mode = freeze }) l)

-- The loop of `XcpFreezeSelectedCalSegs`, over `n` segments from `i` on; `freeze i` is the outcome of
-- `XcpBinFreezeCalSeg` (src/persistence.c), with the file in `File`.
unfoldable pub freeze_from :
    {File : Type 0}
    → (ℕ → CalSeg → File → Bool × File)
    → Bool
    → ℕ
    → ℕ
    → CalSegList
    → File
    → ℕ × File
freeze_from freeze everything zero i l file = (crc_cmd_ok, file)
freeze_from freeze everything (suc n) i l file =
    let c = l.calsegs i in
    let (done, file') = freeze i c file in
    let next = freeze_from freeze everything n (i + 1) l file' in
    let skip = freeze_from freeze everything n (i + 1) l file in
    if not (bit_and c.mode 1 == 0) || everything
    then if done then next else (crc_access_denied, file')
    else skip

-- `XcpFreezeSelectedCalSegs`: the EPK segment 0 is left out.
unfoldable pub freeze_selected :
    {File : Type 0} → (ℕ → CalSeg → File → Bool × File) → Bool → CalSegList → File → ℕ × File
unfolding freeze_from
freeze_selected freeze everything l file =
    freeze_from freeze everything (get_cal_seg_count l - 1) 1 l file

-- The loop of `XcpResetAllCalSegs`, over `n` segments from `i` on.
unfoldable pub reset_from : ℕ → ℕ → CalSegList → CalSegList
unfolding set_calseg
reset_from zero i l = l
reset_from (suc n) i l =
    reset_from n (i + 1)
      (set_calseg i (record (l.calsegs i) { ecu_access = xcp_calpage_default_page }) l)

-- `XcpResetAllCalSegs`, but for the `XcpDisconnect` at its end
unfoldable pub reset_all_cal_segs : CalSegList → CalSegList
unfolding reset_from
reset_all_cal_segs l = reset_from (get_cal_seg_count l - 1) 1 l
