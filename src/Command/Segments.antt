-- ===== src/Command/Segments.antt =====
-- The commands of calibration segments and identification, src/xcplite.c and src/cal.c: USER_CMD,
-- GET_ID, SET_REQUEST, the page and segment commands, `XcpGetSegInfo` and `XcpGetSegPageInfo`; and
-- the segments as what the memory transfer reads and writes.
pub mod Transfer
pub mod Returns
use xcplite.Prelude.{
  false, ℕ, ◌+◌, ◌%◌, Bool, Option, List, length, ltb, ◌==◌, ◌||◌, leb, if◌then◌else◌,
}
use xcplite.Config.{
  crc_cmd_ok, crc_cmd_syntax, crc_out_of_range, crc_page_not_valid, crc_segment_not_valid,
  xcp_addr_ext_ptr, xcp_addr_ext_file,
}
use xcplite.Memory.{Bytes}
use xcplite.Mta.{Backend, write_bytes}
use xcplite.Command.Reply.{
  Session, Reply, positive, negative, check_len, check_error, set_crm_len, crm_byte, crm_dword,
  cro_byte,
}
use xcplite.Cal.{
  CalSeg, CalSegList, xcp_undefined_calseg, xcp_max_calseg_name, xcp_calpage_working_page,
  xcp_calpage_default_page, xcp_calpage_invalid_page, get_cal_seg_index, get_cal_seg_base_address,
  get_mem_seg_count,
}
use xcplite.Cal.Access.{
  cal_seg_read_memory, cal_seg_write_memory, begin_atomic_transaction, end_atomic_transaction,
}
use xcplite.Cal.Pages.{
  get_cal_page, set_cal_page, copy_cal_page, get_cal_seg_mode, set_cal_seg_mode, freeze_selected,
}

-- What surrounds the segments: the callbacks of src/xcpappl.c, the threads that run while the server
-- waits, and the persistence file.
pub record Host : Type 1 where
  pub State : Type 0
  pub readers : ℕ → CalSeg → CalSeg
  -- ApplXcpWriteMemory, ApplXcpReadMemory, ApplXcpReadFile, ApplXcpGetBaseAddr, ApplXcpCheckMemory
  pub write_app : ℕ → List ℕ → State → ℕ × State
  pub read_app : ℕ → ℕ → State → ℕ × List ℕ
  pub read_file : ℕ → ℕ → Option (List ℕ)
  pub base_addr : ℕ
  pub check_memory : ℕ → ℕ → ℕ → ℕ
  -- ApplXcpUserCommand
  pub user_command : ℕ → State → ℕ × State
  -- ApplXcpGetId without a buffer, and with one: the length, and the bytes that it stores
  pub get_id_length : ℕ → State → ℕ × State
  pub get_id_data : ℕ → ℕ → State → ℕ × List ℕ
  -- XcpGetEcuEpk and the name in the header of a segment, as addresses
  pub epk : ℕ
  pub name_address : ℕ → ℕ
  -- XcpBinFreezeCalSeg
  pub freeze : ℕ → CalSeg → State → Bool × State

pub record CalWorld (State : Type 0) : Type 0 where
  pub cals : CalSegList
  pub host : State

-- The segments behind the memory transfer address.
abbrev pub cal_backend : Host → Backend
cal_backend h = record {
  World = CalWorld h.State;
  write_segment = λ dst src w.
      let (r, l) = cal_seg_write_memory h.readers dst src w.cals in (r, record w { cals = l });
  read_segment = λ src size w. cal_seg_read_memory src size w.cals;
  write_app = λ dst src w. let (r, s) = h.write_app dst src w.host in (r, record w { host = s });
  read_app = λ src size w. h.read_app src size w.host;
  read_file = h.read_file;
  base_addr = h.base_addr;
  check_memory = h.check_memory;
}

module _ (h : Host) where
  open h use {State}

  -- an operation on the segments as one on the session
  abbrev on_cals : ℕ × CalSegList → Session (CalWorld State) → ℕ × Session (CalWorld State)
  on_cals (r, l) s = (r, record s { world = record s.world { cals = l } })

  -- and one on what surrounds them
  abbrev on_host : ℕ × State → Session (CalWorld State) → ℕ × Session (CalWorld State)
  on_host (r, w) s = (r, record s { world = record s.world { host = w } })

  -- CC_USER_CMD: the begin and the end of an atomic calibration, or a command of the application
  unfoldable pub user_cmd : Bytes → ℕ → Session (CalWorld State) → Reply (CalWorld State)
  unfolding begin_atomic_transaction end_atomic_transaction
  user_cmd cmd len s =
      let subcmd = cro_byte cmd 1 in
      check_len 4 len s (
        if subcmd == 1
        then positive (on_cals (0, begin_atomic_transaction h.readers s.world.cals) s).1
        else if subcmd == 2
        then check_error (on_cals (end_atomic_transaction h.readers s.world.cals) s)
        else check_error (on_host (h.user_command subcmd s.world.host) s))

  -- the id in the response, for IDT_ASCII, IDT_ASAM_NAME, IDT_ASAM_PATH and IDT_ASAM_URL
  unfoldable pub id_in_response : ℕ → Session (CalWorld State) → Session (CalWorld State)
  unfolding write_bytes
  id_in_response id s =
      let (n, bytes) = h.get_id_data id 240 s.world.host in
      crm_byte 1 1
        (set_crm_len (8 + n) (crm_dword 1 n (record s { crm = write_bytes s.crm 8 bytes })))

  -- the id by upload: the length in the response
  unfoldable pub id_by_upload : ℕ → Session (CalWorld State) → Session (CalWorld State)
  id_by_upload id s =
      let (n, s1) = on_host (h.get_id_length id s.world.host) s in crm_byte 1 0 (crm_dword 1 n s1)

  -- CC_GET_ID; 5 is IDT_ASAM_EPK, 4 is IDT_ASAM_UPLOAD.
  unfoldable pub get_id : Bytes → ℕ → Session (CalWorld State) → Reply (CalWorld State)
  unfolding id_in_response id_by_upload
  get_id cmd len s0 =
      let id = cro_byte cmd 1 in
      let s = crm_dword 1 0 (set_crm_len 8 s0) in
      check_len 2 len s0 (
        if ltb id 4
        then positive (id_in_response id s)
        else if id == 5
        then positive (
            id_by_upload id (record s {
              mta = record s.mta {
                mta_addr = 0x80000000;
                mta_ptr = h.epk;
                mta_ext = xcp_addr_ext_ptr;
              };
            }))
        else if id == 4
        then positive (
            id_by_upload id
              (record s { mta = record s.mta { mta_addr = 0; mta_ext = xcp_addr_ext_file } }))
        else negative crc_out_of_range s)

  -- CC_SET_REQUEST: only SET_REQUEST_MODE_STORE_CAL
  unfoldable pub set_request : Bytes → ℕ → Session (CalWorld State) → Reply (CalWorld State)
  unfolding freeze_selected
  set_request cmd len s0 =
      let s = set_crm_len 1 s0 in
      check_len 4 len s0 (
        if cro_byte cmd 1 == 1
        then check_error (on_host (freeze_selected h.freeze false s.world.cals s.world.host) s)
        else negative crc_out_of_range s)

  -- CC_SET_CAL_PAGE
  unfoldable pub set_cal_page_command :
      Bytes → ℕ → Session (CalWorld State) → Reply (CalWorld State)
  unfolding set_cal_page
  set_cal_page_command cmd len s = check_len 4 len s (
      check_error
        (on_cals (set_cal_page (cro_byte cmd 2) (cro_byte cmd 3) (cro_byte cmd 1) s.world.cals) s))

  -- CC_GET_CAL_PAGE
  unfoldable pub get_cal_page_command :
      Bytes → ℕ → Session (CalWorld State) → Reply (CalWorld State)
  unfolding get_cal_page
  get_cal_page_command cmd len s =
      let page = get_cal_page (cro_byte cmd 2) (cro_byte cmd 1) s.world.cals in
      check_len 3 len s (
        if page == 0xff
        then negative crc_segment_not_valid (set_crm_len 4 s)
        else positive (crm_byte 3 page (set_crm_len 4 s)))

  -- CC_COPY_CAL_PAGE, which does not look at the length of the command
  unfoldable pub copy_cal_page_command : Bytes → Session (CalWorld State) → Reply (CalWorld State)
  unfolding copy_cal_page
  copy_cal_page_command cmd s0 =
      let s = set_crm_len 1 s0 in
      check_error (
        on_cals
          (copy_cal_page h.readers (cro_byte cmd 1) (cro_byte cmd 2) (cro_byte cmd 3)
            (cro_byte cmd 4) s.world.cals)
          s)

  -- CC_GET_PAG_PROCESSOR_INFO, with PAG_PROPERTY_FREEZE
  unfoldable pub get_pag_processor_info : ℕ → Session (CalWorld State) → Reply (CalWorld State)
  unfolding get_mem_seg_count
  get_pag_processor_info len s =
      check_len 1 len s
        (positive (crm_byte 2 1 (crm_byte 1 (get_mem_seg_count s.world.cals) (set_crm_len 3 s))))

  -- CC_SET_SEGMENT_MODE and CC_GET_SEGMENT_MODE
  unfoldable pub set_segment_mode : Bytes → ℕ → Session (CalWorld State) → Reply (CalWorld State)
  unfolding set_cal_seg_mode
  set_segment_mode cmd len s =
      check_len 3 len s
        (check_error (on_cals (set_cal_seg_mode (cro_byte cmd 2) (cro_byte cmd 1) s.world.cals) s))

  unfoldable pub get_segment_mode : Bytes → ℕ → Session (CalWorld State) → Reply (CalWorld State)
  unfolding get_cal_seg_mode
  get_segment_mode cmd len s =
      check_len 3 len s
        (positive (crm_byte 2 (get_cal_seg_mode (cro_byte cmd 2) s.world.cals) (set_crm_len 3 s)))

  -- STRNLEN(name, XCP_MAX_CALSEG_NAME)
  abbrev name_length : CalSeg → ℕ
  name_length c =
      if ltb xcp_max_calseg_name (length c.name) then xcp_max_calseg_name else length c.name

  -- `XcpGetSegInfo`
  unfoldable pub get_seg_info : ℕ → ℕ → ℕ → Session (CalWorld State) → ℕ × Session (CalWorld State)
  get_seg_info segment_number mode seg_info s =
      let l = s.world.cals in
      let i = get_cal_seg_index segment_number l in
      let s8 = set_crm_len 8 s in
      if i == xcp_undefined_calseg
      then (crc_out_of_range, s)
      else if mode == 0
      then if seg_info == 0
        then (crc_cmd_ok, crm_dword 1 (get_cal_seg_base_address i l) s8)
        else if seg_info == 1
        then (crc_cmd_ok, crm_dword 1 (l.calsegs i).size s8)
        else if seg_info == 2
        then (
          crc_cmd_ok,
          record (crm_dword 1 (name_length (l.calsegs i)) s8) {
            mta = record s.mta { mta_ptr = h.name_address i; mta_ext = xcp_addr_ext_ptr };
          },
        )
        else (crc_out_of_range, s8)
      else if mode == 1
      then (
        crc_cmd_ok,
        crm_byte 5 0 (crm_byte 4 0 (crm_byte 3 0 (crm_byte 2 0 (crm_byte 1 2 (set_crm_len 6 s))))),
      )
      else if mode == 2
      then (crc_out_of_range, s)
      else (crc_cmd_syntax, s)

  -- CC_GET_SEGMENT_INFO
  unfoldable pub get_segment_info : Bytes → ℕ → Session (CalWorld State) → Reply (CalWorld State)
  unfolding get_seg_info
  get_segment_info cmd len s =
      check_len 5 len s
        (check_error (get_seg_info (cro_byte cmd 2) (cro_byte cmd 1) (cro_byte cmd 3) s))

  -- `XcpGetSegPageInfo`
  unfoldable pub get_seg_page_info : ℕ → ℕ → Session (CalWorld State) → ℕ × Session (CalWorld State)
  get_seg_page_info segment_number page s =
      let s3 = set_crm_len 3 s in
      if get_cal_seg_index segment_number s.world.cals == xcp_undefined_calseg
      then (crc_out_of_range, s)
      else if ltb 1 page
      then (crc_page_not_valid, s3)
      else (
        crc_cmd_ok,
        crm_byte 2 xcp_calpage_default_page
            (crm_byte 1 (if page == xcp_calpage_working_page then 0x3f else 0x0f) s3),
      )

  -- CC_GET_PAGE_INFO
  unfoldable pub get_page_info : Bytes → ℕ → Session (CalWorld State) → Reply (CalWorld State)
  unfolding get_seg_page_info
  get_page_info cmd len s =
      check_len 4 len s (check_error (get_seg_page_info (cro_byte cmd 2) (cro_byte cmd 3) s))

  -- `others`: what is left of the switch, events, time correlation and unknown commands
  module _ (others : Bool → Bytes → ℕ → Session (CalWorld State) → Reply (CalWorld State)) where
    -- the cases of the switch for these commands
    unfoldable pub segment_commands :
        Bool → Bytes → ℕ → Session (CalWorld State) → Reply (CalWorld State)
    segment_commands async cmd len s =
        let cc = cro_byte cmd 0 in
        if cc == 0xf1
        then user_cmd cmd len s
        else if cc == 0xfa
        then get_id cmd len s
        else if cc == 0xf9
        then set_request cmd len s
        else if cc == 0xeb
        then set_cal_page_command cmd len s
        else if cc == 0xea
        then get_cal_page_command cmd len s
        else if cc == 0xe4
        then copy_cal_page_command cmd s
        else if cc == 0xe9
        then get_pag_processor_info len s
        else if cc == 0xe6
        then set_segment_mode cmd len s
        else if cc == 0xe5
        then get_segment_mode cmd len s
        else if cc == 0xe8
        then get_segment_info cmd len s
        else if cc == 0xe7
        then get_page_info cmd len s
        else others async cmd len s
