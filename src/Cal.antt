-- ===== src/Cal.antt =====
-- The calibration segments, src/cal.h and src/cal.c: the segment, the list of the segments, and the
-- functions that look segments up. A segment is named by its index; its place in the memory pool is
-- kept in `offset`. Segments hold a copy of their default page (no absolute addressing of segments).
pub mod Rcu
pub mod Create
pub mod Access
pub mod Pages
pub mod Threads
pub mod Layout
pub mod Lists
pub mod Visible
pub mod Written
pub mod Atomic
pub mod Paging
pub mod Refcount
use xcplite.Prelude.{
  ℕ, zero, suc, ◌+◌, ◌*◌, ◌/◌, ◌-◌, ◌%◌, ◌&&◌, Bool, true, false, List, ltb, leb, ◌==◌,
  if◌then◌else◌,
}
use xcplite.Memory.{Bytes}
use xcplite.Events.{same_name}
use xcplite.Daq.Address.{encode_seg_number}

-- XCP_UNDEFINED_CALSEG, XCP_UNDEFINED_CALSEG_NUM, XCP_CALSEG_NO_PAGE
abbrev pub xcp_undefined_calseg : ℕ
xcp_undefined_calseg = 0xffff

abbrev pub xcp_undefined_calseg_num : ℕ
xcp_undefined_calseg_num = 0xff

abbrev pub xcp_calseg_no_page : ℕ
xcp_calseg_no_page = 0xffffffff

-- XCP_CALPAGE_WORKING_PAGE, XCP_CALPAGE_DEFAULT_PAGE, XCP_CALPAGE_INVALID_PAGE (src/xcplite.h)
abbrev pub xcp_calpage_working_page : ℕ
xcp_calpage_working_page = 0

abbrev pub xcp_calpage_default_page : ℕ
xcp_calpage_default_page = 1

abbrev pub xcp_calpage_invalid_page : ℕ
xcp_calpage_invalid_page = 0xff

-- OPTION_CAL_SEGMENT_COUNT, OPTION_CAL_MEM_SIZE and XCP_MAX_CALSEG_NAME of a 64 bit platform
abbrev pub xcp_max_calseg_count : ℕ
xcp_max_calseg_count = 8

abbrev pub xcp_cal_mem_size : ℕ
xcp_cal_mem_size = 5120

abbrev pub xcp_max_calseg_name : ℕ
xcp_max_calseg_name = 23

-- `tXcpCalSeg`: the header `tXcpCalSegHeader` and the pages `b`. The fields that hold pages are
-- offsets into `b`; the name is its bytes up to the terminating zero.
pub record CalSeg : Type 0 where
  pub ecu_page_next : ℕ
  pub free_page : ℕ
  pub ecu_page : ℕ
  pub xcp_page : ℕ
  pub file_pos : ℕ
  pub lock_count : ℕ
  pub size : ℕ
  pub ecu_access : ℕ
  pub xcp_access : ℕ
  pub write_pending : Bool
  pub free_page_hazard : Bool
  pub calseg_number : ℕ
  pub app_id : ℕ
  pub mode : ℕ
  pub name : List ℕ
  pub b : Bytes

-- `tXcpCalSegList`, with isActivated() of the data that it is a part of.
pub record CalSegList : Type 0 where
  pub activated : Bool
  pub offset : ℕ → ℕ
  pub calsegs : ℕ → CalSeg
  pub count : ℕ
  pub memory_segment_count : ℕ
  pub write_delayed : Bool
  pub cal_mem_used : ℕ

-- (page_size + XCP_CALPAGE_ALIGNMENT - 1) & ~(XCP_CALPAGE_ALIGNMENT - 1) on uint16_t
abbrev pub aligned_page_size : ℕ → ℕ
aligned_page_size size = (size + 7) / 8 * 8 % 65536

-- DEFAULT_PAGE_OFFSET, XCP_PAGE_OFFSET, ECU_PAGE_OFFSET, FREE_PAGE_OFFSET
abbrev pub default_page_offset : ℕ
default_page_offset = 0

abbrev pub xcp_page_offset : ℕ → ℕ
xcp_page_offset aligned = aligned + 0 * aligned

abbrev pub ecu_page_offset : ℕ → ℕ
ecu_page_offset aligned = aligned + 1 * aligned

abbrev pub free_page_offset : ℕ → ℕ
free_page_offset aligned = aligned + 2 * aligned

-- memcpy(&b[dst], &b[src], n)
unfoldable pub copy_within : ℕ → ℕ → ℕ → Bytes → Bytes
copy_within dst src n b i = if leb dst i && ltb i (dst + n) then b (src + (i - dst)) else b i

-- the list with the segment `i` replaced, `*CalSegPtrMut(i) = c`
unfoldable pub set_calseg : ℕ → CalSeg → CalSegList → CalSegList
set_calseg i c l = record l { calsegs = λ k. if k == i then c else l.calsegs k }

-- `XcpInitCalSegList`
unfoldable pub init_cal_seg_list : CalSegList → CalSegList
init_cal_seg_list l = record l {
  count = 0;
  cal_mem_used = 0;
  memory_segment_count = 0;
  write_delayed = false;
}

-- `XcpGetCalSegCount` and `XcpGetMemSegCount`
abbrev pub get_cal_seg_count : CalSegList → ℕ
get_cal_seg_count l = if l.activated then l.count else 0

unfoldable pub get_mem_seg_count : CalSegList → ℕ
get_mem_seg_count l = if l.activated then l.memory_segment_count % 256 else xcp_undefined_calseg_num

-- The first of `n` indices, from `i` on, whose segment passes the test.
unfoldable pub first_calseg : (CalSeg → Bool) → ℕ → ℕ → CalSegList → ℕ
first_calseg test zero i l = xcp_undefined_calseg
first_calseg test (suc n) i l =
    let rest = first_calseg test n (i + 1) l in if test (l.calsegs i) then i else rest

-- `XcpFindCalSeg`
unfoldable pub find_cal_seg : List ℕ → CalSegList → ℕ
unfolding first_calseg
find_cal_seg name l = first_calseg (λ c. same_name c.name name) (get_cal_seg_count l) 0 l

-- `XcpGetCalSegIndex`
unfoldable pub get_cal_seg_index : ℕ → CalSegList → ℕ
unfolding first_calseg
get_cal_seg_index segment_number l =
    first_calseg (λ c. c.calseg_number == segment_number) (get_cal_seg_count l) 0 l

-- `XcpGetCalSegNumber`, `XcpGetCalSegSize` and `XcpGetCalSegBaseAddress`
unfoldable pub get_cal_seg_number : ℕ → CalSegList → ℕ
get_cal_seg_number i l =
    if leb (get_cal_seg_count l) i then xcp_undefined_calseg_num else (l.calsegs i).calseg_number

unfoldable pub get_cal_seg_size : ℕ → CalSegList → ℕ
get_cal_seg_size i l = if leb (get_cal_seg_count l) i then 0 else (l.calsegs i).size

unfoldable pub get_cal_seg_base_address : ℕ → CalSegList → ℕ
get_cal_seg_base_address i l = if leb (get_cal_seg_count l) i then 0 else encode_seg_number i 0
