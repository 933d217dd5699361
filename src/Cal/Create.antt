-- ===== src/Cal/Create.antt =====
-- The creation of calibration segments and blocks, src/cal.c: `XcpCalMemAlloc_`, `XcpInitCalSeg_`,
-- `XcpRegisterCalSeg_`, `XcpCreateCalSeg_` and the functions that call it.
use xcplite.Prelude.{
  ℕ, ◌+◌, ◌*◌, ◌-◌, ◌%◌, not, ◌&&◌, Bool, true, false, Option, none, some, List, [], bit_and, take,
  length, get_or, ltb, leb, ◌==◌, if◌then◌else◌,
}
use xcplite.Memory.{Bytes, cleared}
use xcplite.Cal.{
  CalSeg, CalSegList, xcp_undefined_calseg, xcp_undefined_calseg_num, xcp_calpage_working_page,
  xcp_calpage_default_page, xcp_max_calseg_count, xcp_cal_mem_size, xcp_max_calseg_name,
  aligned_page_size, set_calseg, get_cal_seg_count, find_cal_seg,
}
use xcplite.Cal.Rcu.{rcu_reset, rcu_init}

-- What the default page is made from: the caller's bytes, or what is left of the persistence file.
pub data PageSource : Type 0 where
  from_memory : Bytes → PageSource
  from_file : List ℕ → PageSource
  missing : PageSource

-- `XcpCalMemAlloc_`: the offset in the pool; `none` is NULL. The loop of the compare and exchange
-- is one step.
unfoldable pub cal_mem_alloc : ℕ → CalSegList → Option ℕ × CalSegList
cal_mem_alloc size l =
    let new_used = (l.cal_mem_used + size) % 4294967296 in
    if ltb xcp_cal_mem_size new_used
    then (none, l)
    else (some l.cal_mem_used, record l { cal_mem_used = new_used })

-- sizeof(tXcpCalSegHeader) + CALSEG_PAGE_COUNT * aligned_page_size: the default page and three more
abbrev pub calseg_bytes : ℕ → ℕ
calseg_bytes page_size = 64 + 4 * aligned_page_size page_size

-- memcpy and fread into the default page
unfoldable pub store_default : ℕ → (ℕ → ℕ) → Bytes → Bytes
store_default n bytes b i = if ltb i n then bytes i else b i

-- The default page of `XcpInitCalSeg_`; `none`: no page, or not enough bytes in the file.
unfoldable pub load_default : ℕ → PageSource → CalSeg → Option CalSeg
unfolding store_default
load_default page_size (from_memory bytes) c =
    some (record c { b = store_default page_size bytes c.b })
load_default page_size (from_file bytes) c =
    if ltb (length bytes) page_size
    then none
    else some (record c { b = store_default page_size (λ i. get_or bytes i 0) c.b })
load_default page_size missing c = none

-- The access of a new segment: passive, or on the working page with the pages initialised.
unfoldable pub start_access : Bool → ℕ → CalSeg → CalSeg
unfolding rcu_reset rcu_init
start_access activated page_size c0 =
    let c = record (rcu_reset c0) {
      write_pending = false;
      xcp_access = xcp_calpage_default_page;
      ecu_access = xcp_calpage_default_page;
    } in
    if activated
    then record (rcu_init (aligned_page_size page_size) c) {
      xcp_access = xcp_calpage_working_page;
      ecu_access = xcp_calpage_working_page;
    }
    else c

-- A segment in fresh memory: `XcpInit` clears the pool.
abbrev pub fresh_calseg : CalSeg
fresh_calseg = record {
  ecu_page_next = 0;
  free_page = 0;
  ecu_page = 0;
  xcp_page = 0;
  file_pos = 0;
  lock_count = 0;
  size = 0;
  ecu_access = 0;
  xcp_access = 0;
  write_pending = false;
  free_page_hazard = false;
  calseg_number = 0;
  app_id = 0;
  mode = 0;
  name = [];
  b = cleared;
}

-- its name, size and segment number
abbrev pub named_calseg : List ℕ → ℕ → Bool → CalSegList → CalSeg
named_calseg name page_size memory_segment l = record fresh_calseg {
  name = take xcp_max_calseg_name name;
  size = page_size;
  calseg_number = if memory_segment then l.memory_segment_count % 256 else xcp_undefined_calseg_num;
}

-- memory_segment_count++
abbrev pub count_segment : Bool → CalSegList → CalSegList
count_segment memory_segment l =
    if memory_segment
    then record l { memory_segment_count = (l.memory_segment_count + 1) % 65536 }
    else l

-- `XcpInitCalSeg_`: the segment, or `none` for false, and the list with its segment number taken.
unfoldable pub init_cal_seg :
    List ℕ → PageSource → ℕ → Bool → CalSegList → Option CalSeg × CalSegList
unfolding load_default start_access
init_cal_seg name source page_size memory_segment l =
    if memory_segment && leb 0xff l.memory_segment_count
    then (none, l)
    else elim (load_default page_size source (named_calseg name page_size memory_segment l)) [
      | none ↦ (none, count_segment memory_segment l)
      | some loaded ↦
          (some (start_access l.activated page_size loaded), count_segment memory_segment l)
    ]

-- the entry `i` of the list, if there is one left
unfoldable pub register_at : ℕ → ℕ → CalSeg → CalSegList → ℕ × CalSegList
unfolding set_calseg
register_at i at c l = if leb (xcp_max_calseg_count - 1) i then (xcp_undefined_calseg, l) else (
  i,
  record (set_calseg i c l) { offset = λ k. if k == i then at else l.offset k; count = i + 1 },
)

-- `XcpRegisterCalSeg_`
unfoldable pub register_cal_seg : ℕ → CalSeg → CalSegList → ℕ × CalSegList
unfolding register_at
register_cal_seg at c l = register_at (get_cal_seg_count l) at c l

-- the segment that was initialised goes into the list
unfoldable pub register_made : ℕ → Option CalSeg × CalSegList → ℕ × CalSegList
unfolding register_cal_seg
register_made at (none, l) = (xcp_undefined_calseg, l)
register_made at (some c, l) = register_cal_seg at c l

-- A new segment in the memory that was allocated. Without, `XcpInitCalSeg_` asserts that its pointer is
-- not NULL: `none` is a failed assertion.
unfoldable pub new_in :
    List ℕ → PageSource → ℕ → Bool → Option ℕ × CalSegList → Option (ℕ × CalSegList)
unfolding init_cal_seg register_made
new_in name source page_size memory_segment (none, l) = none
new_in name source page_size memory_segment (some at, l) =
    some (register_made at (init_cal_seg name source page_size memory_segment l))

-- The creation in `XcpCreateCalSeg_` of a segment that does not exist.
unfoldable pub new_cal_seg : List ℕ → PageSource → ℕ → Bool → CalSegList → Option (ℕ × CalSegList)
unfolding cal_mem_alloc new_in
new_cal_seg name source page_size memory_segment l =
    new_in name source page_size memory_segment (cal_mem_alloc (calseg_bytes page_size) l)

-- The end of `XcpCreateCalSeg_`: the size has to fit, and PAG_PROPERTY_PRELOAD is cleared.
unfoldable pub check_cal_seg : ℕ → ℕ → CalSegList → ℕ × CalSegList
unfolding set_calseg
check_cal_seg page_size i l =
    let c = l.calsegs i in
    if not (page_size == c.size)
    then (xcp_undefined_calseg, l)
    else if not (bit_and c.mode 2 == 0)
    then (i, set_calseg i (record c { mode = 0 }) l)
    else (i, l)

-- the check behind a creation that may have failed
unfoldable pub check_created : ℕ → ℕ × CalSegList → ℕ × CalSegList
unfolding check_cal_seg
check_created page_size (i, l) =
    if i == xcp_undefined_calseg then (i, l) else check_cal_seg page_size i l

-- the same where the creation may have failed an assertion
unfoldable pub check_made : ℕ → Option (ℕ × CalSegList) → Option (ℕ × CalSegList)
unfolding check_created
check_made page_size none = none
check_made page_size (some r) = some (check_created page_size r)

-- `XcpCreateCalSeg_`
unfoldable pub create_cal_seg_ :
    List ℕ → Bool → PageSource → ℕ → Bool → CalSegList → Option (ℕ × CalSegList)
unfolding new_cal_seg check_made
create_cal_seg_ name lookup source page_size memory_segment l =
    let found = if lookup then find_cal_seg name l else xcp_undefined_calseg in
    if found == xcp_undefined_calseg
    then check_made page_size (new_cal_seg name source page_size memory_segment l)
    else some (check_cal_seg page_size found l)

-- `XcpCreateCalSeg` (memory_segment) and `XcpCreateCalBlk`
unfoldable pub create_cal_seg : List ℕ → Bytes → ℕ → Bool → CalSegList → Option (ℕ × CalSegList)
unfolding create_cal_seg_
create_cal_seg name default_page page_size memory_segment l =
    if not l.activated
    then some (xcp_undefined_calseg, l)
    else create_cal_seg_ name true (from_memory default_page) page_size memory_segment l

-- the index and the number have to be those of the file; the mode becomes PAG_PROPERTY_PRELOAD
unfoldable pub finish_preloaded : ℕ → ℕ → ℕ → ℕ → Option (ℕ × CalSegList) → Option (ℕ × CalSegList)
unfolding set_calseg
finish_preloaded app_id index number file_pos none = none
finish_preloaded app_id index number file_pos (some (i, l)) =
    let c = l.calsegs i in
    if not (i == index)
    then some (xcp_undefined_calseg, l)
    else if not (c.calseg_number == number)
    then some (xcp_undefined_calseg, l)
    else some (i, set_calseg i (record c { mode = 2; file_pos = file_pos; app_id = app_id }) l)

-- `XcpCreateCalSegPreloaded`
unfoldable pub create_cal_seg_preloaded :
    List ℕ → ℕ → ℕ → ℕ → ℕ → List ℕ → ℕ → CalSegList → Option (ℕ × CalSegList)
unfolding create_cal_seg_ finish_preloaded
create_cal_seg_preloaded name app_id page_size index number file file_pos l =
    finish_preloaded app_id index number file_pos (
      create_cal_seg_ name false (from_file file) page_size
        (not (number == xcp_undefined_calseg_num)) l)
