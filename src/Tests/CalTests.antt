-- ===== src/Tests/CalTests.antt =====
-- The calibration segments at one small segment, and two threads that lock it.
use xcplite.Prelude.{
  List, ◌||◌, ◌==◌, if◌then◌else◌, ℕ, ◌+◌, ◌*◌, ◌%◌, ◌≡◌, ◌≢◌, ◌<◌, ◌⊎◌, inl, inr, refl, arith,
  true, false, some, none, Option, [], ◌∷◌,
}
use xcplite.Config.{crc_cmd_ok, crc_access_denied, xcp_addr_ext_seg}
use xcplite.Daq.Address.{decode_seg_number, encode_seg_number}
use xcplite.Mta.{Mta, set_mta, write_mta, read_mta}
use xcplite.Cal.Pages.{has_mode, get_cal_page, set_access, set_cal_page}
use xcplite.Cal.Paging.{set_cal_page-get_cal_page}
use xcplite.Prelude.{Bool}
use xcplite.Memory.{Bytes, cleared, put8}
use xcplite.Cal.Access.{cal_seg_publish_all}
use xcplite.Command.Reply.{Session, App, Reply, negative}
use xcplite.Tests.Setup.{configured}
use xcplite.Cal.{
  xcp_undefined_calseg, get_cal_seg_index, get_cal_seg_count, CalSeg, CalSegList,
  xcp_calseg_no_page, xcp_calpage_working_page, copy_within, init_cal_seg_list, set_calseg,
  first_calseg, find_cal_seg,
}
use xcplite.Cal.Written.{RefusesAt, Refuses, write_memory-read_memory}
use xcplite.Command.Segments.{Host, CalWorld, cal_backend}
use xcplite.Command.Segments.Transfer.{write_mta_seg-read_mta}
use xcplite.Cal.Rcu.{rcu_init, rcu_reset, rcu_lock, rcu_unlock, rcu_try_publish, active_page}
use xcplite.Cal.Create.{
  fresh_calseg, create_cal_seg, create_cal_seg_, new_cal_seg, cal_mem_alloc, new_in, init_cal_seg,
  load_default, start_access, register_made, register_cal_seg, register_at, check_made,
  check_created, check_cal_seg,
}
use xcplite.Cal.Access.{
  begin_atomic_transaction, end_atomic_transaction, write_page, cal_seg_read_memory,
  cal_seg_write_memory,
}
use xcplite.Cal.Threads.{
  idle, first, next_loaded, both_loaded, ready, chosen, reading, reading_default, rest, taken,
  copied, System, Step, reader_step, writer_step, Reach, here, then_step, set_reader, lock_first,
  load_next, load_ecu, no_update, choose_working, get_page, load_free, load_hazard, take_free,
  copy_rest,
}
use xcplite.Cal.Threads.Safety.{IsFresh, Step-stable}
use xcplite.Cal.Threads.Runs.{ReaderRun, WriterRun, inside, rcu-Runs}
use xcplite.Cal.Layout.{IsPaged, Keeps}
use xcplite.Cal.Visible.{cycle, cycle-cycle-lock}
use xcplite.Cal.Lists.{IsWf}
use xcplite.Cal.Lists.Kept.{Steps, init_cal_seg_list-Steps-IsWf}
use xcplite.Cal.Atomic.{transaction-shown, write_all-shown}
use xcplite.Cal.Atomic.Hidden.{shown, write_all}
use xcplite.Cal.Lists.Kept

-- a segment of 8 bytes, its default page filled
abbrev small_segment : CalSeg
small_segment = record fresh_calseg { size = 8; b = λ i. i * i % 256 }

small_segment-IsFresh : IsFresh 2 8 small_segment
small_segment-IsFresh = record {
  few = omega arith;
  fits = omega arith;
  some_bytes = omega arith;
  small = omega arith;
}

-- One thread is inside with the active page, and the server has taken the free page and is to fill it.
abbrev filling : System
filling = record {
  seg = record (rcu_init 8 small_segment) { lock_count = 1; free_page = xcp_calseg_no_page };
  readers = set_reader 0 (reading 16) (
      set_reader 0 chosen (
        set_reader 0 ready (
          set_reader 0 (both_loaded 16 16)
            (set_reader 0 (next_loaded 16) (set_reader 0 first (λ i. idle))))));
  writer = taken 24;
}

abbrev filled : System
filled = record {
  seg = record filling.seg { b = copy_within 24 8 8 filling.seg.b };
  readers = filling.readers;
  writer = copied 24;
}

filled-Step : Step 2 filling filled
unfolding rcu_init
filled-Step = writer_step copy_rest

filling-Reach : Reach 2 (rcu_init 8 small_segment) filling
unfolding rcu_init
filling-Reach =
    let r1 = then_step here (reader_step 0 (omega arith) (lock_first refl)) in
    let r2 = then_step r1 (reader_step 0 (omega arith) load_next) in
    let r3 = then_step r2 (reader_step 0 (omega arith) load_ecu) in
    let r4 = then_step r3 (reader_step 0 (omega arith) (no_update refl)) in
    let r5 = then_step r4 (reader_step 0 (omega arith) (choose_working refl)) in
    let r6 = then_step r5 (reader_step 0 (omega arith) get_page) in
    let r7 = then_step r6 (writer_step (load_free (omega arith))) in
    let r8 = then_step r7 (writer_step (load_hazard refl)) in then_step r8 (writer_step take_free)

Step-stable_example : filled.seg.b (16 + 3) ≡ filling.seg.b (16 + 3)
unfolding rcu_init
Step-stable_example =
    Step-stable 2 8 small_segment {s = filling} {t = filled} 16 3 small_segment-IsFresh
      filling-Reach filled-Step (inr (inr (0, refl))) (omega arith)

-- a segment with the pages initialised and a change pending
abbrev changed : CalSeg
changed = record (rcu_init 8 small_segment) { write_pending = true }

rcu-Runs_example :
    let c' = (rcu_lock changed).1 in
    ReaderRun changed idle c' (inside c')
    × ((rcu_lock changed).0 ≡ active_page c')
    × ReaderRun changed (reading 16) (rcu_unlock changed) idle
    × ReaderRun changed reading_default (rcu_unlock changed) idle
    × WriterRun changed rest (rcu_try_publish changed).1 rest
rcu-Runs_example = rcu-Runs changed 16

changed-IsPaged : IsPaged 8 changed
unfolding rcu_init
changed-IsPaged = record {
  third = 24;
  fits = omega arith;
  some_bytes = omega arith;
  small = omega arith;
  xcp_in = inl refl;
  ecu_in = inr (inl refl);
  third_in = inr (inr refl);
  xcp_ne_ecu = omega arith;
  xcp_ne_third = omega arith;
  ecu_ne_third = omega arith;
  role = inl (refl, refl);
}

changed_unlocked : (changed.lock_count ≡ 0) × (changed.ecu_access ≡ xcp_calpage_working_page)
unfolding rcu_init
changed_unlocked = (refl, refl)

-- the threads do nothing while the server sleeps
abbrev still : ℕ → CalSeg → CalSeg
still n c = c

still_keeps : (n : ℕ) → Keeps (still n)
still_keeps n a c v = (v, refl)

cycle-cycle-lock_example :
    let c' = cycle still (cycle still changed) in
    let (p, c'') = rcu_lock c' in
    (c'.write_pending ≡ false)
    × ((k : ℕ)
        → k < changed.size
        → (c''.b (p + k) ≡ changed.b (changed.xcp_page + k))
          × (c''.b (c''.xcp_page + k) ≡ changed.b (changed.xcp_page + k)))
cycle-cycle-lock_example =
    cycle-cycle-lock still 8 changed changed-IsPaged changed_unlocked.0 changed_unlocked.1 refl

abbrev some_list : CalSegList
some_list = record {
  activated = true;
  offset = λ i. 0;
  calsegs = λ i. fresh_calseg;
  count = 3;
  memory_segment_count = 2;
  write_delayed = true;
  cal_mem_used = 5000;
}

-- one segment, with the default page `i * i`
abbrev list_of : Option (ℕ × CalSegList) → CalSegList
list_of none = some_list
list_of (some (i, l)) = l

abbrev one_segment : CalSegList
one_segment =
    list_of (create_cal_seg (107 ∷ []) small_segment.b 8 true (init_cal_seg_list some_list))

one_segment-Steps : Steps still still_keeps (init_cal_seg_list some_list) one_segment
unfolding init_cal_seg_list create_cal_seg create_cal_seg_ find_cal_seg first_calseg new_cal_seg
    cal_mem_alloc new_in init_cal_seg load_default start_access register_made register_cal_seg
    register_at check_made check_created check_cal_seg set_calseg rcu_init rcu_reset
one_segment-Steps =
    Steps.and_then Steps.none_yet
      (Kept.Step.create {i = 0} (107 ∷ []) small_segment.b 8 true (omega arith) (omega arith) refl)

init_cal_seg_list-Steps-IsWf_example :
    IsWf (cal_seg_write_memory still 0x80000002 (7 ∷ 9 ∷ []) one_segment).1
init_cal_seg_list-Steps-IsWf_example =
    init_cal_seg_list-Steps-IsWf still still_keeps some_list refl
      (Steps.and_then one_segment-Steps (Kept.Step.write_memory 0x80000002 (7 ∷ 9 ∷ [])))

write_memory-read_memory_example :
    let (r, l') = cal_seg_write_memory still 0x80000002 (7 ∷ 9 ∷ []) one_segment in
    ((r ≡ crc_access_denied) × (l' ≡ one_segment) × Refuses 0x80000002 (7 ∷ 9 ∷ []) one_segment)
    ⊎ ((r ≡ crc_cmd_ok)
        × (cal_seg_read_memory 0x80000002 2 l' ≡ (crc_cmd_ok, 7 ∷ 9 ∷ []))
        × ((src n : ℕ)
            → decode_seg_number src ≢ decode_seg_number 0x80000002
            → cal_seg_read_memory src n l' ≡ cal_seg_read_memory src n one_segment))
write_memory-read_memory_example =
    write_memory-read_memory still 0x80000002 (7 ∷ 9 ∷ []) one_segment

written_accepted : (cal_seg_write_memory still 0x80000002 (7 ∷ 9 ∷ []) one_segment).0 ≡ crc_cmd_ok
unfolding cal_seg_write_memory init_cal_seg_list create_cal_seg create_cal_seg_ find_cal_seg
    first_calseg new_cal_seg cal_mem_alloc new_in init_cal_seg load_default start_access
    register_made register_cal_seg register_at check_made check_created check_cal_seg set_calseg
    rcu_init rcu_reset
written_accepted = refl

-- a second segment behind it
abbrev two_segments : CalSegList
two_segments = list_of (create_cal_seg (108 ∷ []) small_segment.b 12 true one_segment)

two_segments-IsWf : IsWf two_segments
unfolding init_cal_seg_list create_cal_seg create_cal_seg_ find_cal_seg first_calseg new_cal_seg
    cal_mem_alloc new_in init_cal_seg load_default start_access register_made register_cal_seg
    register_at check_made check_created check_cal_seg set_calseg rcu_init rcu_reset
two_segments-IsWf = init_cal_seg_list-Steps-IsWf still still_keeps some_list refl (
    Steps.and_then one_segment-Steps (
      Kept.Step.create {i = 1} (108 ∷ []) small_segment.b 12 true (omega arith) (omega arith) refl))

-- three writes to it, the second one beyond its end
abbrev some_writes : List (ℕ × List ℕ)
some_writes = (0x80010002, 7 ∷ 9 ∷ []) ∷ (0x8001000b, 1 ∷ 2 ∷ []) ∷ (0x80010003, 5 ∷ []) ∷ []

write_all-shown_example :
    shown 2 ((write_all still some_writes (begin_atomic_transaction still two_segments)).calsegs 1)
    ≡ shown 2 (two_segments.calsegs 1)
unfolding write_all begin_atomic_transaction cal_seg_write_memory write_page init_cal_seg_list
    create_cal_seg create_cal_seg_ find_cal_seg first_calseg new_cal_seg cal_mem_alloc new_in
    init_cal_seg load_default start_access register_made register_cal_seg register_at check_made
    check_created check_cal_seg set_calseg rcu_init rcu_reset
write_all-shown_example =
    write_all-shown still some_writes two_segments 1 2 two_segments-IsWf (omega arith) (omega arith)

transaction-shown_example :
    let l' = write_all still some_writes (begin_atomic_transaction still two_segments) in
    shown 2 ((end_atomic_transaction still l').1.calsegs 1)
    ≡ (l'.calsegs 1).b ((l'.calsegs 1).xcp_page + 2)
unfolding write_all begin_atomic_transaction cal_seg_write_memory write_page init_cal_seg_list
    create_cal_seg create_cal_seg_ find_cal_seg first_calseg new_cal_seg cal_mem_alloc new_in
    init_cal_seg load_default start_access register_made register_cal_seg register_at check_made
    check_created check_cal_seg set_calseg rcu_init rcu_reset
transaction-shown_example =
    transaction-shown still some_writes two_segments 1 2 two_segments-IsWf (omega arith)
      (omega arith) (omega arith) refl refl (λ e. absurd (omega (arith, e))) refl refl

set_cal_page-get_cal_page_example :
    let (r, l') = set_cal_page 1 1 0x83 two_segments in
    ((r ≡ crc_access_denied)
      × (l' ≡ two_segments)
      × ((get_cal_seg_index 1 two_segments ≡ xcp_undefined_calseg) ⊎ (1 < 1)))
    ⊎ ((r ≡ crc_cmd_ok)
        × (get_cal_page 1 1 l' ≡ (if has_mode 1 0x83 then 1 else get_cal_page 1 1 two_segments))
        × (get_cal_page 1 2 l' ≡ (if has_mode 2 0x83 then 1 else get_cal_page 1 2 two_segments))
        × ((i : ℕ)
            → i < get_cal_seg_count two_segments
            → l'.calsegs i ≡ (
                if has_mode 0x80 0x83 || i == get_cal_seg_index 1 two_segments
                then set_access 1 0x83 (two_segments.calsegs i)
                else two_segments.calsegs i)))
set_cal_page-get_cal_page_example = set_cal_page-get_cal_page 1 1 0x83 two_segments

-- an application without memory of its own
abbrev small_host : Host
small_host = record {
  State = Unit;
  readers = still;
  write_app = λ dst src w. (crc_access_denied, w);
  read_app = λ src n w. (crc_access_denied, []);
  read_file = λ n addr. none;
  base_addr = 0x4000;
  check_memory = λ ext addr n. crc_cmd_ok;
  user_command = λ cmd w. (crc_access_denied, w);
  get_id_length = λ id w. (3, w);
  get_id_data = λ id n w. (2, 120 ∷ 99 ∷ []);
  epk = 0x5000;
  name_address = λ i. 0x6000 + 64 * i;
  freeze = λ i c w. (true, w);
}

abbrev small_world : CalWorld Unit
small_world = record { cals = two_segments; host = tt }

abbrev null_mta : Mta
null_mta = record { mta_ptr = 0; mta_addr = 0; mta_ext = 0; memory = small_segment.b }

write_mta_seg-read_mta_example :
    let b = cal_backend small_host in
    let addr = encode_seg_number 1 3 in
    let (r1, m1, w1) =
      write_mta b (4 ∷ 5 ∷ []) (set_mta b xcp_addr_ext_seg addr null_mta).1 small_world in
    let (r2, back, m2) = read_mta b 2 (set_mta b xcp_addr_ext_seg addr m1).1 w1 in
    (w1.host ≡ tt)
    × (((r1 ≡ crc_access_denied)
          × (w1.cals ≡ two_segments)
          × RefusesAt 1 3 (4 ∷ 5 ∷ []) two_segments)
        ⊎ ((r1 ≡ crc_cmd_ok)
            × (r2 ≡ crc_cmd_ok)
            × (back ≡ 4 ∷ 5 ∷ [])
            × ((src n : ℕ)
                → decode_seg_number src ≢ 1
                → cal_seg_read_memory src n w1.cals ≡ cal_seg_read_memory src n two_segments)))
write_mta_seg-read_mta_example =
    write_mta_seg-read_mta small_host 1 3 (4 ∷ 5 ∷ []) null_mta small_world (omega arith)
      (omega arith)

abbrev cal_app : App (CalWorld Unit)
cal_app = record {
  connect = λ mode w. (true, w);
  prepare_daq = λ w. (true, w);
  publish_all = λ w. record w { cals = (cal_seg_publish_all still true w.cals).1 };
  disconnect = λ w. w;
  clock = λ w. 1000;
  clock_state = λ w. 1;
  check_memory = λ ext addr size. crc_cmd_ok;
}

abbrev cal_session : Session (CalWorld Unit)
cal_session = record {
  xcp = configured;
  mta = null_mta;
  world = small_world;
  crm = cleared;
  crm_len = 0;
  cmd_pending = false;
  cmd_pending_crm = cleared;
  cmd_pending_crm_len = 0;
  sent = [];
}

-- the other commands are unknown
abbrev no_others : Bool → Bytes → ℕ → Session (CalWorld Unit) → Reply (CalWorld Unit)
no_others async cmd len s = negative 32 s

-- SET_CAL_PAGE of segment 1 to page 1
abbrev set_page_1 : Bytes
set_page_1 = put8 (put8 (put8 (put8 cleared 0 0xeb) 1 3) 2 1) 3 1
