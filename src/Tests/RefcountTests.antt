-- ===== src/Tests/RefcountTests.antt =====
-- The calibration segments with reference counts at one small segment with three pages, and two
-- threads that lock it.
use xcplite.Prelude.{ℕ, ◌+◌, ◌*◌, ◌%◌, ◌<◌, ◌≡◌, ◌≢◌, inr, refl, arith, true, ◌==◌, if◌then◌else◌}
use xcplite.Cal.{xcp_calpage_working_page, default_page_offset, copy_within}
use xcplite.Cal.Refcount.{
  RefSeg, aligned_size, rcu_page, pin, refcount_init, refcount_lock, refcount_unlock,
  refcount_try_publish,
}
use xcplite.Cal.Refcount.Steps.{
  idle, retry, loaded, pinned, reading, reading_default, rest, filling, filled, System, Step,
  reader_step, writer_step, Reach, here, then_step, set_reader, choose_working, load, pin_page,
  still_published, begin_search, take_free, copy_rest,
}
use xcplite.Cal.Refcount.Safety.{Reach-stable}
use xcplite.Cal.Refcount.Publish.{refcount_try_publish-refcount_lock}
use xcplite.Cal.Refcount.Runs.{ReaderRun, WriterRun, inside, refcount-Runs}

abbrev small_segment : RefSeg
small_segment = record {
  published_page = 0;
  xcp_page = 0;
  page_refs = λ p. 0;
  size = 8;
  ecu_access = 0;
  b = λ i. i * i % 256;
}

abbrev fresh : RefSeg
fresh = refcount_init 3 (aligned_size 8) small_segment

-- One thread is inside with the published page 1, and the server fills page 2.
abbrev half_way : System
half_way = record {
  seg = pin 1 fresh;
  readers =
      set_reader 0 (reading 1)
        (set_reader 0 (pinned 1) (set_reader 0 (loaded 1) (set_reader 0 retry (λ i. idle))));
  writer = filling 2;
}

abbrev copied : System
copied = record {
  seg = record half_way.seg { b = copy_within 24 8 8 half_way.seg.b };
  readers = half_way.readers;
  writer = filled 2;
}

half_way-Reach : Reach 3 2 fresh half_way
unfolding refcount_init
half_way-Reach =
    let r1 = then_step here (reader_step 0 (omega arith) (choose_working refl)) in
    let r2 = then_step r1 (reader_step 0 (omega arith) load) in
    let r3 = then_step r2 (reader_step 0 (omega arith) pin_page) in
    let r4 = then_step r3 (reader_step 0 (omega arith) (still_published refl)) in
    let r5 = then_step r4 (writer_step begin_search) in
    then_step r5 (writer_step (take_free (omega arith) refl))

copied-Step : Step 3 2 half_way copied
unfolding refcount_init
copied-Step = writer_step copy_rest

Reach-stable_example :
    copied.seg.b (rcu_page half_way.seg 1 + 3) ≡ half_way.seg.b (rcu_page half_way.seg 1 + 3)
unfolding refcount_init
Reach-stable_example =
    Reach-stable 3 2 small_segment {s = half_way} {t = copied} 1 3 (omega arith) (λ q. refl)
      half_way-Reach copied-Step (inr (0, omega arith, refl)) (omega arith)

-- two threads hold the published page
abbrev held_twice : RefSeg
held_twice = record fresh { page_refs = λ p. if p == 1 then 2 else 0 }

refcount_try_publish-refcount_lock_example :
    let (done, c') = refcount_try_publish 3 held_twice in
    let (page, c'') = refcount_lock 3 c' in
    (done ≡ true)
    × (c'.published_page ≢ held_twice.published_page)
    × (held_twice.page_refs c'.published_page ≡ 0)
    × ((k : ℕ)
        → k < held_twice.size
        → (c''.b (page + k) ≡ held_twice.b (held_twice.xcp_page + k))
          × (c''.b (c''.xcp_page + k) ≡ held_twice.b (held_twice.xcp_page + k)))
unfolding refcount_init
refcount_try_publish-refcount_lock_example =
    refcount_try_publish-refcount_lock 3 held_twice 2 refl refl (omega arith) (omega arith)
      (omega arith) (omega arith) (omega arith) refl

refcount-Runs_example :
    let (page, c') = refcount_lock 3 held_twice in
    ReaderRun held_twice idle c' (inside held_twice)
    × (page ≡ (
        if held_twice.ecu_access == xcp_calpage_working_page
        then rcu_page held_twice held_twice.published_page
        else default_page_offset))
    × ReaderRun held_twice (reading 1) (refcount_unlock 3 (rcu_page held_twice 1) held_twice) idle
    × ReaderRun held_twice reading_default (refcount_unlock 3 default_page_offset held_twice) idle
    × WriterRun 3 held_twice rest (refcount_try_publish 3 held_twice).1 rest
unfolding refcount_init
refcount-Runs_example = refcount-Runs 3 held_twice 1 (omega arith) (omega arith) (omega arith)
