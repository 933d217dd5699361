-- ===== src/Queue/Take.antt =====
-- The consumer side of the transmit queue, src/queue32.c: `queuePop` returns, whatever the
-- segment holds, and keeps the queue well-formed.
use xcplite.Prelude.{
  ℕ, zero, suc, ◌+◌, ◌*◌, ◌%◌, ◌≤◌, ◌<◌, ◌≡◌, refl, sym, subst, inl, inr, arith, ◌&&◌, Bool, true,
  Option, none, some, ltb, leb, ◌==◌, Bool-cases, if_cases,
}
use xcplite.Memory.{Bytes, get16, put16}
use xcplite.Queue.{
  Queue, QueueBuffer, Popped, set_segment, new_segment_buffer, number_messages, flush_tail,
  is_ready, pop_segment, number_segment, pop_found, queue_pop,
}
use xcplite.Queue.Inv.{IsWf, new_segment_buffer-IsWf}

module _ (size : ℕ) where
  IsTotal : ℕ → ℕ → ℕ → Bytes → Type 0
  IsTotal fuel p ctr m = (r : ℕ × Bytes) × (number_messages fuel p size ctr m ≡ some r)

  -- The walk over the messages of a segment ends: every step goes on by the header at least.
  number_messages-IsTotal :
      (fuel p ctr : ℕ) (m : Bytes) → size ≤ p + 4 * fuel + 4 → IsTotal (suc fuel) p ctr m
  unfolding number_messages IsTotal
  number_messages-IsTotal zero p ctr m h = ((ctr, m), ground arith)
  number_messages-IsTotal (suc fuel) p ctr m h = elim (Bool-cases (ltb (p + 4) size)) [
    | inl more ↦
        let (r, e) =
          number_messages-IsTotal fuel (p + get16 m p + 4) ((ctr + 1) % 65536) (put16 m (p + 2) ctr)
            (omega arith) in
        (r, rw more e)
    | inr done ↦ ((ctr, m), rw done refl)
  ]

-- A segment that is returned: the one at the read index, committed and not empty, and not the one
-- that is being filled.
abbrev pub IsPopped : Popped → Option QueueBuffer → Type 0
IsPopped r none = Unit
IsPopped r (some b) =
    (b.handle ≡ r.queue.queue_rp)
    × (b.buffer ≡ 0)
    × (b.size ≡ (r.queue.queue b.handle).size)
    × (0 < b.size)
    × (b.size ≤ 1472)
    × ((r.queue.queue b.handle).uncommitted ≡ 0)
    × (1 < r.queue.queue_len)

abbrev pub PopsWell : Queue → Option Popped → Type 0
PopsWell q out =
    (r : Popped) × (out ≡ some r)
    × (r.lost ≡ q.packets_lost)
    × (r.queue.packets_lost ≡ 0)
    × IsWf r.queue
    × IsPopped r r.segment

flush_tail-IsWf : (flush : Bool) (q : Queue) → IsWf q → IsWf (flush_tail flush q)
unfolding flush_tail
flush_tail-IsWf flush q v =
    if_cases IsWf (q.queue_len == 1 && ltb 0 (q.queue q.queue_rp).size && flush)
      (λ _. new_segment_buffer-IsWf q v) (λ _. v)

rp-flush_tail :
    (flush : Bool) (q : Queue)
    → ((flush_tail flush q).queue_rp ≡ q.queue_rp)
      × ((flush_tail flush q).packets_lost ≡ q.packets_lost)
unfolding flush_tail new_segment_buffer
rp-flush_tail flush q = ground arith

number_segment-PopsWell :
    (q0 q : Queue) (ctr : ℕ)
    → IsWf q
    → q.packets_lost ≡ 0
    → is_ready q.queue_rp q ≡ true
    → PopsWell q0 (number_segment q0.packets_lost q.queue_rp ctr q)
unfolding is_ready number_segment set_segment IsTotal
number_segment-PopsWell q0 q ctr v lost ready =
    let b = q.queue q.queue_rp in
    let (r, e) =
      number_messages-IsTotal b.size 1499 0 ctr b.msg_buffer (omega (arith, v.sizes q.queue_rp)) in
    rw (e, number_segment)
      (
        _,
        refl,
        refl,
        lost,
        record {
          read_index = v.read_index;
          used = v.used;
          last = v.last;
          sizes = λ i. ground (arith, v.sizes i, v.sizes q.queue_rp);
        },
        ground (arith, v.sizes q.queue_rp),
      )

empty_pop :
    (q0 q : Queue) (ctr : ℕ)
    → IsWf q
    → q.packets_lost ≡ 0
    → PopsWell q0 (pop_found q0.packets_lost ctr none q)
unfolding pop_found
empty_pop q0 q ctr v lost = (_, refl, refl, lost, v, tt)

-- In a well-formed queue `queuePop` always returns. It reports and resets the count of lost packets
-- and leaves the queue well-formed; a segment that it returns is the oldest one, not empty and no
-- longer than XCPTL_MAX_SEGMENT_SIZE, without uncommitted messages, and not the one that is being
-- filled.
pub queue_pop-PopsWell :
    (flush : Bool) (ctr : ℕ) (q : Queue) → IsWf q → PopsWell q (queue_pop flush ctr q)
unfolding queue_pop pop_segment pop_found
queue_pop-PopsWell flush ctr q v = elim (Bool-cases (leb 1 q.queue_len)) [
  | inr empty ↦ rw empty (empty_pop q q0 ctr v0 refl)
  | inl some_left ↦ elim (Bool-cases (is_ready q.queue_rp q1)) [
    | inr stay ↦ rw (some_left, stay) (empty_pop q q1 ctr v1 ((rp-flush_tail flush q0).1))
    | inl go ↦
        rw (some_left, go)
          (subst (λ k. PopsWell q (number_segment q.packets_lost k ctr q1)) same
            (number_segment-PopsWell q q1 ctr v1 ((rp-flush_tail flush q0).1)
              (subst (λ k. is_ready k q1 ≡ true) (sym same) go)))
  ]
]
  where
    q0 : Queue
    q0 = record q { packets_lost = 0 }

    v0 : IsWf q0
    v0 = record { read_index = v.read_index; used = v.used; last = v.last; sizes = v.sizes }

    q1 : Queue
    q1 = flush_tail flush q0

    v1 : IsWf q1
    v1 = flush_tail-IsWf flush q0 v0

    same : q1.queue_rp ≡ q.queue_rp
    same = (rp-flush_tail flush q0).0
