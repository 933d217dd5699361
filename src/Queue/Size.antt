-- ===== src/Queue/Size.antt =====
-- The operations on the transmit queue of src/queue32.c keep the number of its segments.
use xcplite.Prelude.{
  ℕ, ◌+◌, ◌≡◌, refl, ◌∙◌, inl, inr, arith, Bool, not, ◌&&◌, ltb, leb, Option, none, some,
  Bool-cases, Option-cases, if_cases,
}
use xcplite.Queue.{
  Queue, QueueBuffer, Popped, new_segment_buffer, no_space, make_space, padded_size, reserve,
  reserve_at, queue_acquire, queue_push, flush_tail, pop_segment, number_messages, number_segment,
  pop_found, queue_pop,
}

new_segment_buffer-queue_size : (q : Queue) → (new_segment_buffer q).queue_size ≡ q.queue_size
unfolding new_segment_buffer
new_segment_buffer-queue_size q = ground arith

make_space-queue_size : (size : ℕ) (q : Queue) → (make_space size q).queue_size ≡ q.queue_size
unfolding make_space
make_space-queue_size size q =
    if_cases (λ (r : Queue). r.queue_size ≡ q.queue_size) (no_space (size + 4) q)
      (λ _. new_segment_buffer-queue_size q) (λ _. refl)

reserve_at-queue_size :
    (size : ℕ) (p : Option ℕ) (q : Queue) → (reserve_at size p q).1.queue_size ≡ q.queue_size
unfolding reserve_at reserve
reserve_at-queue_size size none q = refl
reserve_at-queue_size size (some i) q = refl

pub queue_acquire-queue_size : (n : ℕ) (q : Queue) → (queue_acquire n q).1.queue_size ≡ q.queue_size
unfolding queue_acquire
queue_acquire-queue_size n q =
    let q1 = make_space (padded_size n) q in
    elim (Bool-cases (not (ltb 0 n && leb n 1024))) [
      | inl bad ↦ rw bad refl
      | inr ok ↦ rw ok (
          reserve_at-queue_size (padded_size n) q1.msg_ptr q1
          ∙ make_space-queue_size (padded_size n) q)
    ]

pub queue_push-queue_size :
    (b : QueueBuffer) (flush : Bool) (q : Queue) → (queue_push b flush q).queue_size ≡ q.queue_size
unfolding queue_push new_segment_buffer
queue_push-queue_size b flush q = ground arith

flush_tail-queue_size : (flush : Bool) (q : Queue) → (flush_tail flush q).queue_size ≡ q.queue_size
unfolding flush_tail
flush_tail-queue_size flush q =
    if_cases (λ (r : Queue). r.queue_size ≡ q.queue_size) _ (λ _. new_segment_buffer-queue_size q)
      (λ _. refl)

pop_segment-queue_size :
    (flush : Bool) (q : Queue) → (pop_segment flush q).1.queue_size ≡ q.queue_size
unfolding pop_segment
pop_segment-queue_size flush q =
    let same = flush_tail-queue_size flush (record q { packets_lost = 0 }) in ground (arith, same)

pop_found-queue_size :
    (lost ctr : ℕ) (found : Option ℕ) (q : Queue) (r : Popped)
    → pop_found lost ctr found q ≡ some r
    → r.queue.queue_size ≡ q.queue_size
unfolding pop_found number_segment
pop_found-queue_size lost ctr none q r e = ground (arith, e)
pop_found-queue_size lost ctr (some i) q r e =
    elim (Option-cases (number_messages 1500 0 (q.queue i).size ctr (q.queue i).msg_buffer)) [
      | inl stuck ↦ ground (arith, e, stuck)
      | inr (m, done) ↦ ground (arith, e, done)
    ]

pub queue_pop-queue_size :
    (flush : Bool) (ctr : ℕ) (q : Queue) (r : Popped)
    → queue_pop flush ctr q ≡ some r
    → r.queue.queue_size ≡ q.queue_size
unfolding queue_pop
queue_pop-queue_size flush ctr q r e =
    let (found, q') = pop_segment flush q in
    pop_found-queue_size q.packets_lost ctr found q' r e ∙ pop_segment-queue_size flush q
