-- ===== src/Queue/Init.antt =====
-- The transmit queue of src/queue32.c from its creation on: the allocated segments fit the
-- allocated bytes, and every queue that the operations reach is well-formed.
use xcplite.Prelude.{
  ℕ, ◌*◌, ◌/◌, ◌≤◌, ◌<◌, ◌≡◌, refl, subst, sym, ap, ◌∙◌, arith, Bool, false, leb, Option, none,
  some,
}
use xcplite.Queue.{
  Queue, QueueBuffer, Popped, queue_clear, allocated_size, fresh_queue, check_active, queue_init,
  new_segment_buffer, queue_acquire, queue_push, queue_pop, queue_release, set_segment,
}
use xcplite.Queue.Inv.{
  IsWf, queue_clear-IsWf, queue_release-IsWf, queue_acquire-IsWf, queue_push-IsWf,
}
use xcplite.Queue.Size.{queue_acquire-queue_size, queue_pop-queue_size, queue_push-queue_size}
use xcplite.Queue.Take.{queue_pop-PopsWell}

check_active-some : (q : Queue) (i : ℕ) → q.msg_ptr ≡ some i → check_active q ≡ some q
unfolding check_active
check_active-some q i e =
    subst (λ p. (elim p as (λ _. Option Queue) [ none ↦ none | some i ↦ some q ]) ≡ some q) (sym e)
      refl

fresh_queue-msg_ptr : (n : ℕ) → n ≤ 4294965752 → (fresh_queue n).msg_ptr ≡ some 0
unfolding fresh_queue new_segment_buffer
fresh_queue-msg_ptr n small = rw room refl
  where
    room : leb (allocated_size n / 1480) 0 ≡ false
    room = ground (arith, small)

-- For a request of at most 4294965752 bytes, which stays below 2 ^ 32 when it is rounded up,
-- `queueInit` makes a well-formed queue of at least one segment, one of them active. Its segments
-- lie in the allocated bytes and hold the requested ones.
queue_init-IsWf :
    (n : ℕ)
    → n ≤ 4294965752
    → let q = fresh_queue n in
      (queue_init n ≡ some q)
      × IsWf q
      × (0 < q.queue_size)
      × (q.queue_size * 1480 ≤ allocated_size n)
      × (n ≤ q.queue_size * 1480)
unfolding queue_init fresh_queue new_segment_buffer set_segment
queue_init-IsWf n small = (
  check_active-some (fresh_queue n) 0 (fresh_queue-msg_ptr n small),
  rw room (record {
    read_index = some_size;
    used = some_size;
    last = ground (arith, some_size);
    sizes = λ i. ground arith;
  }),
  rw room some_size,
  rw room (omega arith),
  rw room enough,
)
  where
    size : ℕ
    size = allocated_size n / 1480

    enough : n ≤ size * 1480
    enough = omega (arith, small)

    some_size : 0 < size
    some_size = omega (arith, small)

    room : leb size 0 ≡ false
    room = ground (arith, some_size)

-- The operations of the producers and of the consumer, one after the other under the mutex. A
-- segment is released while another one is in use, as it is behind a `queuePop` that returned one.
pub data Step : Queue → Queue → Type 0 where
  acquire : (n : ℕ) (q : Queue) → Step q (queue_acquire n q).1
  push : (b : QueueBuffer) (flush : Bool) (q : Queue) → Step q (queue_push b flush q)
  pop :
      (flush : Bool) (ctr : ℕ) (q : Queue) (r : Popped)
      → queue_pop flush ctr q ≡ some r
      → Step q r.queue
  release : (q : Queue) → 1 < q.queue_len → Step q (queue_release q)
  clear : (q : Queue) → Step q (queue_clear q)

pub data Steps : Queue → Queue → Type 0 where
  stop : (q : Queue) → Steps q q
  more : (q q' r : Queue) → Steps q q' → Step q' r → Steps q r

-- what `some` holds
abbrev held : Popped → Option Popped → Popped
held r none = r
held r (some x) = x

Step-IsWf : {q r : Queue} → Step q r → IsWf q → IsWf r
Step-IsWf (acquire n q) v = queue_acquire-IsWf n q v
Step-IsWf (push b flush q) v = queue_push-IsWf b flush q v
Step-IsWf (pop flush ctr q r e) v =
    let (x, out, lost, reset, good, popped) = queue_pop-PopsWell flush ctr q v in
    subst (λ (r : Popped). IsWf r.queue) (ap (held r) (sym out ∙ e)) good
Step-IsWf (release q h) v = queue_release-IsWf q h v
Step-IsWf (clear q) v = queue_clear-IsWf q v

Step-queue_size : {q r : Queue} → Step q r → r.queue_size ≡ q.queue_size
unfolding queue_release queue_clear
Step-queue_size (acquire n q) = queue_acquire-queue_size n q
Step-queue_size (push b flush q) = queue_push-queue_size b flush q
Step-queue_size (pop flush ctr q r e) = queue_pop-queue_size flush ctr q r e
Step-queue_size (release q h) = refl
Step-queue_size (clear q) = refl

Steps-IsWf : {q r : Queue} → Steps q r → IsWf q → IsWf r × (r.queue_size ≡ q.queue_size)
Steps-IsWf (stop q) v = (v, refl)
Steps-IsWf (more q q' r s t) v =
    let (v', same) = Steps-IsWf s v in (Step-IsWf t v', Step-queue_size t ∙ same)

-- For a request of at most 4294965752 bytes, which stays below 2 ^ 32 when it is rounded up:
-- `queueInit` returns a queue, its last assertion holds, and whatever the producers and the consumer
-- do one after the other from then on, where a segment is released only while another one is in
-- use, the queue stays well-formed. It has at least one
-- segment, and its segments lie in the allocated bytes and hold the requested ones.
pub queue_init-Steps-IsWf :
    (n : ℕ) (q : Queue)
    → n ≤ 4294965752
    → Steps (fresh_queue n) q
    → (queue_init n ≡ some (fresh_queue n))
      × IsWf q
      × (0 < q.queue_size)
      × (q.queue_size * 1480 ≤ allocated_size n)
      × (n ≤ q.queue_size * 1480)
queue_init-Steps-IsWf n q small s =
    let (returns, v, some_segment, room, enough) = queue_init-IsWf n small in
    let (v', same) = Steps-IsWf s v in
    (returns, v', omega (arith, same, some_segment), rw same room, rw same enough)
