-- ===== src/Queue/Inv.antt =====
-- The well-formedness of the transmit queue of src/queue32.c, kept by every operation.
use xcplite.Prelude.{
  ℕ, ◌+◌, ◌-◌, ◌%◌, ◌≤◌, ◌<◌, ◌≡◌, refl, subst, inl, inr, arith, not, ◌&&◌, Bool, false, Option,
  none, some, ltb, leb, if◌then◌else◌, Bool-cases, Option-cases, if_cases,
}
use xcplite.Memory.{put16}
use xcplite.Queue.{
  Queue, QueueBuffer, set_segment, new_segment_buffer, queue_clear, reserve, no_space,
  queue_acquire, queue_push, queue_release, make_space, reserve_at, padded_size, is_filling,
}

-- the segment behind `k` others, from the read index on
abbrev pub ring_index : Queue → ℕ → ℕ
ring_index q k =
    if leb q.queue_size (q.queue_rp + k) then q.queue_rp + k - q.queue_size else q.queue_rp + k

-- where the messages go: nowhere, or to the last of the segments that are in use
abbrev pub IsLast : Queue → Option ℕ → Type 0
IsLast q none = Unit
IsLast q (some i) = (0 < q.queue_len) × (i ≡ ring_index q (q.queue_len - 1))

-- The indices are in the ring, no segment is filled beyond its size, and it is filled in words.
pub record IsWf (q : Queue) : Type 0 where
  pub read_index : q.queue_rp < q.queue_size
  pub used : q.queue_len ≤ q.queue_size
  pub last : IsLast q q.msg_ptr
  pub sizes : (i : ℕ) → ((q.queue i).size ≤ 1472) × ((q.queue i).size % 4 ≡ 0)

pub new_segment_buffer-IsWf : (q : Queue) → IsWf q → IsWf (new_segment_buffer q)
unfolding new_segment_buffer set_segment
new_segment_buffer-IsWf q v = elim (Bool-cases (leb q.queue_size q.queue_len)) [
  | inl full ↦
      rw full (record { read_index = v.read_index; used = v.used; last = tt; sizes = v.sizes })
  | inr room ↦ rw room (record {
    read_index = v.read_index;
    used = ground (arith, v.used);
    last = ground (arith, v.read_index);
    sizes = λ i. ground (arith, v.sizes i);
  })
]

pub queue_clear-IsWf : (q : Queue) → IsWf q → IsWf (queue_clear q)
unfolding queue_clear
queue_clear-IsWf q v = record {
  read_index = ground (arith, v.read_index);
  used = omega arith;
  last = tt;
  sizes = v.sizes;
}

-- Releasing the segment that was popped, while another one is in use.
pub queue_release-IsWf : (q : Queue) → 1 < q.queue_len → IsWf q → IsWf (queue_release q)
unfolding queue_release
queue_release-IsWf q h v = record {
  read_index = ground (arith, v.read_index);
  used = omega (arith, v.used);
  last = elim (Option-cases q.msg_ptr) [
    | inl e ↦ rw e tt
    | inr (i, e) ↦ rw e (ground (arith, v.read_index, v.used, subst (IsLast q) e v.last))
  ];
  sizes = v.sizes;
}

reserve-IsWf :
    (size i : ℕ) (q : Queue)
    → IsWf q
    → (q.queue i).size + size + 4 ≤ 1472
    → size % 4 ≡ 0
    → IsWf (reserve size i q).1
unfolding reserve set_segment
reserve-IsWf size i q v fits words = record {
  read_index = v.read_index;
  used = v.used;
  last = v.last;
  sizes = λ k. ground (arith, v.sizes k, v.sizes i);
}

-- the message fits the segment that the search for space found
abbrev pub Fits : ℕ → Queue → Option ℕ → Type 0
Fits size q none = Unit
Fits size q (some i) = (q.queue i).size + size + 4 ≤ 1472

new_segment_buffer-Fits :
    (size : ℕ) (q : Queue)
    → size ≤ 1024
    → Fits size (new_segment_buffer q) (new_segment_buffer q).msg_ptr
unfolding new_segment_buffer set_segment
new_segment_buffer-Fits size q h = elim (Bool-cases (leb q.queue_size q.queue_len)) [
  | inl full ↦ rw full tt
  | inr room ↦ rw room (ground arith)
]

no_space-Fits :
    (size : ℕ) (q : Queue) (p : Option ℕ)
    → q.msg_ptr ≡ p
    → IsWf q
    → size ≤ 1024
    → no_space (size + 4) q ≡ false
    → Fits size q p
unfolding no_space
no_space-Fits size q none e v h k = tt
no_space-Fits size q (some i) e v h k = ground (arith, v.sizes i)

pub make_space-Fits :
    (size : ℕ) (q : Queue)
    → IsWf q
    → size ≤ 1024
    → IsWf (make_space size q) × Fits size (make_space size q) (make_space size q).msg_ptr
unfolding make_space
make_space-Fits size q v h = elim (Bool-cases (no_space (size + 4) q)) [
  | inl full ↦ rw full (new_segment_buffer-IsWf q v, new_segment_buffer-Fits size q h)
  | inr room ↦ rw room (v, no_space-Fits size q q.msg_ptr refl v h room)
]

reserve_at-IsWf :
    (size : ℕ) (p : Option ℕ) (q : Queue)
    → IsWf q
    → Fits size q p
    → size % 4 ≡ 0
    → IsWf (reserve_at size p q).1
unfolding reserve_at
reserve_at-IsWf size none q v f h = record {
  read_index = v.read_index;
  used = v.used;
  last = v.last;
  sizes = v.sizes;
}
reserve_at-IsWf size (some i) q v f h = reserve-IsWf size i q v f h

pub queue_acquire-IsWf : (n : ℕ) (q : Queue) → IsWf q → IsWf (queue_acquire n q).1
unfolding queue_acquire
queue_acquire-IsWf n q v = elim (Bool-cases (not (ltb 0 n && leb n 1024))) [
  | inl bad ↦ rw bad v
  | inr ok ↦
      let (v1, f) = make_space-Fits (padded_size n) q v (ground arith) in
      rw ok (
        reserve_at-IsWf (padded_size n) (make_space (padded_size n) q).msg_ptr
          (make_space (padded_size n) q) v1 f (ground arith))
]

committed : QueueBuffer → Queue → Queue
unfolding set_segment
committed b q = record q {
  queue = set_segment q.queue b.handle (record (q.queue b.handle) {
    uncommitted = ((q.queue b.handle).uncommitted + 65535) % 65536;
    msg_buffer = put16 (q.queue b.handle).msg_buffer (b.buffer - 2) 0xcccc;
  });
}

committed-IsWf : (b : QueueBuffer) (q : Queue) → IsWf q → IsWf (committed b q)
unfolding committed set_segment
committed-IsWf b q v = record {
  read_index = v.read_index;
  used = v.used;
  last = v.last;
  sizes = λ i. ground (arith, v.sizes i, v.sizes b.handle);
}

pub queue_push-IsWf :
    (b : QueueBuffer) (flush : Bool) (q : Queue) → IsWf q → IsWf (queue_push b flush q)
unfolding queue_push committed
queue_push-IsWf b flush q v =
    if_cases IsWf (flush && is_filling (committed b q))
      (λ _. new_segment_buffer-IsWf (committed b q) (committed-IsWf b q v))
      (λ _. committed-IsWf b q v)
