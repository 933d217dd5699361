-- ===== src/Queue/Reserve.antt =====
-- The producer side of the transmit queue, src/queue32.c: what `queueAcquire` hands out.
use xcplite.Prelude.{
  ℕ, ◌+◌, ◌-◌, ◌%◌, ◌≤◌, ◌<◌, ◌≡◌, refl, ◌≢◌, ◌⊎◌, inl, inr, arith, not, ◌&&◌, false, Option, none,
  some, ltb, leb, Bool-cases,
}
use xcplite.Memory.{get16, put16}
use xcplite.Queue.{
  Queue, QueueBuffer, set_segment, new_segment_buffer, padded_size, reserve, no_space, make_space,
  reserve_at, queue_acquire,
}
use xcplite.Queue.Inv.{IsWf, IsLast, Fits, make_space-Fits}

-- The queue is full, and the message is counted as lost; no segment changes.
abbrev pub IsLost : Queue → Queue → Type 0
IsLost q q' =
    (q.queue_len ≡ q.queue_size)
    × (q'.packets_lost ≡ (q.packets_lost + 1) % 4294967296)
    × (q'.queue_len ≡ q.queue_len)
    × (q'.queue_rp ≡ q.queue_rp)
    × ((i : ℕ) → q'.queue i ≡ q.queue i)

-- where the messages of the segment `k` ended before, and whether it is another segment
abbrev pub IsBehind : Queue → Queue → ℕ → ℕ → Type 0
IsBehind q q' k end =
    ((q.msg_ptr ≡ some k) × (end ≡ (q.queue k).size) × (q'.queue_len ≡ q.queue_len))
    ⊎ ((end ≡ 0) × (q'.queue_len ≡ q.queue_len + 1))

-- The buffer holds the packet, padded to words, at the end of the last segment in use and within
-- it, behind a header with its size and the mark of a reserved message. The header stands where the
-- messages of the active segment ended, or at the start of one more segment. The other segments, and
-- the bytes in front of the header, are those of the queue before.
abbrev pub IsReserved : ℕ → Queue → Queue → QueueBuffer → Type 0
IsReserved n q q' b =
    IsLast q' (some b.handle)
    × (n ≤ b.size)
    × (b.size < n + 4)
    × (b.size % 4 ≡ 0)
    × (b.buffer + b.size ≡ (q'.queue b.handle).size)
    × (b.buffer + b.size ≤ 1472)
    × ((end : ℕ) × (b.buffer ≡ end + 4) × IsBehind q q' b.handle end)
    × (get16 (q'.queue b.handle).msg_buffer (b.buffer - 4) ≡ b.size)
    × (get16 (q'.queue b.handle).msg_buffer (b.buffer - 2) ≡ 0xeeee)
    × ((i : ℕ)
        → i + 4 < b.buffer
        → (q'.queue b.handle).msg_buffer i ≡ (q.queue b.handle).msg_buffer i)
    × ((i : ℕ) → i ≢ b.handle → q'.queue i ≡ q.queue i)

abbrev pub AcquiresWell : ℕ → Queue → Option QueueBuffer → Queue → Type 0
AcquiresWell n q none q' = IsLost q q'
AcquiresWell n q (some b) q' = IsReserved n q q' b

-- what the search for space does to the queue: nothing, or one more segment, or there is none
abbrev Found : Queue → Queue → Option ℕ → Type 0
Found q q1 none =
    (q.queue_len ≡ q.queue_size)
    × (q1.packets_lost ≡ q.packets_lost)
    × (q1.queue_len ≡ q.queue_len)
    × (q1.queue_rp ≡ q.queue_rp)
    × ((i : ℕ) → q1.queue i ≡ q.queue i)
Found q q1 (some k) =
    IsBehind q q1 k (q1.queue k).size
    × ((q1.queue k).msg_buffer ≡ (q.queue k).msg_buffer)
    × ((i : ℕ) → i ≢ k → q1.queue i ≡ q.queue i)

new_segment_buffer-Found :
    (q : Queue) → IsWf q → Found q (new_segment_buffer q) (new_segment_buffer q).msg_ptr
unfolding new_segment_buffer set_segment
new_segment_buffer-Found q v = elim (Bool-cases (leb q.queue_size q.queue_len)) [
  | inl full ↦ rw full (ground (arith, v.used), refl, refl, refl, λ i. refl)
  | inr room ↦ rw room (inr (ground arith, refl), ground arith, λ i ne. ground arith)
]

same-Found :
    (size : ℕ) (q : Queue) (p : Option ℕ) → q.msg_ptr ≡ p → no_space size q ≡ false → Found q q p
unfolding no_space
same-Found size q none e h = absurd (ground arith)
same-Found size q (some i) e h = (inl (e, refl, refl), refl, λ k ne. refl)

make_space-Found :
    (size : ℕ) (q : Queue) → IsWf q → Found q (make_space size q) (make_space size q).msg_ptr
unfolding make_space
make_space-Found size q v = elim (Bool-cases (no_space (size + 4) q)) [
  | inl full ↦ rw full (new_segment_buffer-Found q v)
  | inr room ↦ rw room (same-Found (size + 4) q q.msg_ptr refl room)
]

reserve_at-AcquiresWell :
    (n size : ℕ) (q q1 : Queue) (p : Option ℕ)
    → IsWf q1
    → q1.msg_ptr ≡ p
    → IsLast q1 p
    → Fits size q1 p
    → Found q q1 p
    → n ≤ size
    → size < n + 4
    → size % 4 ≡ 0
    → AcquiresWell n q (reserve_at size p q1).0 (reserve_at size p q1).1
unfolding reserve_at reserve set_segment get16 put16
reserve_at-AcquiresWell n size q q1 none v e l f (full, lost, len, rp, same) a b c =
    (full, omega (arith, lost), len, rp, same)
reserve_at-AcquiresWell n size q q1 (some k) v e l f (behind, buf, same) a b c = (
  l,
  a,
  b,
  c,
  ground arith,
  ground arith,
  ((q1.queue k).size, refl, behind),
  ground arith,
  ground arith,
  λ i lt. ground arith,
  λ i ne. ground (arith, same i),
)

-- In a well-formed queue, for a packet of 1 to XCPTL_MAX_DTO_SIZE bytes: `queueAcquire` either
-- hands out a buffer for the padded packet, marked as reserved, behind the messages of the active
-- segment and within it, or at the start of one more segment, with the bytes in front of it and the
-- other segments untouched; or all segments are in use, and then only the count of lost packets
-- changes in what they hold.
pub queue_acquire-AcquiresWell :
    (n : ℕ) (q : Queue)
    → IsWf q
    → 0 < n
    → n ≤ 1024
    → AcquiresWell n q (queue_acquire n q).0 (queue_acquire n q).1
unfolding queue_acquire
queue_acquire-AcquiresWell n q v h k =
    let size = padded_size n in
    let q1 = make_space size q in
    let (v1, f) = make_space-Fits size q v (ground arith) in
    rw ok (
      reserve_at-AcquiresWell n size q q1 q1.msg_ptr v1 refl v1.last f (make_space-Found size q v)
        (omega arith) (omega arith) (omega arith))
  where
    ok : not (ltb 0 n && leb n 1024) ≡ false
    ok = ground arith
