-- ===== src/Queue.antt =====
-- The transmit queue of src/queue32.c: a ring of segments, each a UDP payload into which messages
-- are put one behind the other. The mutex makes each operation one step; a pointer to a segment is
-- its index, and `none` is NULL.
pub mod Inv
pub mod Init
pub mod Reserve
pub mod Take
pub mod Order
pub mod Size
use xcplite.Prelude.{
  ℕ, zero, suc, ◌+◌, ◌-◌, ◌*◌, ◌/◌, ◌%◌, ◌^◌, not, ◌&&◌, ◌||◌, Bool, true, false, Option, none,
  some,
}
use xcplite.Prelude.{ltb, leb, ◌==◌, if◌then◌else◌}
use xcplite.Config.{xcptl_max_dto_size, xcptl_max_segment_size, segment_buffer_size}
use xcplite.Memory.{Bytes, cleared, get16, put16}

-- `tXcpSegmentBuffer`
pub record Segment : Type 0 where
  pub uncommitted : ℕ
  pub size : ℕ
  pub msg_buffer : Bytes

-- `struct Queue`
pub record Queue : Type 0 where
  pub queue_size : ℕ
  pub queue : ℕ → Segment
  pub queue_rp : ℕ
  pub queue_len : ℕ
  pub msg_ptr : Option ℕ
  pub packets_lost : ℕ

-- `tQueueBuffer`: the segment, the offset of the packet in its buffer, and the size.
pub record QueueBuffer : Type 0 where
  pub handle : ℕ
  pub buffer : ℕ
  pub size : ℕ

unfoldable pub set_segment : (ℕ → Segment) → ℕ → Segment → ℕ → Segment
set_segment q i s k = if k == i then s else q k

-- `newSegmentBuffer`
unfoldable pub new_segment_buffer : Queue → Queue
unfolding set_segment
new_segment_buffer q =
    let j = q.queue_rp + q.queue_len in
    let i = if leb q.queue_size j then j - q.queue_size else j in
    if leb q.queue_size q.queue_len then record q { msg_ptr = none } else record q {
      queue = set_segment q.queue i (record (q.queue i) { size = 0; uncommitted = 0 });
      msg_ptr = some i;
      queue_len = q.queue_len + 1;
    }

-- `clearQueue`, `queueClear`
pub queue_clear : Queue → Queue
queue_clear q = record q { queue_rp = 0; queue_len = 0; msg_ptr = none }

-- the bytes that `queueInit` allocates: whole segments, rounded up to a cache line of 64 bytes, in a
-- uint32_t; size_t has 64 bits, in which the mask of 32 bits clears the upper ones too.
abbrev pub allocated_size : ℕ → ℕ
allocated_size queue_buffer_size =
    let queue_entries = queue_buffer_size / segment_buffer_size + 1 in
    ((queue_entries * segment_buffer_size + 63) % 2 ^ 64 / 64 * 64) % 2 ^ 32

-- `queueInit` up to its last assertion
unfoldable pub fresh_queue : ℕ → Queue
unfolding new_segment_buffer
fresh_queue queue_buffer_size = new_segment_buffer (record {
  queue_size = allocated_size queue_buffer_size / segment_buffer_size;
  queue = λ i. record { uncommitted = 0; size = 0; msg_buffer = cleared };
  queue_rp = 0;
  queue_len = 0;
  msg_ptr = none;
  packets_lost = 0;
})

-- assert(queue->msg_ptr)
pub check_active : Queue → Option Queue
check_active q = elim q.msg_ptr [ none ↦ none | some i ↦ some q ]

-- `queueInit`; `none`: the assertion fails that a segment is active, as it does where the size wraps
-- around and there is no segment.
pub queue_init : ℕ → Option Queue
queue_init queue_buffer_size = check_active (fresh_queue queue_buffer_size)

-- (packet_size + 3) & ~3
abbrev pub padded_size : ℕ → ℕ
padded_size packet_size = (packet_size + 3) / 4 * 4 % 65536

-- The message at the end of the segment `i`: its header, with the reserved counter 0xEEEE.
unfoldable pub reserve : ℕ → ℕ → Queue → QueueBuffer × Queue
unfolding set_segment
reserve packet_size i q =
    let b = q.queue i in
    let buf = put16 (put16 b.msg_buffer (b.size + 2) 0xeeee) b.size packet_size in
    (
      record { handle = i; buffer = b.size + 4; size = packet_size },
      record q {
        queue = set_segment q.queue i (record {
          uncommitted = (b.uncommitted + 1) % 65536;
          size = (b.size + packet_size + 4) % 65536;
          msg_buffer = buf;
        });
      },
    )

-- no segment, or no space for `msg_size` bytes in it
unfoldable pub no_space : ℕ → Queue → Bool
no_space msg_size q = elim q.msg_ptr [
  | none ↦ true
  | some i ↦ ltb xcptl_max_segment_size (((q.queue i).size + msg_size) % 65536)
]

-- Another segment when the active one is full.
unfoldable pub make_space : ℕ → Queue → Queue
unfolding no_space new_segment_buffer
make_space size q = if no_space (size + 4) q then new_segment_buffer q else q

-- The message in the segment, or a packet lost.
unfoldable pub reserve_at : ℕ → Option ℕ → Queue → Option QueueBuffer × Queue
unfolding reserve
reserve_at size none q = (none, record q { packets_lost = (q.packets_lost + 1) % 4294967296 })
reserve_at size (some i) q = let (buffer, q') = reserve size i q in (some buffer, q')

-- `queueAcquire`; `none` is a NULL buffer.
unfoldable pub queue_acquire : ℕ → Queue → Option QueueBuffer × Queue
unfolding make_space reserve_at
queue_acquire packet_size q =
    let q1 = make_space (padded_size packet_size) q in
    if not (ltb 0 packet_size && leb packet_size xcptl_max_dto_size)
    then (none, q)
    else reserve_at (padded_size packet_size) q1.msg_ptr q1

-- queue->msg_ptr != NULL && queue->msg_ptr->size > 0
unfoldable pub is_filling : Queue → Bool
is_filling q = elim q.msg_ptr [ none ↦ false | some i ↦ ltb 0 (q.queue i).size ]

-- `queuePush`; the assertions on the header are left out.
unfoldable pub queue_push : QueueBuffer → Bool → Queue → Queue
unfolding set_segment new_segment_buffer is_filling
queue_push buffer flush q =
    let b = q.queue buffer.handle in
    let q1 = record q {
      queue = set_segment q.queue buffer.handle (record b {
        uncommitted = (b.uncommitted + 65535) % 65536;
        msg_buffer = put16 b.msg_buffer (buffer.buffer - 2) 0xcccc;
      });
    } in
    if flush && is_filling q1 then new_segment_buffer q1 else q1

-- `queueLevel`
pub queue_level : Queue → ℕ
queue_level q = if ltb 1 q.queue_len || q.queue_len == 1 && is_filling q then q.queue_len else 0

-- while (p < pl): every message gets the next transport layer counter. `none`: the fuel ran out,
-- as it does where a message length leads nowhere.
pub number_messages : ℕ → ℕ → ℕ → ℕ → Bytes → Option (ℕ × Bytes)
number_messages zero p size ctr m = none
number_messages (suc fuel) p size ctr m =
    let rest =
      number_messages fuel (p + get16 m p + 4) size ((ctr + 1) % 65536) (put16 m (p + 2) ctr) in
    if ltb (p + 4) size then rest else some (ctr, m)

-- The flush at the start of `queuePop`: the only segment, where it is not empty, is closed.
pub flush_tail : Bool → Queue → Queue
unfolding new_segment_buffer
flush_tail flush q =
    if q.queue_len == 1 && ltb 0 (q.queue q.queue_rp).size && flush then new_segment_buffer q else q

-- The segment `i` is not the active one, fully committed, and not empty.
pub is_ready : ℕ → Queue → Bool
is_ready i q = let b = q.queue i in ltb 1 q.queue_len && b.uncommitted == 0 && ltb 0 b.size

-- The segment that `queuePop` returns, and the queue behind its flush.
pub pop_segment : Bool → Queue → Option ℕ × Queue
unfolding flush_tail is_ready
pop_segment flush q0 =
    let q = record q0 { packets_lost = 0 } in
    let q1 = flush_tail flush q in
    if leb 1 q.queue_len
    then if is_ready q.queue_rp q1 then (some q.queue_rp, q1) else (none, q1)
    else (none, q)

-- What `queuePop` returns: the packets lost, the buffer, the transport layer counter, the queue.
pub record Popped : Type 0 where
  pub lost : ℕ
  pub segment : Option QueueBuffer
  pub ctr : ℕ
  pub queue : Queue

pub number_segment : ℕ → ℕ → ℕ → Queue → Option Popped
unfolding set_segment
number_segment lost i ctr q =
    let b = q.queue i in
    elim (number_messages 1500 0 b.size ctr b.msg_buffer) [
      | none ↦ none
      | some (ctr', buf) ↦ some (record {
        lost = lost;
        segment = some (record { handle = i; buffer = 0; size = b.size });
        ctr = ctr';
        queue = record q { queue = set_segment q.queue i (record b { msg_buffer = buf }) };
      })
    ]

-- The rest of `queuePop`, with the segment found or not.
pub pop_found : ℕ → ℕ → Option ℕ → Queue → Option Popped
unfolding number_segment
pop_found lost ctr none q = some (record { lost = lost; segment = none; ctr = ctr; queue = q })
pop_found lost ctr (some i) q = number_segment lost i ctr q

-- `queuePop`
pub queue_pop : Bool → ℕ → Queue → Option Popped
queue_pop flush ctr q =
    let (found, q') = pop_segment flush q in pop_found q.packets_lost ctr found q'

-- `queueRelease`
pub queue_release : Queue → Queue
queue_release q = record q {
  queue_rp = if leb q.queue_size (q.queue_rp + 1) then 0 else q.queue_rp + 1;
  queue_len = q.queue_len - 1;
}
