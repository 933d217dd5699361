-- ===== src/Queue/Order.antt =====
-- The order of the segments in the transmit queue of src/queue32.c: first in, first out.
use xcplite.Prelude.{ap, ℕ, ◌≤◌, ◌<◌, ◌≡◌, arith, suc}
use xcplite.Queue.{Queue, Segment, queue_release}
use xcplite.Queue.Inv.{IsWf, ring_index}

-- the segment behind `k` others
abbrev pub nth_segment : Queue → ℕ → Segment
nth_segment q k = q.queue (ring_index q k)

-- The segments of `q'` are those of `q`, but for the last one, with more behind it.
pub record Extends (q q' : Queue) : Type 0 where
  pub length : q.queue_len ≤ q'.queue_len
  pub closed : (k : ℕ) → suc k < q.queue_len → nth_segment q' k ≡ nth_segment q k

pub queue_release-nth_segment :
    (q : Queue) (k : ℕ)
    → IsWf q
    → suc k < q.queue_len
    → nth_segment (queue_release q) k ≡ nth_segment q (suc k)
unfolding queue_release
queue_release-nth_segment q k v h = ap q.queue (ground (arith, v.read_index, v.used))

-- Where more than one segment is in use, a release takes away the oldest one and no other.
abbrev pub Releases : Queue → Queue → Type 0
Releases q r =
    (suc r.queue_len ≡ q.queue_len)
    × ((k : ℕ) → k < r.queue_len → nth_segment r k ≡ nth_segment q (suc k))
