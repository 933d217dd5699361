-- ===== src/Tests/QueueTests.antt =====
-- The transmit queue at small sizes.
use xcplite.Prelude.{◌*◌, ◌≤◌, ◌<◌, ◌≡◌, arith, true, some}
use xcplite.Queue.{
  Queue, QueueBuffer, allocated_size, fresh_queue, queue_init, queue_acquire, queue_push, queue_pop,
}
use xcplite.Queue.Inv.{IsWf}
use xcplite.Queue.Init.{Step, Steps, queue_init-Steps-IsWf}
use xcplite.Queue.Reserve.{AcquiresWell, queue_acquire-AcquiresWell}
use xcplite.Queue.Take.{PopsWell, queue_pop-PopsWell}

abbrev small_queue : Queue
small_queue = fresh_queue 4000

abbrev buffer : QueueBuffer
buffer = record { handle = 0; buffer = 4; size = 12 }

-- a packet is reserved and committed
abbrev filled : Queue
filled = queue_push buffer true (queue_acquire 10 small_queue).1

filled-Steps : Steps small_queue filled
filled-Steps =
    Steps.more small_queue (queue_acquire 10 small_queue).1 filled
      (Steps.more small_queue small_queue (queue_acquire 10 small_queue).1 (Steps.stop small_queue)
        (Step.acquire 10 small_queue))
      (Step.push buffer true (queue_acquire 10 small_queue).1)

queue_init-Steps-IsWf_example :
    (queue_init 4000 ≡ some small_queue)
    × IsWf filled
    × (0 < filled.queue_size)
    × (filled.queue_size * 1480 ≤ allocated_size 4000)
    × (4000 ≤ filled.queue_size * 1480)
queue_init-Steps-IsWf_example = queue_init-Steps-IsWf 4000 filled (omega arith) filled-Steps

queue_acquire-AcquiresWell_example :
    AcquiresWell 10 small_queue (queue_acquire 10 small_queue).0 (queue_acquire 10 small_queue).1
queue_acquire-AcquiresWell_example =
    queue_acquire-AcquiresWell 10 small_queue
      (queue_init-Steps-IsWf 4000 small_queue (omega arith) (Steps.stop small_queue)).1
      (omega arith) (omega arith)

queue_pop-PopsWell_example : PopsWell filled (queue_pop true 7 filled)
queue_pop-PopsWell_example =
    queue_pop-PopsWell true 7 filled
      (queue_init-Steps-IsWf 4000 filled (omega arith) filled-Steps).1
