-- ===== src/RwQueue.antt =====
-- The job queue of threads/rwlock.c. Each function runs under the queue's lock, for writing where
-- it changes the queue, so that one call is one step; `j_id` is the node's tag.
pub mod Refine
pub mod Remove
mod Tests
use apue_learning.Common.{
  ℕ, zero, suc, ◌+◌, Bool, true, false, Option, none, some, ◌==◌, if◌then◌else◌,
}
use apue_learning.DoubleList.{Node, Queue, update, set_next, set_prev, ◌>>=◌}

-- `queue_init`: the ends; `err` is what `pthread_rwlock_init` returns.
unfoldable pub queue_init : Queue → ℕ → ℕ × Queue
queue_init qp err = (err, record qp { head = 0; tail = 0 })

-- `job_insert`
unfoldable pub job_insert : ℕ → Queue → Option Queue
job_insert jp qp = do
  q1 ← set_next jp qp.head qp
  q2 ← set_prev jp 0 q1
  q3 ← if q2.head == 0 then some (record q2 { tail = jp }) else set_prev q2.head jp q2
  some (record q3 { head = jp })

-- `job_append`
unfoldable pub job_append : ℕ → Queue → Option Queue
job_append jp qp = do
  q1 ← set_next jp 0 qp
  q2 ← set_prev jp q1.tail q1
  q3 ← if q2.tail == 0 then some (record q2 { head = jp }) else set_next q2.tail jp q2
  some (record q3 { tail = jp })

-- `job_remove`. The pointer to the job was followed, so it is not null.
unfoldable pub job_remove : ℕ → Queue → Option Queue
job_remove jp qp =
    let n = qp.heap jp in
    if jp == qp.head
    then (if qp.tail == jp
        then some (record qp { head = n.next; tail = 0 })
        else set_prev n.next n.prev (record qp { head = n.next }))
    else if jp == qp.tail
    then set_next n.prev n.next (record qp { tail = n.prev })
    else do q1 ← set_next n.prev n.next qp; set_prev (q1.heap jp).next (q1.heap jp).prev q1

-- The loop of `job_find`; `none` if the rounds are used up.
find_loop : ℕ → ℕ → ℕ → Queue → Option ℕ
find_loop zero id jp qp = none
find_loop (suc f) id jp qp =
    let rest = find_loop f id (qp.heap jp).next qp in
    if jp == 0 then some 0 else if (qp.heap jp).tag == id then some jp else rest

-- `job_find`: 0 if the lock for reading is refused (`locked` is its return value) or no job has the
-- thread's id. `rounds` bounds the loop.
unfoldable pub job_find : (rounds : ℕ) → (locked : ℕ) → ℕ → Queue → Option ℕ
unfolding find_loop
job_find rounds locked id qp = if locked == 0 then find_loop rounds id qp.head qp else some 0
