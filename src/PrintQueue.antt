-- ===== src/PrintQueue.antt =====
-- The pending jobs and the job numbers of printer/printd.c. Each function runs under `joblock`, so
-- that one call is one step; a job's number is its node's tag.
pub mod Refine
pub mod Remove
pub mod Numbers
mod Tests
use apue_learning.Common.{
  ℕ, ◌+◌, ◌-◌, ◌*◌, ◌%◌, ◌^◌, Bool, true, false, ◌||◌, Option, none, some, ltb, leb, ◌==◌,
  if◌then◌else◌,
}
use apue_learning.DoubleList.{Node, Queue, update, set_next, set_prev, ◌>>=◌}

-- `add_job`. `jp` is what `malloc` returns, and not null: else `log_sys` ends the process.
unfoldable pub add_job : ℕ → ℕ → Queue → Option Queue
add_job jp jobid q = do
  q0 ← some (record q { heap = update q.heap jp (record (q.heap jp) { tag = jobid }) })
  q1 ← set_next jp 0 q0
  q2 ← set_prev jp q1.tail q1
  q3 ← if q2.tail == 0 then some (record q2 { head = jp }) else set_next q2.tail jp q2
  some (record q3 { tail = jp })

-- `replace_job`
unfoldable pub replace_job : ℕ → Queue → Option Queue
replace_job jp q = do
  q1 ← set_prev jp 0 q
  q2 ← set_next jp q1.head q1
  q3 ← if q2.head == 0 then some (record q2 { tail = jp }) else set_prev q2.head jp q2
  some (record q3 { head = jp })

-- `remove_job`
unfoldable pub remove_job : ℕ → Queue → Option Queue
remove_job target q = do
  q1 ←
      (if (q.heap target).next == 0
        then some (record q { tail = (q.heap target).prev })
        else set_prev (q.heap target).next (q.heap target).prev q)
  (if (q1.heap target).prev == 0
      then some (record q1 { head = (q1.heap target).next })
      else set_next (q1.heap target).prev (q1.heap target).next q1)

-- `get_newjobno`: the number, and the next one. `nextjob` is an `int32_t`, kept by its 32 bits; it
-- is not positive if they are 0 or the sign bit is set.
unfoldable pub get_newjobno : ℕ → ℕ × ℕ
get_newjobno nextjob =
    let n = (nextjob + 1) % 2 ^ 32 in (nextjob, if (n == 0) || leb (2 ^ 31) n then 1 else n)
